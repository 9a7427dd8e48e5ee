-- ===== src/Sources/Decide/Forward.antt =====
-- The decision only rolls forward: when it answers "update", and how the applied revision moves.
use crd_bootstrap.Base.{
  String, ◌≡◌, ◌↔◌, ap, refl, sym, ap, ◌∙◌, ◌≢◌, Bool, true, false, ◌||◌, ◌⊎◌, inl, inr, Outcome,
  ok, map_err, map_err-eq-ok, and_then-eq-ok, ◌==◌, eq_iff, if◌then◌else◌, Bool-cases, arith,
}
use crd_bootstrap.Api.{Bootstrap}
use crd_bootstrap.Platform.{Semver}
use crd_bootstrap.Sources.Decide.{compare_applied, decide_update}

module _ (S : Semver) where
  -- What has to hold of the latest version to be installed.
  pub record IsNewer (obj : Bootstrap) (latest : String) : Type 0 where
    pub version : S.Version
    pub parsed : S.new_version latest ≡ ok version
    pub constraint : S.Constraint
    pub wanted : S.new_constraint obj.spec.version.semver ≡ ok constraint
    pub satisfied : S.check constraint version ≡ true
    pub newer :
        (obj.status.last_applied_revision ≡ "")
        ⊎ ((applied : S.Version) × (S.new_version obj.status.last_applied_revision ≡ ok applied)
            × (S.equal applied version ≡ false)
            × (S.greater_than applied version ≡ false))

  -- The comparison in the innermost test.
  compare_lem :
      (applied latest : S.Version) (a l r : String)
      → if◌then◌else◌ {A = Outcome (Bool × String)}
          (S.equal applied latest || S.greater_than applied latest)
          (ok (false, a))
          (ok (true, l))
        ≡ ok (true, r)
      → (l ≡ r) × (S.equal applied latest ≡ false) × (S.greater_than applied latest ≡ false)
  compare_lem applied latest a l r e = ground arith

  compare_applied-eq-true :
      (text : String) (obj : Bootstrap) (latest r : String) (version : S.Version)
      → compare_applied S text obj latest version ≡ ok (true, r)
      → (latest ≡ r)
        × ((obj.status.last_applied_revision ≡ "")
            ⊎ ((applied : S.Version) × (S.new_version obj.status.last_applied_revision ≡ ok applied)
                × (S.equal applied version ≡ false)
                × (S.greater_than applied version ≡ false)))
  unfolding compare_applied
  compare_applied-eq-true text obj latest r version e =
      elim (Bool-cases (obj.status.last_applied_revision == "")) [
        | inl first ↦ ground (arith, eq_iff obj.status.last_applied_revision "")
        | inr again ↦
            let rest = and_then-eq-ok _ _ (rw again at e) in
            let (same, differs, not_above) = compare_lem rest.0 version _ latest r rest.2 in
            (same, inr (rest.0, map_err-eq-ok _ _ rest.1, differs, not_above))
      ]

  checked_lem :
      (b : Bool) (text : String) (obj : Bootstrap) (latest r : String) (version : S.Version)
      → if◌then◌else◌ {A = Outcome (Bool × String)} b
          (compare_applied S text obj latest version)
          (ok (false, obj.status.last_applied_revision))
        ≡ ok (true, r)
      → (b ≡ true) × (compare_applied S text obj latest version ≡ ok (true, r))
  checked_lem true text obj latest r version e = (refl, e)
  checked_lem false text obj latest r version e = cc

  -- An update to a revision is reported only for the latest version itself, and only if that is a
  -- version which satisfies the constraint of the spec, and nothing has been applied yet or the
  -- applied revision is a version that is neither equal to it nor greater.
  pub decide_update-IsNewer :
      (current_text applied_text : String) (obj : Bootstrap) (latest r : String)
      → decide_update S current_text applied_text obj latest ≡ ok (true, r)
      → (latest ≡ r) × IsNewer obj latest
  unfolding decide_update
  decide_update-IsNewer current_text applied_text obj latest r e =
      let (version, parsed, e1) = and_then-eq-ok (map_err _ (S.new_version latest)) _ e in
      let (constraint, wanted, e2) =
        and_then-eq-ok (map_err _ (S.new_constraint obj.spec.version.semver)) _ e1 in
      let (satisfied, e3) =
        checked_lem (S.check constraint version) applied_text obj latest r version e2 in
      let (same, newer) = compare_applied-eq-true applied_text obj latest r version e3 in
      (
        same,
        record {
          version = version;
          parsed = map_err-eq-ok _ _ parsed;
          constraint = constraint;
          wanted = map_err-eq-ok _ _ wanted;
          satisfied = satisfied;
          newer = newer;
        },
      )

  -- A latest version that satisfies the constraint of the spec is reported as an update, with
  -- itself as the revision, if nothing has been applied yet, or if the applied revision is a version
  -- that is neither equal to it nor greater.
  pub decide_update_of_IsNewer :
      (current_text applied_text : String) (obj : Bootstrap) (latest : String)
      → IsNewer obj latest
      → decide_update S current_text applied_text obj latest ≡ ok (true, latest)
  unfolding decide_update compare_applied
  decide_update_of_IsNewer current_text applied_text obj latest n =
      rw (n.parsed, n.wanted, n.satisfied) (newer_lem n.newer)
    where
      newer_lem :
          ((obj.status.last_applied_revision ≡ "")
            ⊎ ((applied : S.Version) × (S.new_version obj.status.last_applied_revision ≡ ok applied)
                × (S.equal applied n.version ≡ false)
                × (S.greater_than applied n.version ≡ false)))
          → compare_applied S applied_text obj latest n.version ≡ ok (true, latest)
      newer_lem (inl first) = ground (arith, eq_iff obj.status.last_applied_revision "")
      newer_lem (inr (applied, parsed, differs, not_above)) =
          elim (Bool-cases (obj.status.last_applied_revision == "")) [
            | inl first ↦ rw (first, compare_applied)
            | inr again ↦ rw (again, compare_applied, parsed, differs, not_above)
          ]

  -- The decision on a latest version is an update to a revision exactly if the revision is the latest
  -- version itself, this is a version that satisfies the constraint of the spec, and nothing has been
  -- applied yet or the applied revision is a version that is neither equal to it nor greater.
  pub decide_update-eq-update :
      (current_text applied_text : String) (obj : Bootstrap) (latest r : String)
      → (decide_update S current_text applied_text obj latest ≡ ok (true, r))
        ↔ ((latest ≡ r) × IsNewer obj latest)
  decide_update-eq-update current_text applied_text obj latest r = (
    decide_update-IsNewer current_text applied_text obj latest r,
    λ n.
        decide_update_of_IsNewer current_text applied_text obj latest n.1
        ∙ ap (λ q. ok (true, q)) n.0,
  )

  -- Once a reported version, not the empty text, is recorded as applied, the decision on it is "no
  -- update", for any object with that applied revision and the same constraint, if each version is
  -- equal to itself.
  pub decide_update_settled :
      ((v : S.Version) → S.equal v v ≡ true)
      → (current_text applied_text : String) (obj after : Bootstrap) (latest r : String)
      → decide_update S current_text applied_text obj latest ≡ ok (true, r)
      → after.spec.version.semver ≡ obj.spec.version.semver
      → after.status.last_applied_revision ≡ r
      → r ≢ ""
      → decide_update S current_text applied_text after latest ≡ ok (false, r)
  unfolding decide_update compare_applied
  decide_update_settled reflexive current_text applied_text obj after latest r e spec applied
        filled =
      let (same, n) = decide_update-IsNewer current_text applied_text obj latest r e in
      let parsed_applied : S.new_version after.status.last_applied_revision ≡ ok n.version =
        ap S.new_version (applied ∙ sym same) ∙ n.parsed in
      let nonempty : (after.status.last_applied_revision == "") ≡ false =
        ground (arith, eq_iff after.status.last_applied_revision "") in
      rw (n.parsed, spec, n.wanted, n.satisfied, nonempty, parsed_applied, reflexive) (rw applied)
