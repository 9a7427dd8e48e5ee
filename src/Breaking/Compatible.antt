-- ===== src/Breaking/Compatible.antt =====
-- When the detector finds nothing.
use mathlib.Core.Path.{subst₂}
use mathlib.Core.List.{append-nil}
use crd_bootstrap.Base.{
  String, ◌<>◌, ◌≡◌, refl, sym, ap, ◌∙◌, ◌↔◌, true, Option, none, some, List, [], ◌∷◌, ◌++◌, map,
  All, All-mono, ◌⊎◌, inl, inr, Outcome, Error, ok, err, panic, wrap, map_err, and_then,
  and_then-eq-ok, ok-injective, ◌==◌, if◌then◌else◌, arith,
}
use crd_bootstrap.Base.Dict.{Dict, lookup, insert, lookup-insert}
use crd_bootstrap.Breaking.{
  OpenApi, CrdVersion, schema_of, collect_versions, compare_schemas, version_changes, check_version,
  check_versions, detect_breaking_changes,
}

module _ (O : OpenApi) where
  -- The schema of the last version with the name that has one; `found` if there is none.
  unfoldable pub last_schema :
      String → List (CrdVersion O.Schema) → Option O.Schema → Option O.Schema
  last_schema name [] found = found
  last_schema name (v ∷ vs) found =
      last_schema name vs
        (elim (schema_of O v) [ none ↦ found | some s ↦ if name == v.name then some s else found ])

  -- The map that the detector builds holds just these schemas.
  lookup-collect_versions :
      (name : String) (vs : List (CrdVersion O.Schema)) (m : Dict O.Schema)
      → lookup name (collect_versions O vs m) ≡ last_schema name vs (lookup name m)
  unfolding collect_versions last_schema
  lookup-collect_versions name [] m = refl
  lookup-collect_versions name (v ∷ vs) m =
      collected (schema_of O v) refl (lookup-collect_versions name vs)
    where
      collected :
          (o : Option O.Schema)
          → schema_of O v ≡ o
          → ((d : Dict O.Schema)
              → lookup name (collect_versions O vs d) ≡ last_schema name vs (lookup name d))
          → lookup name (collect_versions O vs (elim o [ none ↦ m | some s ↦ insert v.name s m ]))
            ≡ last_schema name vs (elim o [
              | none ↦ lookup name m
              | some s ↦ if name == v.name then some s else lookup name m
            ])
      collected none e ih = ih m
      collected (some s) e ih =
          ih (insert v.name s m) ∙ ap (last_schema name vs) (lookup-insert v.name name s m)

  -- A version that can be updated in silence: it has no schema, or the update still has its
  -- schema, or has one that differs without a breaking change.
  abbrev pub IsCovered : List (CrdVersion O.Schema) → CrdVersion O.Schema → Type 0
  IsCovered new v =
      (schema_of O v ≡ none)
      ⊎ ((old : O.Schema) × (next : O.Schema) × (schema_of O v ≡ some old)
          × (last_schema v.name new none ≡ some next)
          × ((O.deep_equal old next ≡ true) ⊎ (compare_schemas O old next ≡ ok [])))

  prefixed-eq-nil :
      (o : Outcome (List String)) (w : Error → Error) (f : String → String)
      → (and_then (map_err w o) (λ changes. ok (map f changes)) ≡ ok []) ↔ (o ≡ ok [])
  prefixed-eq-nil (ok []) w f = (λ e. refl, λ e. refl)
  prefixed-eq-nil (ok (c ∷ cs)) w f = (λ e. cc, λ e. cc)
  prefixed-eq-nil (err x) w f = (λ e. cc, λ e. cc)
  prefixed-eq-nil panic w f = (λ e. cc, λ e. cc)

  version_changes-eq-nil :
      (name : String) (old next : O.Schema)
      → (version_changes O name old next ≡ ok [])
        ↔ ((O.deep_equal old next ≡ true) ⊎ (compare_schemas O old next ≡ ok []))
  unfolding version_changes
  version_changes-eq-nil name old next = ground (
    arith,
    prefixed-eq-nil (compare_schemas O old next) (wrap "comparing version" (name ∷ []))
        (λ c. "version " <> name <> ": " <> c),
  )

  check_version-eq-nil :
      (new : List (CrdVersion O.Schema)) (v : CrdVersion O.Schema)
      → (check_version O (collect_versions O new []) v ≡ ok []) ↔ IsCovered new v
  unfolding check_version
  check_version-eq-nil new v =
      checked (schema_of O v) refl (lookup v.name (collect_versions O new [])) (sym found)
    where
      found : lookup v.name (collect_versions O new []) ≡ last_schema v.name new none
      found = rw (lookup-collect_versions v.name new []) (unfold lookup in refl)

      checked :
          (o : Option O.Schema)
          → schema_of O v ≡ o
          → (n : Option O.Schema) → last_schema v.name new none ≡ n
          → (elim o [
            | none ↦ ok []
            | some old ↦ elim n [
              | none ↦ ok (("version " <> O.quote v.name <> " removed") ∷ [])
              | some next ↦ version_changes O v.name old next
            ]
          ]
              ≡ ok [])
            ↔ IsCovered new v
      checked none e n h = (λ x. inl e, λ x. refl)
      checked (some old) e none h = (λ x. cc, λ x. absurd (missing x))
        where
          missing : IsCovered new v → ⊥
          missing (inl a) = cc
          missing (inr (o, n, a, b, c)) = cc
      checked (some old) e (some next) h =
          (λ x. inr (old, next, e, h, (version_changes-eq-nil v.name old next).0 x), back)
        where
          back : IsCovered new v → version_changes O v.name old next ≡ ok []
          back (inl a) = cc
          back (inr (o, n, a, b, c)) =
              let eo : o ≡ old = cc in
              let en : n ≡ next = cc in
              (version_changes-eq-nil v.name old next).1 (
                subst₂ (λ x y. (O.deep_equal x y ≡ true) ⊎ (compare_schemas O x y ≡ ok [])) eo en c)

  append-eq-nil : (xs ys : List String) → xs ++ ys ≡ [] → (xs ≡ []) × (ys ≡ [])
  append-eq-nil [] ys e = (refl, e)
  append-eq-nil (x ∷ xs) ys e = cc

  check_versions-eq-nil :
      (m : Dict O.Schema) (vs : List (CrdVersion O.Schema)) (breaking : List String)
      → (check_versions O m vs breaking ≡ ok [])
        ↔ ((breaking ≡ []) × All (λ v. check_version O m v ≡ ok []) vs)
  unfolding check_versions
  check_versions-eq-nil m [] breaking = (λ e. (ok-injective e, tt), λ q. ap ok q.0)
  check_versions-eq-nil m (v ∷ vs) breaking =
      step (λ found. check_versions-eq-nil m vs (breaking ++ found))
    where
      step :
          ((found : List String)
            → (check_versions O m vs (breaking ++ found) ≡ ok [])
              ↔ ((breaking ++ found ≡ []) × All (λ w. check_version O m w ≡ ok []) vs))
          → (check_versions O m (v ∷ vs) breaking ≡ ok [])
            ↔ ((breaking ≡ []) × All (λ w. check_version O m w ≡ ok []) (v ∷ vs))
      step ih = (
        λ e.
            let (found, here, rest) = and_then-eq-ok (check_version O m v) _ e in
            let (none_yet, all) = (ih found).0 rest in
            let (before, now) = append-eq-nil breaking found none_yet in
            (before, (here ∙ ap ok now, all)),
        λ (before, (here, all)). rw here ((ih []).1 (append-nil breaking ∙ before, all)),
      )

  -- The detector reports nothing, and no error, exactly if each version of the installed CRD can be
  -- updated in silence: it has no schema, or the new CRD has a version of its name with a schema,
  -- the last such schema counting, that is deeply equal to it or compares to it without a breaking
  -- change. In particular a version with a schema that is removed is always reported.
  pub detect_breaking_changes-eq-nil :
      (old new : List (CrdVersion O.Schema))
      → (detect_breaking_changes O old new ≡ ok []) ↔ All (IsCovered new) old
  unfolding detect_breaking_changes
  detect_breaking_changes-eq-nil old new = (
    λ e.
        All-mono _ (IsCovered new) old (λ v. (check_version-eq-nil new v).0)
          ((check_versions-eq-nil _ old []).0 e).1,
    λ all.
        (check_versions-eq-nil _ old []).1
          (refl, All-mono (IsCovered new) _ old (λ v. (check_version-eq-nil new v).1) all),
  )
