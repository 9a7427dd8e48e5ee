-- ===== src/Sources/Decide/Order.antt =====
-- The order of applied revisions along a history.
use mathlib.Core.Path.{subst}
use crd_bootstrap.Base.{String, ◌≡◌, sym, ◌∙◌, true, false, ◌⊎◌, inl, inr, ok, ok-injective}
use crd_bootstrap.Api.{Bootstrap}
use crd_bootstrap.Platform.{Semver, IsOrdered}
use crd_bootstrap.Sources.Decide.Forward.{IsNewer}

module _ (S : Semver) where
  -- Both texts are versions, and the second is the greater one.
  pub record IsBelow (x y : String) : Type 0 where
    pub lower : S.Version
    pub upper : S.Version
    pub lower_parsed : S.new_version x ≡ ok lower
    pub upper_parsed : S.new_version y ≡ ok upper
    pub greater : S.greater_than upper lower ≡ true

  -- The revision stays, or is the first one, or goes up.
  abbrev pub IsLater : String → String → Type 0
  IsLater x y = (x ≡ y) ⊎ (x ≡ "") ⊎ IsBelow x y

  IsBelow-trans : IsOrdered S → {x y z : String} → IsBelow x y → IsBelow y z → IsBelow x z
  IsBelow-trans laws a b = record {
    lower = a.lower;
    upper = b.upper;
    lower_parsed = a.lower_parsed;
    upper_parsed = b.upper_parsed;
    greater = laws.transitive b.upper b.lower a.lower b.greater (
        subst (λ v. S.greater_than v a.lower ≡ true)
          (ok-injective (sym a.upper_parsed ∙ b.lower_parsed)) a.greater);
  }

  -- The empty text is no version.
  IsBelow-empty : IsOrdered S → {x : String} → ¬ IsBelow x ""
  IsBelow-empty laws b = laws.no_empty b.upper b.upper_parsed

  pub IsLater-trans : IsOrdered S → (x y z : String) → IsLater x y → IsLater y z → IsLater x z
  IsLater-trans laws x y z (inl e) q = subst (λ t. IsLater t z) (sym e) q
  IsLater-trans laws x y z (inr (inl e)) q = inr (inl e)
  IsLater-trans laws x y z (inr (inr b)) (inl e) = inr (inr (subst (λ t. IsBelow x t) e b))
  IsLater-trans laws x y z (inr (inr b)) (inr (inl e)) =
      absurd (IsBelow-empty laws (subst (λ t. IsBelow x t) e b))
  IsLater-trans laws x y z (inr (inr b)) (inr (inr c)) = inr (inr (IsBelow-trans laws b c))

  pub IsNewer-IsLater :
      IsOrdered S
      → (obj : Bootstrap) (latest : String) → IsNewer S obj latest
      → IsLater obj.status.last_applied_revision latest
  IsNewer-IsLater laws obj latest n = later n.newer
    where
      later :
          ((obj.status.last_applied_revision ≡ "")
            ⊎ ((applied : S.Version) × (S.new_version obj.status.last_applied_revision ≡ ok applied)
                × (S.equal applied n.version ≡ false)
                × (S.greater_than applied n.version ≡ false)))
          → IsLater obj.status.last_applied_revision latest
      later (inl first) = inr (inl first)
      later (inr (applied, parsed, differs, not_above)) = inr (
          inr (record {
            lower = applied;
            upper = n.version;
            lower_parsed = parsed;
            upper_parsed = n.parsed;
            greater = laws.total applied n.version differs not_above;
          }))
