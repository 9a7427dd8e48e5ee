-- ===== src/Sources/Decide.antt =====
-- The decision that the sources with semantic versions share: HasUpdate of
-- pkg/source/configmap/source.go, github.go, gitlab.go and helm.go after the latest version is
-- known. The code repeats it in each; only the text of two errors differs.
pub mod Forward
pub mod Order
use crd_bootstrap.Base.{
  String, Bool, true, false, ◌||◌, [], ◌∷◌, Outcome, ok, wrap, map_err, and_then, if◌then◌else◌,
  ◌==◌,
}
use crd_bootstrap.Api.{Bootstrap}
use crd_bootstrap.Platform.{Semver}

module _ (S : Semver) where
  -- The comparison with the revision that was applied last.
  unfoldable pub compare_applied : String → Bootstrap → String → S.Version → Outcome (Bool × String)
  compare_applied text obj latest latest_version =
      let applied = obj.status.last_applied_revision in
      if applied == ""
      then ok (true, latest)
      else and_then (map_err (wrap text (applied ∷ [])) (S.new_version applied)) λ applied_version.
        if S.equal applied_version latest_version || S.greater_than applied_version latest_version
        then ok (false, applied)
        else ok (true, latest)

  unfoldable pub decide_update : String → String → Bootstrap → String → Outcome (Bool × String)
  unfolding compare_applied
  decide_update current_text applied_text obj latest =
      and_then (map_err (wrap current_text (latest ∷ [])) (S.new_version latest)) λ latest_version.
        and_then
          (map_err (wrap "failed to parse constraint" [])
            (S.new_constraint obj.spec.version.semver))
          λ constraint.
            if S.check constraint latest_version
            then compare_applied applied_text obj latest latest_version
            else ok (false, obj.status.last_applied_revision)
