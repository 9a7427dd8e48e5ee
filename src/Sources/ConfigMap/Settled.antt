-- ===== src/Sources/ConfigMap/Settled.antt =====
-- The config map source after its update has been applied.
use crd_bootstrap.Base.{
  String, ◌≡◌, ◌≢◌, refl, sym, ap, ◌∙◌, Bool, true, false, Option, some, ok, bind-eq-ok,
  map_err-eq-ok, or_fail-eq-ok, wrapping, from, ◌>>=◌, Outcome,
}
use crd_bootstrap.Base.Dict.{Dict, lookup}
use crd_bootstrap.Api
use crd_bootstrap.Api.{Bootstrap}
use crd_bootstrap.Platform.{Semver, IsOrdered, Platform}
use crd_bootstrap.Platform.World.{World, outside}
use crd_bootstrap.Sources.{Contract}
use crd_bootstrap.Sources.Decide.{decide_update}
use crd_bootstrap.Sources.Decide.Forward.{decide_update-IsNewer, decide_update_settled}
use crd_bootstrap.Sources.ConfigMap.{version_key, has_update_selected}

module _ (S : Semver) (order : IsOrdered S) {P : Platform} (next : Option (Contract P)) where
  abbrev decided : Bootstrap → String → Outcome (Bool × String)
  decided =
      decide_update S "failed to parse current config map version as semver"
        "failed to parse last applied revision; expected version for config map source"

  -- What an answer about a config map comes from.
  record IsFound (c : Api.ConfigMap) (obj : Bootstrap) (w : World P) (answer : Bool × String)
      : Type 0 where
    pub contents : Dict String
    pub latest : String
    pub got : (P.get_config_map c.name c.namespace w.outside).0 ≡ ok contents
    pub version : lookup version_key contents ≡ some latest
    pub decides : decided obj latest ≡ ok answer

  filled :
      (obj : Bootstrap) (latest revision : String)
      → decided obj latest ≡ ok (true, revision)
      → revision ≢ ""
  filled obj latest revision e empty =
      let (same, n) = decide_update-IsNewer S _ _ obj latest revision e in
      order.no_empty n.version (ap S.new_version (sym (same ∙ empty)) ∙ n.parsed)

  has_update_selected-IsFound :
      (c : Api.ConfigMap) (obj : Bootstrap) (w : World P) (answer : Bool × String)
      → (has_update_selected S next (some c) obj w).0 ≡ ok answer
      → IsFound c obj w answer
  unfolding has_update_selected wrapping from outside
  has_update_selected-IsFound c obj w answer e =
      let (contents, got, e1, s1) = bind-eq-ok _ _ w _ e in
      let (latest, found, e2, s2) = bind-eq-ok _ _ _ _ e1 in
      record {
        contents = contents;
        latest = latest;
        got = map_err-eq-ok _ _ got;
        version = or_fail-eq-ok _ _ found;
        decides = e2;
      }

  IsFound-has_update_selected :
      (c : Api.ConfigMap) (obj : Bootstrap) (w : World P) (answer : Bool × String)
      → IsFound c obj w answer
      → (has_update_selected S next (some c) obj w).0 ≡ ok answer
  unfolding has_update_selected ◌>>=◌ outside
  IsFound-has_update_selected c obj w answer f = rw (f.got, f.version, f.decides) refl

  -- Once the update of a config map is recorded as applied, the same content is no update.
  pub has_update_selected-settled :
      (c : Api.ConfigMap) (obj after : Bootstrap) (w v : World P) (revision : String)
      → (has_update_selected S next (some c) obj w).0 ≡ ok (true, revision)
      → (P.get_config_map c.name c.namespace v.outside).0
        ≡ (P.get_config_map c.name c.namespace w.outside).0
      → after.spec.version.semver ≡ obj.spec.version.semver
      → after.status.last_applied_revision ≡ revision
      → (has_update_selected S next (some c) after v).0 ≡ ok (false, revision)
  has_update_selected-settled c obj after w v revision e same spec applied =
      let f = has_update_selected-IsFound c obj w (true, revision) e in
      IsFound-has_update_selected c after v (false, revision)
        (record {
          contents = f.contents;
          latest = f.latest;
          got = same ∙ f.got;
          version = f.version;
          decides =
              decide_update_settled S order.equal_refl _ _ obj after f.latest revision f.decides
                spec applied (filled obj f.latest revision f.decides);
        })
