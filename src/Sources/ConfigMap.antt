-- ===== src/Sources/ConfigMap.antt =====
-- pkg/source/configmap/source.go
pub mod Content
pub mod Settled
use crd_bootstrap.Base.{
  String, Bool, Option, none, some, [], ◌∷◌, not, M, pure, from, deref, or_fail, fail_if, wrapping,
  msg, ◌>>=◌, ◌>>◌, ◌==◌,
}
use crd_bootstrap.Base.Dict.{lookup}
use crd_bootstrap.Base.FilePath.{FilePath, join_path}
use crd_bootstrap.Api
use crd_bootstrap.Api.{Bootstrap}
use crd_bootstrap.Platform.{Semver, Platform}
use crd_bootstrap.Platform.World.{World, outside}
use crd_bootstrap.Platform.Os.{write_file}
use crd_bootstrap.Sources.{Contract, fetch_next, has_update_next}
use crd_bootstrap.Sources.Decide.{decide_update}

abbrev pub crd_key : String
crd_key = "crd.yaml"

abbrev pub version_key : String
version_key = "version"

abbrev undefined_text : String
undefined_text = "configmap isn't defined and there are no other sources configured"

module _ (S : Semver) {P : Platform} (next : Option (Contract P)) where
  unfoldable pub fetch_selected :
      Option Api.ConfigMap → FilePath → Bootstrap → String → M (World P) FilePath
  unfolding lookup write_file fetch_next
  fetch_selected none dir obj revision = fetch_next undefined_text next dir obj revision
  fetch_selected (some c) dir obj revision = do
    contents ←
        wrapping "failed to find config map" [] (outside (P.get_config_map c.name c.namespace))
    v ← from (or_fail (msg "version key not defined in configmap" []) (lookup version_key contents))
    from (
        fail_if (not (v == revision))
          (msg "fetched revision does not equal requested" (v ∷ revision ∷ [])))
    content ←
        from (or_fail (msg "failed to find in config map" (crd_key ∷ [])) (lookup crd_key contents))
    wrapping "failed to create crd file from config map" []
        (write_file (join_path dir "crd.yaml") content)
    pure (join_path dir "crd.yaml")

  unfoldable pub fetch_crd : FilePath → Bootstrap → String → M (World P) FilePath
  unfolding fetch_selected
  fetch_crd dir obj revision = do
    source ← from (deref obj.spec.source)
    fetch_selected source.config_map dir obj revision

  unfoldable pub has_update_selected :
      Option Api.ConfigMap → Bootstrap → M (World P) (Bool × String)
  unfolding lookup has_update_next decide_update
  has_update_selected none obj = has_update_next undefined_text next obj
  has_update_selected (some c) obj = do
    contents ←
        wrapping "failed to find config map" [] (outside (P.get_config_map c.name c.namespace))
    latest ←
        from (or_fail (msg "version key not defined in configmap" []) (lookup version_key contents))
    from (
        decide_update S "failed to parse current config map version as semver"
          "failed to parse last applied revision; expected version for config map source" obj
          latest)

  unfoldable pub has_update : Bootstrap → M (World P) (Bool × String)
  unfolding has_update_selected
  has_update obj = do
    source ← from (deref obj.spec.source)
    has_update_selected source.config_map obj

  abbrev pub new_source : Contract P
  new_source = record { fetch_crd = fetch_crd; has_update = has_update }
