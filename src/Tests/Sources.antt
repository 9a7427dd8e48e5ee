-- ===== src/Tests/Sources.antt =====
-- Tests of the sources and of the detector, and examples of their theorems.
use crd_bootstrap.Base.{
  String, ◌≡◌, ◌↔◌, refl, true, false, none, some, List, [], ◌∷◌, All, ok, panic, wrap, Error,
  ◌>>=◌,
}
use crd_bootstrap.Base.FilePath.{FilePath, join_path, same_path}
use crd_bootstrap.Api
use crd_bootstrap.Platform.{Link}
use crd_bootstrap.Platform.World.{outside, edit_files}
use crd_bootstrap.Breaking.{CrdVersion, detect_breaking_changes}
use crd_bootstrap.Breaking.Compatible.{IsCovered, detect_breaking_changes-eq-nil}
use crd_bootstrap.Sources.Http.{shared}
use crd_bootstrap.Sources.Decide.{decide_update}
use crd_bootstrap.Sources.Decide.Forward.{IsNewer, decide_update-eq-update}
use crd_bootstrap.Sources.ConfigMap
use crd_bootstrap.Sources.ConfigMap.Content.{IsFetched, fetch_selected-IsFetched}
use crd_bootstrap.Sources.Url
use crd_bootstrap.Sources.Url.{compare_digest}
use crd_bootstrap.Sources.Url.Digest.{IsWanted, has_update_selected-IsWanted}
use crd_bootstrap.Sources.Url.Cleanup.{has_update_selected-files}
use crd_bootstrap.Sources.Github
use crd_bootstrap.Sources.Github.{download_url}
use crd_bootstrap.Sources.Gitlab
use crd_bootstrap.Sources.Gitlab.{find_asset}
use crd_bootstrap.Sources.Gitlab.Crashes.{has_update_selected-panics}
use crd_bootstrap.Sources.Chain.{HasVersions, helm_provider, helm_provider-IsForward}
use crd_bootstrap.Sources.Chain.Links.{Agree}
use crd_bootstrap.Sources.Chain.Choice.{alone, config_map_kind, helm_provider-Agree}
use crd_bootstrap.Sources.Forward.{IsForward}
use crd_bootstrap.Sources.Helm.{has_update_selected as helm_has_update}
use crd_bootstrap.Tests.{
  sort_by, no_source, bootstrap, crds_url, plain_semver, local, start, texts, no_source, crds_url,
  bootstrap,
}

opened : Unit {0}
unfolding decide_update detect_breaking_changes ConfigMap.fetch_selected Url.has_update_selected
    Gitlab.has_update_selected find_asset Url.fetch_selected Github.fetch helm_has_update outside
    ◌>>=◌ edit_files join_path same_path
opened = tt

abbrev on_version : String → Api.Bootstrap
on_version applied = bootstrap no_source "" applied false

abbrev here : FilePath
here = "crd" ∷ "tmp" ∷ []

decide_update_tests :
    (decide_update plain_semver "c" "a" (on_version "1") "2" ≡ ok (true, "2"))
    × (decide_update plain_semver "c" "a" (on_version "3") "2" ≡ ok (false, "3"))
    × (decide_update plain_semver "c" "a" (on_version "") "2" ≡ ok (true, "2"))
unfolding opened
decide_update_tests = (refl, refl, refl)

abbrev two : String
two = "2"

decide_update-eq-update_example :
    (decide_update plain_semver "c" "a" (on_version "1") "2" ≡ ok (true, "2"))
    ↔ ((two ≡ two) × IsNewer plain_semver (on_version "1") "2")
decide_update-eq-update_example =
    decide_update-eq-update plain_semver "c" "a" (on_version "1") "2" "2"

abbrev version_with : String → String → CrdVersion String
version_with name schema = record {
  name = name;
  schema = some (record { open_api_v3_schema = some schema });
}

detect_breaking_changes_tests :
    (detect_breaking_changes texts (version_with "v1" "a" ∷ []) (version_with "v1" "b" ∷ [])
      ≡ ok ("version v1: Root" ∷ []))
    × (detect_breaking_changes texts (version_with "v1" "a" ∷ []) []
        ≡ ok ("version v1 removed" ∷ []))
unfolding opened
detect_breaking_changes_tests = (refl, refl)

detect_breaking_changes-eq-nil_example :
    (detect_breaking_changes texts
        (version_with "v1" "a" ∷ [])
        (version_with "v2" "b" ∷ version_with "v1" "a" ∷ [])
      ≡ ok [])
    ↔ All
        (IsCovered texts (version_with "v2" "b" ∷ version_with "v1" "a" ∷ []))
        (version_with "v1" "a" ∷ [])
detect_breaking_changes-eq-nil_example =
    detect_breaking_changes-eq-nil texts (version_with "v1" "a" ∷ [])
      (version_with "v2" "b" ∷ version_with "v1" "a" ∷ [])

abbrev settings : Api.ConfigMap
settings = record { name = "crds"; namespace = "default" }

fetch_selected-IsFetched_example :
    IsFetched settings "2" here
      ("crd.yaml" ∷ here)
      (start 0)
      (ConfigMap.fetch_selected plain_semver none
        (some settings)
        here
        (on_version "1")
        "2"
        (start 0)).1
unfolding opened
fetch_selected-IsFetched_example =
    fetch_selected-IsFetched plain_semver none settings here ("crd.yaml" ∷ here) (on_version "1")
      "2" (start 0) refl

abbrev page : Api.Url
page = record { url = crds_url; secret_ref = none }

has_update_selected-IsWanted_example :
    (content : String) × ("sha256 of crds" ≡ local.sha256_hex content)
    × IsWanted (on_version "1") "sha256 of crds"
unfolding opened
has_update_selected-IsWanted_example =
    has_update_selected-IsWanted none page (on_version "1") (start 0) "sha256 of crds" refl

has_update_selected-files_example :
    (Url.has_update_selected none (some page) (on_version "1") (start 0)).1.files ≡ []
unfolding opened
has_update_selected-files_example =
    has_update_selected-files none page (on_version "1") (start 0) (λ d s. refl) (λ d e. refl)

abbrev links : List Link
links = record { name = "notes"; url = "u1" } ∷ record { name = "crds.yaml"; url = "u2" } ∷ []

abbrev project : Api.Gitlab
project = record {
  base_api_url = "";
  owner = "o";
  repo = "r";
  secret_ref = none;
  manifest = "crds.yaml";
}

has_update_selected-panics_example :
    (Gitlab.has_update_selected plain_semver none (some project) (on_version "1") (start 0)).0
    ≡ panic
unfolding opened
has_update_selected-panics_example =
    has_update_selected-panics project (on_version "1") (start 0) (start 0)
      (record (start 0) { client = 15_000_000_000 }) shared shared
      (wrap "gitlab API call failed" [] (Error.foreign "no such host")) plain_semver none refl refl
      refl

helm_provider-IsForward_example :
    IsForward plain_semver HasVersions (helm_provider plain_semver sort_by {P = local})
helm_provider-IsForward_example = helm_provider-IsForward plain_semver sort_by {P = local}

-- A spec with a config map and a URL.
abbrev two_sources : Api.Source
two_sources = record no_source {
  config_map = some (record { name = "crds"; namespace = "default" });
  url = some (record { url = crds_url; secret_ref = none });
}

helm_provider-Agree_example :
    Agree {P = local}
      (bootstrap two_sources "1" "1" true)
      (helm_provider plain_semver sort_by)
      (alone plain_semver sort_by (some config_map_kind))
helm_provider-Agree_example =
    helm_provider-Agree plain_semver sort_by two_sources (bootstrap two_sources "1" "1" true) refl
