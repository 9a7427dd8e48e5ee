-- ===== src/Tests/Versions.antt =====
-- Tests of the Helm source's versions and of downloads, and examples of the theorems on them.
use crd_bootstrap.Base.{
  ℕ, ◌⊎◌, String, ◌≡◌, refl, false, none, some, List, [], ◌∷◌, ok, panic, ◌>>=◌,
}
use crd_bootstrap.Base.FilePath.{FilePath, join_path, same_path}
use crd_bootstrap.Api
use crd_bootstrap.Platform.World.{outside, edit_files}
use crd_bootstrap.Breaking.{detect_breaking_changes}
use crd_bootstrap.Sources.Decide.{decide_update}
use crd_bootstrap.Sources.ConfigMap
use crd_bootstrap.Sources.Url
use crd_bootstrap.Sources.Url.{compare_digest}
use crd_bootstrap.Sources.Github
use crd_bootstrap.Sources.Github.{download_url}
use crd_bootstrap.Sources.Download.{IsDownloaded, fetch_selected-IsDownloaded, fetch-IsDownloaded}
use crd_bootstrap.Sources.Gitlab
use crd_bootstrap.Sources.Gitlab.{find_asset}
use crd_bootstrap.Sources.Helm.{
  get_latest_version, trim_prefix, find_versions, has_update_selected as helm_has_update,
}
use crd_bootstrap.Sources.Helm.Latest.{IsLatest, get_latest_version-IsLatest}
use crd_bootstrap.Tests.{
  sort_by, no_source, bootstrap, crds_url, plain_semver, plain_semver-IsOrdered, local, start,
  no_source, crds_url, bootstrap,
}

opened : Unit {0}
unfolding decide_update detect_breaking_changes ConfigMap.fetch_selected Url.has_update_selected
    Gitlab.has_update_selected find_asset Url.fetch_selected Github.fetch helm_has_update outside
    ◌>>=◌ edit_files join_path same_path
opened = tt

abbrev on_version : String → Api.Bootstrap
on_version applied = bootstrap no_source "" applied false

abbrev here : FilePath
here = "crd" ∷ "tmp" ∷ []

abbrev page : Api.Url
page = record { url = crds_url; secret_ref = none }

abbrev no_numbers : List ℕ
no_numbers = []

abbrev names : List String
names = "1" ∷ "junk" ∷ "3" ∷ "2" ∷ []

get_latest_version_tests :
    (get_latest_version plain_semver sort_by names 2 ≡ ok "3")
    × (get_latest_version plain_semver sort_by names 4 ≡ panic)
unfolding opened
get_latest_version_tests = (refl, refl)

get_latest_version-IsLatest_example :
    ((3 ∷ 2 ∷ [] ≡ no_numbers) × (get_latest_version plain_semver sort_by names 2 ≡ panic))
    ⊎ ((text : String) × (get_latest_version plain_semver sort_by names 2 ≡ ok text)
        × IsLatest plain_semver 2 names text)
unfolding opened
get_latest_version-IsLatest_example =
    get_latest_version-IsLatest plain_semver sort_by plain_semver-IsOrdered 2 names (3 ∷ 2 ∷ [])
      refl (record { in_order = ((refl, tt), (tt, tt)); kept = λ Q all. all; back = λ Q all. all })

abbrev chart : Api.Helm
chart = record {
  chart_reference = "oci://example.com/chart";
  chart_name = "chart";
  secret_ref = none;
}

find_versions_tests :
    (trim_prefix chart.chart_reference "oci://" ≡ "example.com/chart")
    × ((find_versions {P = local} chart "default" (start 0)).0 ≡ ok ("1" ∷ "3" ∷ "2" ∷ []))
    × ((find_versions {P = local}
          (record chart { chart_reference = "https://example.com" })
          "default"
          (start 0)).0
        ≡ ok ("1" ∷ "3" ∷ "2" ∷ []))
unfolding opened
find_versions_tests = (refl, refl, refl)

fetch_selected-IsDownloaded_example :
    IsDownloaded {P = local} crds_url
      ("crds.yaml" ∷ here)
      (Url.fetch_selected none (some page) here (on_version "1") "ignored" (start 0)).1
    × (Url.fetch_selected none (some page) here (on_version "1") "other" (start 0)
        ≡ Url.fetch_selected none (some page) here (on_version "1") "ignored" (start 0))
unfolding opened
fetch_selected-IsDownloaded_example =
    fetch_selected-IsDownloaded none page here ("crds.yaml" ∷ here) (on_version "1") "ignored"
      "other" (start 0) refl

abbrev hosted : Api.Github
hosted = record {
  base_url = "https://example.com";
  base_api_url = "";
  owner = "o";
  repo = "r";
  secret_ref = none;
  manifest = "crds.yaml";
}

fetch-IsDownloaded_example :
    IsDownloaded {P = local}
      (download_url hosted "2")
      (join_path here "crds.yaml")
      (Github.fetch hosted "2" here (on_version "1") (start 0)).1
unfolding opened
fetch-IsDownloaded_example = fetch-IsDownloaded hosted "2" here (on_version "1") (start 0) refl
