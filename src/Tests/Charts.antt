-- ===== src/Tests/Charts.antt =====
-- Tests of the Helm source's download, and examples of its theorems.
use crd_bootstrap.Base.{String, ◌≡◌, refl, sym, false, none, some, [], ◌∷◌, ok, ◌>>=◌}
use crd_bootstrap.Base.FilePath.{FilePath, base_name, join_path, under, dir, file}
use crd_bootstrap.Api
use crd_bootstrap.Platform.World.{World, outside, edit_files, find_node, erase_tree}
use crd_bootstrap.Platform.Walk.{names_in, child_name, insert_name}
use crd_bootstrap.Platform.Walk.Trees.{Tree, leaf, branch, end, kid, HasTree, texts}
use crd_bootstrap.Sources.Helm.Chart
use crd_bootstrap.Sources.Helm.Bundle.{create_crd_yaml}
use crd_bootstrap.Sources.Helm.Bundle.Total.{IsBundled, create_crd_yaml-IsBundled}
use crd_bootstrap.Sources.Helm.Chart.Fetch.{IsFile, bundle_chart-IsFile, fetch_selected-files}
use crd_bootstrap.Sources.Helm.Chart.Unexpanded.{answer-none, bundle_chart-unexpanded}
use crd_bootstrap.Tests.{local, start, no_source, bootstrap}

opened : Unit {0}
unfolding Chart.fetch_selected names_in find_node outside ◌>>=◌ edit_files join_path under base_name
opened = tt

abbrev chart : Api.Helm
chart = record {
  chart_reference = "oci://example.com/chart";
  chart_name = "chart";
  secret_ref = none;
}

abbrev base : FilePath
base = "crd" ∷ "tmp" ∷ []

abbrev on_version : String → Api.Bootstrap
on_version applied = bootstrap no_source "" applied false

fetched_tests :
    (Chart.fetch_selected {P = local} none (some chart) base (on_version "1") "2" (start 0) ≡ (
      ok ("crds.yaml" ∷ base),
      record (start 0) {
        files = ("crds.yaml" ∷ base, file "---\na---\nb") ∷ (base, dir) ∷ ("tmp" ∷ [], dir) ∷ [];
      },
    ))
unfolding opened
fetched_tests = refl

-- The folder of a chart, with two files for CRDs.
abbrev temp_helm : FilePath
temp_helm = "helm-temp" ∷ base

abbrev empty_folder : World local
empty_folder = record (start 0) { files = (temp_helm, dir) ∷ (base, dir) ∷ ("tmp" ∷ [], dir) ∷ [] }

abbrev unpacked : World local
unpacked = record empty_folder {
  files =
      ("values.yaml" ∷ "chart" ∷ temp_helm, file "v")
      ∷ ("a.yaml" ∷ "crds" ∷ "chart" ∷ temp_helm, file "a")
      ∷ ("b.yaml" ∷ "crds" ∷ "chart" ∷ temp_helm, file "b")
      ∷ ("crds" ∷ "chart" ∷ temp_helm, dir)
      ∷ ("chart" ∷ temp_helm, dir)
      ∷ ("chart.tgz" ∷ temp_helm, file "archive")
      ∷ empty_folder.files;
}

abbrev crds_folder : Tree
crds_folder = branch (kid "a.yaml" (leaf "a") (kid "b.yaml" (leaf "b") end))

abbrev two_files : Tree
two_files = branch (
    kid "chart" (branch (kid "crds" crds_folder (kid "values.yaml" (leaf "v") end)))
      (kid "chart.tgz" (leaf "archive") end))

two_files-HasTree : HasTree unpacked.files temp_helm two_files
unfolding HasTree opened child_name insert_name
two_files-HasTree =
    (refl, refl, ((refl, refl, ((refl, refl, (refl, (refl, tt))), (refl, tt))), (refl, tt)))

create_crd_yaml-IsBundled_example :
    IsBundled base "---\na---\nb" (create_crd_yaml {P = local} base temp_helm unpacked)
unfolding opened texts
create_crd_yaml-IsBundled_example =
    create_crd_yaml-IsBundled {P = local} none (λ c s. sym (answer-none c)) base temp_helm two_files
      unpacked refl two_files-HasTree

bundle_chart-IsFile_example :
    IsFile
      ("crds.yaml" ∷ base)
      "---\na---\nb"
      (Chart.bundle_chart {P = local} chart Chart.new_downloader base "2" temp_helm empty_folder)
unfolding opened texts
bundle_chart-IsFile_example =
    bundle_chart-IsFile {P = local} none (λ c s. sym (answer-none c)) chart Chart.new_downloader
      base temp_helm ("chart.tgz" ∷ temp_helm) "2" two_files empty_folder _ _ refl refl refl
      two_files-HasTree

fetch_selected-files_example :
    ("crds.yaml" ∷ base ≡ join_path base "crds.yaml")
    × (erase_tree
          (join_path base "helm-temp")
          (Chart.fetch_selected {P = local} none
            (some chart)
            base
            (on_version "1")
            "2"
            (start 0)).1.files
        ≡ (Chart.fetch_selected {P = local} none
            (some chart)
            base
            (on_version "1")
            "2"
            (start 0)).1.files)
unfolding opened
fetch_selected-files_example =
    fetch_selected-files {P = local} none chart base ("crds.yaml" ∷ base) (on_version "1") "2"
      (start 0) (λ s. refl) refl

abbrev web_chart : Api.Helm
web_chart = record {
  chart_reference = "https://example.com/chart";
  chart_name = "chart";
  secret_ref = none;
}

bundle_chart-unexpanded_example :
    IsFile ("crds.yaml" ∷ base) "" (
      Chart.bundle_chart {P = local} web_chart Chart.new_downloader base "2" temp_helm empty_folder)
unfolding opened child_name insert_name
bundle_chart-unexpanded_example =
    bundle_chart-unexpanded {P = local} (λ c s. refl) web_chart Chart.new_downloader base temp_helm
      "2" "chart.tgz" "archive" empty_folder 0 refl refl refl refl refl refl
