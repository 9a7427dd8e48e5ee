-- ===== src/Sources/Helm/Chart.antt =====
-- `FetchCRD` and `NewSource` of pkg/source/helm/helm.go, with the credentials of the download.
pub mod Fetch
pub mod Unexpanded
use crd_bootstrap.Base.{
  String, Option, none, some, List, [], ◌∷◌, ◌++◌, Bool, true, M, pure, gets, from, deref, or_fail,
  wrapping, deferring, ignoring, msg, ◌>>=◌, ◌>>◌, if◌then◌else◌,
}
use crd_bootstrap.Base.Dict.{Dict, lookup}
use crd_bootstrap.Base.FilePath.{FilePath, join_path}
use crd_bootstrap.Api
use crd_bootstrap.Api.{
  Bootstrap, LocalObjectReference, username_key, password_key, docker_json_config_key,
}
use crd_bootstrap.Platform.{
  Semver, Platform, ChartDownloader, with_basic_auth, with_pass_credentials_all,
  with_registry_client, with_untar,
}
use crd_bootstrap.Platform.World.{World, file, find_node, put_node, put_nodes, outside, edit_files}
use crd_bootstrap.Platform.Os.{create_temp, remove_file, remove_tree, mkdir_all}
use crd_bootstrap.Sources.{Contract, fetch_next}
use crd_bootstrap.Sources.Helm.{trim_prefix, has_update}
use crd_bootstrap.Sources.Helm.Bundle.{create_crd_yaml}

-- The downloader before credentials are added.
abbrev pub new_downloader : {C : Type 0} → ChartDownloader C
new_downloader = record { options = []; registry_client = none }

module _ {P : Platform} where
  -- `conf.Save()`
  unfoldable pub save_config : FilePath → Dict (String × String) → M (World P) (Unit {0})
  unfolding put_node
  save_config path auth_configs = do
    content ← outside (P.save_docker_config path auth_configs)
    edit_files (put_node path (file content))

  unfoldable pub configure_oci_credentials :
      Dict String
      → String
      → ChartDownloader P.RegistryClient
      → M (World P) (ChartDownloader P.RegistryClient)
  unfolding lookup create_temp remove_file trim_prefix save_config
  configure_oci_credentials secret ref download = do
    config ← from (
        or_fail (msg "dockerjsonconfig is needed in secret to access OCI repository" [])
          (lookup docker_json_config_key secret))
    tmp_config ← wrapping "failed to create a temp config" [] (create_temp "config.json")
    -- The result is not named, so an error of the removal is lost.
    deferring (ignoring (remove_file tmp_config)) do
      src ←
          wrapping "failed to construct repository" []
            (from (P.new_repository (trim_prefix ref "oci://")))
      auth_configs ← wrapping "failed to parse the config" [] (from (P.load_docker_config config))
      wrapping "failed to save config" [] (save_config tmp_config auth_configs)
      auth_for_host ← from (
          or_fail (msg "failed to find auth configuration for host" (P.host src ∷ []))
            (lookup (P.host src) auth_configs))
      registry_client ←
          wrapping "failed to create registry" [] (outside (P.new_registry_client tmp_config))
      pure (record {
        options =
            (download.options
              ++ with_basic_auth auth_for_host.0 auth_for_host.1
                ∷ with_pass_credentials_all true
                ∷ [])
            ++ with_registry_client registry_client ∷ with_untar ∷ [];
        registry_client = some registry_client;
      })

  -- The branch for a repository over HTTP.
  unfoldable pub configure_basic_credentials :
      Dict String
      → ChartDownloader P.RegistryClient
      → M (World P) (ChartDownloader P.RegistryClient)
  unfolding lookup
  configure_basic_credentials secret download = do
    password ← from (or_fail (msg "missing password key" []) (lookup password_key secret))
    username ← from (or_fail (msg "missing username key" []) (lookup username_key secret))
    pure (record download {
      options =
          download.options
          ++ with_basic_auth username password ∷ with_pass_credentials_all true ∷ [];
    })

  -- The two kinds of credentials.
  unfoldable pub configure_from :
      Api.Helm
      → ChartDownloader P.RegistryClient
      → Dict String
      → M (World P) (ChartDownloader P.RegistryClient)
  unfolding configure_oci_credentials configure_basic_credentials
  configure_from chart_ref download secret =
      if P.is_oci chart_ref.chart_reference
      then wrapping "failed to configure oci repository" []
          (configure_oci_credentials secret chart_ref.chart_reference download)
      else configure_basic_credentials secret download

  -- Without a reference to a secret there is nothing to configure.
  unfoldable pub configure_credentials :
      Option LocalObjectReference
      → Api.Helm
      → String
      → ChartDownloader P.RegistryClient
      → M (World P) (ChartDownloader P.RegistryClient)
  unfolding configure_from
  configure_credentials none chart_ref namespace download = pure download
  configure_credentials (some ref) chart_ref namespace download = do
    secret ←
        wrapping "failed to find attached secret" [] (outside (P.get_secret ref.name namespace))
    configure_from chart_ref download secret

  -- `download.DownloadTo(...)`: the entries that it leaves are put into the files.
  unfoldable pub download_chart :
      ChartDownloader P.RegistryClient → String → String → FilePath → M (World P) FilePath
  unfolding put_nodes
  download_chart download reference revision place = do
    (output_path, entries) ← outside (P.download_to download reference revision place)
    edit_files (put_nodes entries)
    pure output_path

  -- `chartutil.ExpandFile(...)`
  unfoldable pub expand_chart : FilePath → FilePath → M (World P) (Unit {0})
  unfolding find_node put_nodes
  expand_chart place archive = do
    node ← gets (λ w. find_node archive w.files)
    entries ← outside (P.expand_file place archive node)
    edit_files (put_nodes entries)

  -- Only a chart of an OCI registry is expanded.
  unfoldable pub expand_oci : Api.Helm → FilePath → FilePath → M (World P) (Unit {0})
  unfolding expand_chart
  expand_oci chart_ref place archive =
      if P.is_oci chart_ref.chart_reference
      then wrapping "failed ot untar" [] (expand_chart place archive)
      else pure tt

  -- From the point where the folder of the chart is sure to be removed.
  unfoldable pub bundle_chart :
      Api.Helm
      → ChartDownloader P.RegistryClient
      → FilePath
      → String
      → FilePath
      → M (World P) FilePath
  unfolding download_chart expand_oci create_crd_yaml
  bundle_chart chart_ref download base revision temp_helm = do
    output_path ←
        wrapping "failed to download chart" []
          (download_chart download chart_ref.chart_reference revision temp_helm)
    expand_oci chart_ref temp_helm output_path
    wrapping "failed to create crd yaml" [] (create_crd_yaml base temp_helm)
    pure (join_path base "crds.yaml")

module _ {P : Platform} (next : Option (Contract P)) where
  unfoldable pub fetch_selected :
      Option Api.Helm → FilePath → Bootstrap → String → M (World P) FilePath
  unfolding fetch_next configure_credentials mkdir_all remove_tree bundle_chart
  fetch_selected none base obj revision =
      fetch_next "helm isn't defined and there are no other sources configured" next base obj
        revision
  fetch_selected (some chart_ref) base obj revision = do
    download ← configure_credentials chart_ref.secret_ref chart_ref obj.namespace new_downloader
    let temp_helm = join_path base "helm-temp"
    wrapping "failed to create temp helm folder" [] (mkdir_all temp_helm)
    deferring (remove_tree temp_helm) (bundle_chart chart_ref download base revision temp_helm)

  unfoldable pub fetch_crd : FilePath → Bootstrap → String → M (World P) FilePath
  unfolding fetch_selected
  fetch_crd base obj revision = do
    source ← from (deref obj.spec.source)
    fetch_selected source.helm base obj revision

module _ (S : Semver)
    (sort_slice : (S.Version → S.Version → Bool) → List S.Version → List S.Version) {P : Platform}
    (next : Option (Contract P)) where
  abbrev pub new_source : Contract P
  new_source = record { fetch_crd = fetch_crd next; has_update = has_update S sort_slice next }
