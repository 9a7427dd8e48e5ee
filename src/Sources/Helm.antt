-- ===== src/Sources/Helm.antt =====
-- pkg/source/helm/helm.go: `HasUpdate` and the functions under it, without the download.
pub mod Latest
pub mod Listing
pub mod Update
pub mod Bundle
pub mod Chart
use Prim.Native.Char.{code}
use Prim.Native.String
use mathlib.Core.Logic.{ite}
use native.Mathlib.Decide.{ℕ_discrete}
use crd_bootstrap.Base.{
  String, Bool, true, false, Option, none, some, List, [], ◌∷◌, Outcome, ok, err, panic, and_then,
  if◌then◌else◌, M, pure, from, deref, or_fail, fail_if, wrapping, deferring, msg, coded, ltb, ◌||◌,
  ◌>>=◌, ◌>>◌,
}
use crd_bootstrap.Base.Dict.{Dict, lookup}
use crd_bootstrap.Api
use crd_bootstrap.Api.{Bootstrap, LocalObjectReference, password_key, docker_json_config_key}
use crd_bootstrap.Platform.{Semver, Platform}
use crd_bootstrap.Platform.World.{World, outside}
use crd_bootstrap.Platform.Os.{
  create_temp, remove_file, copy_body, close_file, close_body, open_path, read_all,
}
use crd_bootstrap.Sources.{Contract, has_update_next}
use crd_bootstrap.Sources.Http.{ClientRef, shared, owned, do_request}
use crd_bootstrap.Sources.Decide.{decide_update}

-- `semvers[0]`
abbrev pub first_element : {A : Type 0} → List A → Outcome A
first_element [] = panic
first_element (a ∷ rest) = ok a

module _ (S : Semver) where
  -- The versions that satisfy the constraint, in order; texts that are no versions are left out.
  unfoldable pub satisfying : S.Constraint → List String → Outcome (List S.Version)
  satisfying constraint [] = ok []
  satisfying constraint (v ∷ versions) =
      let rest = satisfying constraint versions in
      elim (S.new_version v) [
        | ok semv ↦
            and_then rest
              λ semvers. ok (if S.check constraint semv then semv ∷ semvers else semvers)
        | err _ ↦ rest
        | panic ↦ panic
      ]

-- `sort.Slice`, here over versions, is a parameter: which of equal elements comes first is open.
module _ (S : Semver)
    (sort_slice : (S.Version → S.Version → Bool) → List S.Version → List S.Version) where
  unfoldable pub get_latest_version : List String → S.Constraint → Outcome String
  unfolding satisfying
  get_latest_version versions constraint = and_then (satisfying S constraint versions) λ semvers.
      and_then (first_element (sort_slice S.greater_than semvers)) λ semv. ok (S.original semv)

-- What follows a prefix, if the text has it.
after_prefix : String → String → Option String
after_prefix String.[] s = some s
after_prefix (String.◌∷◌ p prefix) String.[] = none
after_prefix (String.◌∷◌ p prefix) (String.◌∷◌ ch s) =
    let more = after_prefix prefix s in ite (ℕ_discrete (code p) (code ch)) more none

-- `strings.TrimPrefix(s, prefix)`
unfoldable pub trim_prefix : String → String → String
unfolding after_prefix ℕ_discrete
trim_prefix s prefix = elim (after_prefix prefix s) [ none ↦ s | some more ↦ more ]

module _ {P : Platform} where
  unfoldable pub configure_transport_for_oci_repo :
      P.Repository → LocalObjectReference → String → M (World P) P.Repository
  unfolding lookup create_temp remove_file
  configure_transport_for_oci_repo src ref namespace = do
    secret ←
        wrapping "failed to find attached secret" [] (outside (P.get_secret ref.name namespace))
    config ← from (
        or_fail (msg "password wasn't defined in given secret" [])
          (lookup docker_json_config_key secret))
    tmp_config ← wrapping "failed to create a temp config" [] (create_temp "config.json")
    deferring (remove_file tmp_config) do
      auth_configs ← wrapping "failed to parse the config" [] (from (P.load_docker_config config))
      auth_for_host ← from (
          or_fail (msg "failed to find auth configuration for host" (P.host src ∷ []))
            (lookup (P.host src) auth_configs))
      pure (P.with_credentials auth_for_host.0 auth_for_host.1 src)

  unfoldable pub configure_transport :
      Option LocalObjectReference → String → P.Repository → M (World P) P.Repository
  unfolding configure_transport_for_oci_repo
  configure_transport none namespace src = pure src
  configure_transport (some ref) namespace src =
      wrapping "failed to configure transport client" []
        (configure_transport_for_oci_repo src ref namespace)

  unfoldable pub find_versions_for_oci_registry : Api.Helm → String → M (World P) (List String)
  unfolding trim_prefix configure_transport
  find_versions_for_oci_registry chart_ref namespace = do
    repository ←
        wrapping "failed to construct repository" []
          (from (P.new_repository (trim_prefix chart_ref.chart_reference "oci://")))
    src ← configure_transport chart_ref.secret_ref namespace repository
    wrapping "failed to fetch tags" [] (outside (P.tags src))

  unfoldable pub configure_http_credentials : Dict String → Outcome (ClientRef P)
  unfolding lookup
  configure_http_credentials secret =
      and_then (or_fail (msg "missing password key" []) (lookup password_key secret))
        λ token. ok (owned (P.oauth_client token))

  -- The client for a repository over HTTP: the shared one unless there is a secret.
  unfoldable pub choose_http_client :
      Option LocalObjectReference → String → M (World P) (ClientRef P)
  unfolding configure_http_credentials
  choose_http_client none namespace = pure shared
  choose_http_client (some ref) namespace = do
    secret ←
        wrapping "failed to find attached secret" [] (outside (P.get_secret ref.name namespace))
    wrapping "failed to configure secure access to HTTP repo" []
        (from (configure_http_credentials secret))

  -- A response with another status is not closed.
  unfoldable pub find_versions_for_http_repository : Api.Helm → String → M (World P) (List String)
  unfolding choose_http_client do_request create_temp copy_body close_file close_body open_path
      read_all lookup
  find_versions_for_http_repository chart_ref namespace = do
    u ← wrapping "failed to join path" [] (from (P.join_url chart_ref.chart_reference "index.yaml"))
    wrapping "failed to construct request" [] (from (P.new_request u))
    inner_client ← choose_http_client chart_ref.secret_ref namespace
    resp ← do_request inner_client u
    from (
        fail_if (ltb resp.status_code 200 || ltb 299 resp.status_code)
          (coded "status code returned is invalid" resp.status_code))
    deferring (close_body resp.body) do
      temp_file ← wrapping "failed to create temp file for response" [] (create_temp "index.yaml")
      deferring (close_file temp_file) do
        wrapping "failed to copy content to file" [] (copy_body temp_file resp.body)
        content ←
            wrapping "failed to read downloaded file" [] (open_path temp_file >> read_all temp_file)
        entries ← from (P.decode_index content)
        from (
            or_fail (msg "no charts found in registry with name" (chart_ref.chart_name ∷ []))
              (lookup chart_ref.chart_name entries))

  unfoldable pub find_versions : Api.Helm → String → M (World P) (List String)
  unfolding find_versions_for_oci_registry find_versions_for_http_repository
  find_versions chart_ref namespace =
      if P.is_oci chart_ref.chart_reference
      then find_versions_for_oci_registry chart_ref namespace
      else find_versions_for_http_repository chart_ref namespace

module _ (S : Semver)
    (sort_slice : (S.Version → S.Version → Bool) → List S.Version → List S.Version) {P : Platform}
    (next : Option (Contract P)) where
  unfoldable pub has_update_selected : Option Api.Helm → Bootstrap → M (World P) (Bool × String)
  unfolding find_versions get_latest_version has_update_next decide_update
  has_update_selected none obj =
      has_update_next "helm isn't defined and there are no other sources configured" next obj
  has_update_selected (some chart_ref) obj = do
    versions ← find_versions chart_ref obj.namespace
    constrains ←
        wrapping "failed to build constraint" [] (from (S.new_constraint obj.spec.version.semver))
    latest ← from (get_latest_version S sort_slice versions constrains)
    from (
        decide_update S "failed to parse current version as semver"
          "failed to parse last applied revision" obj latest)

  unfoldable pub has_update : Bootstrap → M (World P) (Bool × String)
  unfolding has_update_selected
  has_update obj = do source ← from (deref obj.spec.source); has_update_selected source.helm obj
