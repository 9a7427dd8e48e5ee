-- ===== src/Sources/Github.antt =====
-- pkg/source/github/github.go
pub mod Timeout
use crd_bootstrap.Base.{
  ℕ, String, ◌<>◌, Bool, Option, none, some, [], ◌∷◌, ◌||◌, M, pure, from, deref, fail_if, wrapping,
  deferring, msg, coded, ◌>>=◌, ◌>>◌, ◌==◌, ltb, if◌then◌else◌,
}
use crd_bootstrap.Base.FilePath.{FilePath, join_path}
use crd_bootstrap.Api
use crd_bootstrap.Api.{Bootstrap}
use crd_bootstrap.Platform.{Semver, Platform}
use crd_bootstrap.Platform.World.{World}
use crd_bootstrap.Platform.Os.{close_body}
use crd_bootstrap.Sources.{Contract, fetch_next, has_update_next}
use crd_bootstrap.Sources.Http.{ClientRef, choose_client, set_timeout, do_request}
use crd_bootstrap.Sources.Decide.{decide_update}
use crd_bootstrap.Sources.Url.{store_response}

abbrev github_base : String
github_base = "https://github.com"

abbrev github_api_base : String
github_api_base = "https://api.github.com"

-- 15 * time.Second, in nanoseconds.
abbrev pub timeout : ℕ
timeout = 15_000_000_000

abbrev undefined_text : String
undefined_text = "github isn't defined and there are no other sources configured"

unfoldable pub latest_url : Api.Github → String
latest_url g =
    (if g.base_api_url == "" then github_api_base else g.base_api_url)
    <> "/repos/"
    <> g.owner
    <> "/"
    <> g.repo
    <> "/releases/latest"

unfoldable pub download_url : Api.Github → String → String
download_url g version =
    (if g.base_url == "" then github_base else g.base_url)
    <> "/"
    <> g.owner
    <> "/"
    <> g.repo
    <> "/releases"
    <> "/download/"
    <> version
    <> "/"
    <> g.manifest

module _ {P : Platform} where
  -- From the request for the latest release on.
  unfoldable pub ask_latest : Api.Github → ClientRef P → M (World P) String
  unfolding do_request close_body latest_url
  ask_latest g c = do
    wrapping "failed to create request" [] (from (P.new_request (latest_url g)))
    res ← wrapping "GitHub API call failed" [] (do_request c (latest_url g))
    deferring (close_body res.body) do
      from (
          fail_if (ltb res.status_code 200 || ltb 299 res.status_code)
            (coded "GitHub API returned an unexpected status code" res.status_code))
      tag ← wrapping "decoding GitHub API response failed" [] (from (P.decode_tag res.body))
      from (
          fail_if (tag == "") (
            msg
              "failed to retrieve latest version, please make sure owner and repo are spelled correctly"
              []))
      pure tag

  unfoldable pub get_latest_version : Api.Github → Bootstrap → M (World P) String
  unfolding choose_client set_timeout ask_latest
  get_latest_version g obj = do
    chosen ← choose_client g.secret_ref obj.namespace
    c ← set_timeout timeout chosen
    ask_latest g c

  unfoldable pub fetch : Api.Github → String → FilePath → Bootstrap → M (World P) (Unit {0})
  unfolding choose_client do_request store_response download_url
  fetch g version dir obj = do
    let address = download_url g version
    wrapping "failed to create HTTP request" (address ∷ []) (from (P.new_request address))
    c ← choose_client g.secret_ref obj.namespace
    resp ← wrapping "failed to download" (g.manifest ∷ address ∷ []) (do_request c address)
    store_response "failed to download, status" (join_path dir g.manifest) resp

module _ (S : Semver) {P : Platform} (next : Option (Contract P)) where
  unfoldable pub fetch_selected :
      Option Api.Github → FilePath → Bootstrap → String → M (World P) FilePath
  unfolding fetch fetch_next
  fetch_selected none dir obj revision = fetch_next undefined_text next dir obj revision
  fetch_selected (some g) dir obj revision = do
    wrapping "failed to fetch CRD" [] (fetch g revision dir obj)
    pure (join_path dir g.manifest)

  unfoldable pub fetch_crd : FilePath → Bootstrap → String → M (World P) FilePath
  unfolding fetch_selected
  fetch_crd dir obj revision = do
    source ← from (deref obj.spec.source)
    fetch_selected source.github dir obj revision

  unfoldable pub has_update_selected : Option Api.Github → Bootstrap → M (World P) (Bool × String)
  unfolding get_latest_version has_update_next decide_update
  has_update_selected none obj = has_update_next undefined_text next obj
  has_update_selected (some g) obj = do
    latest ← wrapping "failed to retrieve latest version for github" [] (get_latest_version g obj)
    from (
        decide_update S "failed to parse current version as semver"
          "failed to parse last applied revision" obj latest)

  unfoldable pub has_update : Bootstrap → M (World P) (Bool × String)
  unfolding has_update_selected
  has_update obj = do source ← from (deref obj.spec.source); has_update_selected source.github obj

  abbrev pub new_source : Contract P
  new_source = record { fetch_crd = fetch_crd; has_update = has_update }
