-- ===== src/Sources/Gitlab.antt =====
-- pkg/source/gitlab/gitlab.go
pub mod Assets
pub mod Crashes
pub mod Fetch
pub mod Total
use crd_bootstrap.Base.{
  ℕ, String, ◌<>◌, Bool, Option, none, some, List, [], ◌∷◌, ◌||◌, M, pure, crash, from, deref,
  fail_if, wrapping, deferring, ignoring, attempt, map_err, wrap, msg, coded, Outcome, ok, ◌>>=◌,
  ◌>>◌, ◌==◌, ltb, if◌then◌else◌,
}
use crd_bootstrap.Base.FilePath.{FilePath, join_path}
use crd_bootstrap.Api
use crd_bootstrap.Api.{Bootstrap}
use crd_bootstrap.Platform.{Semver, Platform, Body, Link}
use crd_bootstrap.Platform.World.{World}
use crd_bootstrap.Platform.Os.{create_file, copy_body, close_file, close_body, end_of}
use crd_bootstrap.Sources.{Contract, fetch_next, has_update_next}
use crd_bootstrap.Sources.Http.{ClientRef, choose_client, set_timeout, do_request}
use crd_bootstrap.Sources.Decide.{decide_update}

abbrev gitlab_api_base : String
gitlab_api_base = "https://gitlab.com/api/v4"

-- 15 * time.Second, in nanoseconds.
abbrev timeout : ℕ
timeout = 15_000_000_000

abbrev undefined_text : String
undefined_text = "gitlab isn't defined and there are no other sources configured"

abbrev project_url : Api.Gitlab → String
project_url g =
    (if g.base_api_url == "" then gitlab_api_base else g.base_api_url)
    <> "/projects/"
    <> g.owner
    <> "%2F"
    <> g.repo

unfoldable pub latest_url : Api.Gitlab → String
latest_url g = project_url g <> "/releases/permalink/latest"

unfoldable pub release_url : Api.Gitlab → String → String
release_url g version = project_url g <> "/releases/" <> version

-- The URL of the first link with the name, or "" (the loop with `break`).
unfoldable pub find_asset : String → List Link → String
find_asset manifest [] = ""
find_asset manifest (a ∷ links) = if a.name == manifest then a.url else find_asset manifest links

module _ {P : Platform} where
  unfoldable pub fetch_url_content : ClientRef P → String → M (World P) Body
  unfolding do_request
  fetch_url_content c url = do
    wrapping "failed to create request" [] (from (P.new_request url))
    res ← wrapping "gitlab API call failed" [] (do_request c url)
    from (
        fail_if (ltb res.status_code 200 || ltb 299 res.status_code)
          (coded "gitlab API returned an unexpected status code" res.status_code))
    pure res.body

  -- The deferred `body.Close()`: the call has returned a nil body with its error.
  unfoldable pub close_reader : Outcome Body → M (World P) (Unit {0})
  unfolding close_body
  close_reader (ok b) = close_body b
  close_reader _ = crash

  -- `io.ReadAll(body)`
  abbrev read_body : Body → M (World P) String
  read_body b = do from (end_of b.read_error); pure b.received

  unfoldable pub get_latest_version : Api.Gitlab → Bootstrap → M (World P) String
  unfolding choose_client set_timeout fetch_url_content close_reader latest_url
  get_latest_version g obj = do
    chosen ← choose_client g.secret_ref obj.namespace
    c ← set_timeout timeout chosen
    content ← attempt (fetch_url_content c (latest_url g))
    deferring (close_reader content) do
      body ← from (map_err (wrap "failed to read url content" []) content)
      tag ← wrapping "decoding gitlab API response failed" [] (from (P.decode_tag body))
      from (
          fail_if (tag == "") (
            msg
              "failed to retrieve latest version, please make sure owner and repo are spelled correctly"
              []))
      pure tag

  -- The result of `fetch` is not named, so errors of the deferred calls are lost.
  unfoldable pub fetch_asset : ClientRef P → String → FilePath → M (World P) (Unit {0})
  unfolding fetch_url_content close_reader create_file copy_body close_file
  fetch_asset c asset_url path = do
    asset ← attempt (fetch_url_content c asset_url)
    deferring (ignoring (close_reader asset)) do
      body ← from (map_err (wrap "failed to download url content" []) asset)
      wrapping "failed to open temp file" [] (create_file path)
      deferring (ignoring (close_file path))
          (wrapping "failed to write to temp file" [] (copy_body path body))

  unfoldable pub fetch : Api.Gitlab → String → FilePath → Bootstrap → M (World P) (Unit {0})
  unfolding choose_client fetch_url_content close_reader release_url find_asset fetch_asset
  fetch g version dir obj = do
    c ← choose_client g.secret_ref obj.namespace
    release ← attempt (fetch_url_content c (release_url g version))
    deferring (ignoring (close_reader release)) do
      body ← from (map_err (wrap "failed to download url content" []) release)
      content ← wrapping "failed to read full body" [] (read_body body)
      links ← wrapping "failed to marshal response" [] (from (P.decode_links content))
      let asset_url = find_asset g.manifest links
      from (
          fail_if (asset_url == "")
            (msg "asset link not found under release assets in release" (g.manifest ∷ [])))
      fetch_asset c asset_url (join_path dir g.manifest)

module _ (S : Semver) {P : Platform} (next : Option (Contract P)) where
  unfoldable pub fetch_selected :
      Option Api.Gitlab → FilePath → Bootstrap → String → M (World P) FilePath
  unfolding fetch fetch_next
  fetch_selected none dir obj revision = fetch_next undefined_text next dir obj revision
  fetch_selected (some g) dir obj revision = do
    wrapping "failed to fetch CRD" [] (fetch g revision dir obj)
    pure (join_path dir g.manifest)

  unfoldable pub fetch_crd : FilePath → Bootstrap → String → M (World P) FilePath
  unfolding fetch_selected
  fetch_crd dir obj revision = do
    source ← from (deref obj.spec.source)
    fetch_selected source.gitlab dir obj revision

  unfoldable pub has_update_selected : Option Api.Gitlab → Bootstrap → M (World P) (Bool × String)
  unfolding get_latest_version has_update_next decide_update
  has_update_selected none obj = has_update_next undefined_text next obj
  has_update_selected (some g) obj = do
    latest ← wrapping "failed to retrieve latest version for gitlab" [] (get_latest_version g obj)
    from (
        decide_update S "failed to parse current version as semver"
          "failed to parse last applied revision" obj latest)

  unfoldable pub has_update : Bootstrap → M (World P) (Bool × String)
  unfolding has_update_selected
  has_update obj = do source ← from (deref obj.spec.source); has_update_selected source.gitlab obj

  abbrev pub new_source : Contract P
  new_source = record { fetch_crd = fetch_crd; has_update = has_update }
