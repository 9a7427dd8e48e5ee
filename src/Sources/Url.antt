-- ===== src/Sources/Url.antt =====
-- pkg/source/url/url.go. The source knows no versions: a revision is the digest of the content.
pub mod Digest
pub mod Cleanup
use crd_bootstrap.Base.{
  String, Bool, true, false, Option, none, some, [], ◌∷◌, not, M, pure, from, deref, fail_if,
  wrapping, deferring, msg, ◌>>=◌, ◌>>◌, ◌==◌, eqb, if◌then◌else◌,
}
use crd_bootstrap.Base.FilePath.{FilePath, join_path}
use crd_bootstrap.Api
use crd_bootstrap.Api.{Bootstrap}
use crd_bootstrap.Platform.{Platform, Response}
use crd_bootstrap.Platform.World.{World}
use crd_bootstrap.Platform.Os.{
  mkdir_temp, remove_tree, create_file, copy_body, close_file, close_body, open_path, read_all,
}
use crd_bootstrap.Sources.{Contract, fetch_next, has_update_next}
use crd_bootstrap.Sources.Http.{choose_client, do_request}

-- The comparison of the digest with the wanted and with the applied one.
unfoldable pub compare_digest : Bootstrap → String → Bool × String
compare_digest obj sum =
    if not (obj.spec.version.digest == "")
    then (if obj.spec.version.digest == sum then (true, obj.spec.version.digest) else (false, ""))
    else (if obj.status.last_applied_revision == sum
        then (false, obj.status.last_applied_revision)
        else (true, sum))

module _ {P : Platform} where
  -- The end of `fetch`, here and in github.go: a response with status 200 becomes a file.
  unfoldable pub store_response : String → FilePath → Response → M (World P) (Unit {0})
  unfolding create_file copy_body close_file close_body
  store_response refused path resp = deferring (close_body resp.body) do
    from (fail_if (not (eqb resp.status_code 200)) (msg refused (resp.status ∷ [])))
    wrapping "failed to open temp file" [] (create_file path)
    deferring (close_file path)
        (wrapping "failed to write to temp file" [] (copy_body path resp.body))

  unfoldable pub fetch : Api.Url → FilePath → Bootstrap → M (World P) (Unit {0})
  unfolding choose_client do_request store_response
  fetch u dir obj = do
    wrapping "failed to create HTTP request" (u.url ∷ []) (from (P.new_request u.url))
    c ← choose_client u.secret_ref obj.namespace
    resp ← wrapping "failed to download content" (u.url ∷ []) (do_request c u.url)
    store_response "failed to download content, status" (join_path dir "crds.yaml") resp

  -- `HasUpdate` in its temporary directory.
  unfoldable pub digest_content : Api.Url → FilePath → Bootstrap → M (World P) (Bool × String)
  unfolding fetch open_path read_all compare_digest
  digest_content u dir obj = do
    wrapping "failed to fetch CRD" [] (fetch u dir obj)
    wrapping "failed to open file of downloaded CRD" [] (open_path (join_path dir "crds.yaml"))
    content ← wrapping "failed to hash content of CRD" [] (read_all (join_path dir "crds.yaml"))
    pure (compare_digest obj (P.sha256_hex content))

module _ {P : Platform} (next : Option (Contract P)) where
  unfoldable pub fetch_selected :
      Option Api.Url → FilePath → Bootstrap → String → M (World P) FilePath
  unfolding fetch fetch_next
  fetch_selected none dir obj revision =
      fetch_next "url isn't defined and there are no other sources configured" next dir obj revision
  fetch_selected (some u) dir obj revision = do
    wrapping "failed to fetch CRD" [] (fetch u dir obj)
    pure (join_path dir "crds.yaml")

  unfoldable pub fetch_crd : FilePath → Bootstrap → String → M (World P) FilePath
  unfolding fetch_selected
  fetch_crd dir obj revision = do
    source ← from (deref obj.spec.source)
    fetch_selected source.url dir obj revision

  unfoldable pub has_update_selected : Option Api.Url → Bootstrap → M (World P) (Bool × String)
  unfolding has_update_next mkdir_temp remove_tree digest_content
  has_update_selected none obj =
      has_update_next "github isn't defined and there are no other sources configured" next obj
  has_update_selected (some u) obj = do
    dir ← wrapping "failed to create temp folder" [] (mkdir_temp "crd-url")
    deferring (remove_tree dir) (digest_content u dir obj)

  unfoldable pub has_update : Bootstrap → M (World P) (Bool × String)
  unfolding has_update_selected
  has_update obj = do source ← from (deref obj.spec.source); has_update_selected source.url obj

  abbrev pub new_source : Contract P
  new_source = record { fetch_crd = fetch_crd; has_update = has_update }
