-- ===== src/Sources/Gitlab/Total.antt =====
-- When the GitLab source brings what is asked for.
use crd_bootstrap.Base.{
  ℕ, ◌≤◌, String, ◌≡◌, ◌≢◌, refl, ap, Option, none, some, List, ok, Error, pure, from, ignoring,
  fail_if, ltb, ◌||◌, ◌==◌, ◌>>=◌, arith, eq_iff,
}
use crd_bootstrap.Base.Returns.{bind-ok, wrapping-ok, attempt-ok, deferring-ok}
use crd_bootstrap.Base.FilePath.{FilePath, join_path}
use crd_bootstrap.Api
use crd_bootstrap.Api.{Bootstrap}
use crd_bootstrap.Platform.{Semver, Platform, OsCall, Body, Response, Link, create, write, close}
use crd_bootstrap.Platform.World.{World, file, find_node, put_node, outside, edit_files}
use crd_bootstrap.Platform.Os.{create_file, copy_body, close_file, close_body, end_of}
use crd_bootstrap.Platform.Files.{find-put}
use crd_bootstrap.Sources.{Contract}
use crd_bootstrap.Sources.Http.{ClientRef, choose_client, do_request}
use crd_bootstrap.Sources.Gitlab.Assets.{IsFirst, find_asset_of_IsFirst}
use crd_bootstrap.Sources.Gitlab.{
  release_url, fetch_url_content, close_reader, read_body, fetch_asset, fetch, fetch_selected,
}

succeeds : (n : ℕ) (x : Error) → 200 ≤ n → n ≤ 299 → fail_if (ltb n 200 || ltb 299 n) x ≡ ok tt
succeeds n x l u = ground arith

named : (s : String) (x : Error) → s ≢ "" → fail_if (s == "") x ≡ ok tt
named s x n = ground (arith, eq_iff s "")

module _ {P : Platform} where
  -- A request to an address is answered with a status of success and a whole body.
  pub record IsAnswered (client : ClientRef P) (address : String) (before : World P) (r : Response)
      (after : World P) : Type 0 where
    pub valid : P.new_request address ≡ ok tt
    pub answered : do_request client address before ≡ (ok r, after)
    pub at_least : 200 ≤ r.status_code
    pub at_most : r.status_code ≤ 299
    pub complete : r.body.read_error ≡ none

  fetch_url_content-ok :
      (c : ClientRef P) (address : String) (w v : World P) (r : Response)
      → IsAnswered c address w r v
      → fetch_url_content c address w ≡ (ok r.body, v)
  unfolding fetch_url_content from pure
  fetch_url_content-ok c address w v r h =
      bind-ok _ _ w w tt (wrapping-ok _ _ _ w w tt (ap (λ x. (x, w)) h.valid)) (
        bind-ok _ _ w v r (wrapping-ok _ _ _ w v r h.answered) (
          bind-ok _ _ v v tt (ap (λ x. (x, v)) (succeeds r.status_code _ h.at_least h.at_most))
            refl))

  -- What a deferred close returns is dropped.
  close_reader-ok : (b : Body) (w : World P) → ignoring (close_reader (ok b)) w ≡ (ok tt, w)
  unfolding close_reader close_body ◌>>=◌
  close_reader-ok b w = elim b.close_error as (λ e. ignoring (from (end_of e)) w ≡ (ok tt, w)) [
    | none ↦ refl
    | some x ↦ refl
  ]

  read_body-ok : (b : Body) (w : World P) → b.read_error ≡ none → read_body b w ≡ (ok b.received, w)
  unfolding from pure
  read_body-ok b w h = bind-ok _ _ w w tt (ap (λ e. (end_of e, w)) h) refl

  module _ (calm : (c : OsCall) (s : P.Outside) → (P.os_call c s).0 ≡ ok tt) where
    abbrev opened : FilePath → World P → World P
    opened path w = record w {
      outside = (P.os_call (create path) w.outside).1;
      files = put_node path (file "") w.files;
    }

    abbrev filled : FilePath → String → World P → World P
    filled path text w = record w {
      outside = (P.os_call (write path) w.outside).1;
      files = put_node path (file text) w.files;
    }

    abbrev left : FilePath → World P → World P
    left path w = record w { outside = (P.os_call (close path) w.outside).1 }

    create_file-ok : (path : FilePath) (w : World P) → create_file path w ≡ (ok tt, opened path w)
    unfolding create_file outside edit_files ◌>>=◌
    create_file-ok path w = simp calm refl

    copy_body-ok :
        (path : FilePath) (b : Body) (w : World P)
        → b.read_error ≡ none
        → copy_body path b w ≡ (ok tt, filled path b.received w)
    unfolding copy_body outside edit_files ◌>>=◌
    copy_body-ok path b w complete = simp (calm, complete) refl

    close_file-ok :
        (path : FilePath) (w : World P) → ignoring (close_file path) w ≡ (ok tt, left path w)
    unfolding close_file outside ◌>>=◌
    close_file-ok path w = simp calm refl

    abbrev stored : FilePath → String → World P → World P
    stored path text w = left path (filled path text (opened path w))

    fetch_asset-ok :
        (c : ClientRef P) (address : String) (path : FilePath) (w v : World P) (r : Response)
        → IsAnswered c address w r v
        → fetch_asset c address path w ≡ (ok tt, stored path r.body.received v)
    unfolding fetch_asset from
    fetch_asset-ok c address path w v r h =
        let v1 = opened path v in
        let v2 = filled path r.body.received v1 in
        let v3 = left path v2 in
        bind-ok _ _ w v (ok r.body)
          (attempt-ok _ w v r.body (fetch_url_content-ok c address w v r h))
          (deferring-ok _ _ v v3 v3 tt
            (bind-ok _ _ v v r.body refl (
              bind-ok _ _ v v1 tt (wrapping-ok _ _ _ v v1 tt (create_file-ok path v)) (
                deferring-ok _ _ v1 v2 v3 tt
                  (wrapping-ok _ _ _ v1 v2 tt (copy_body-ok path r.body v1 h.complete))
                  (close_file-ok path v2))))
            (close_reader-ok r.body v3))

    module _ (g : Api.Gitlab) (version : String) (base : FilePath) (obj : Bootstrap)
        (w v v1 v2 : World P) (c : ClientRef P) (release asset : Response) (links : List Link)
        (address : String) where
      fetch-ok :
          choose_client g.secret_ref obj.namespace w ≡ (ok c, v)
          → IsAnswered c (release_url g version) v release v1
          → P.decode_links release.body.received ≡ ok links
          → IsFirst g.manifest address links
          → address ≢ ""
          → IsAnswered c address v1 asset v2
          → fetch g version base obj w
            ≡ (ok tt, stored (join_path base g.manifest) asset.body.received v2)
      unfolding fetch from
      fetch-ok chosen listed decoded first nonempty fetched =
          let path = join_path base g.manifest in
          let t = stored path asset.body.received v2 in
          let here = find_asset_of_IsFirst g.manifest address links first in
          let text = release.body.received in
          bind-ok _ _ w v c chosen (
            bind-ok _ _ v v1 (ok release.body)
              (attempt-ok _ v v1 release.body (fetch_url_content-ok c _ v v1 release listed))
              (deferring-ok _ _ v1 t t tt
                (bind-ok _ _ v1 v1 release.body refl (
                  bind-ok _ _ v1 v1 text
                    (wrapping-ok _ _ _ v1 v1 text (read_body-ok release.body v1 listed.complete))
                    (bind-ok _ _ v1 v1 links
                      (wrapping-ok _ _ _ v1 v1 links (ap (λ x. (x, v1)) decoded))
                      (rw here (
                        bind-ok _ _ v1 v1 tt (ap (λ x. (x, v1)) (named address _ nonempty))
                          (fetch_asset-ok c address path v1 v2 asset fetched))))))
                (close_reader-ok release.body t)))

      -- If no call of the system fails, a client can be had, the release of the version is sent whole
      -- and has links, the first of which with the manifest's name has an address, and what is there
      -- is sent whole, then the GitLab source returns the path of the manifest's file, and the file
      -- holds what was sent.
      pub fetch_selected-IsAnswered :
          (S : Semver) (next : Option (Contract P))
          → choose_client g.secret_ref obj.namespace w ≡ (ok c, v)
          → IsAnswered c (release_url g version) v release v1
          → P.decode_links release.body.received ≡ ok links
          → IsFirst g.manifest address links
          → address ≢ ""
          → IsAnswered c address v1 asset v2
          → (t : World P) × (fetch_selected S next (some g) base obj version w
              ≡ (ok (join_path base g.manifest), t))
            × (find_node (join_path base g.manifest) t.files ≡ some (file asset.body.received))
      unfolding fetch_selected pure
      fetch_selected-IsAnswered S next chosen listed decoded first nonempty fetched =
          let path = join_path base g.manifest in
          let t = stored path asset.body.received v2 in
          (
            t,
            bind-ok _ _ w t tt
                (wrapping-ok _ _ _ w t tt (fetch-ok chosen listed decoded first nonempty fetched))
                refl,
            find-put path (file asset.body.received) (put_node path (file "") v2.files),
          )
