-- ===== src/Sources/Download/Total.antt =====
-- When the URL and the GitHub source bring what is asked for.
use crd_bootstrap.Base.{
  String, ◌≡◌, refl, Option, none, some, ok, Outcome, M, ◌>>=◌, List, [], ◌∷◌, ap, wrapping, from,
  pure,
}
use crd_bootstrap.Base.Returns.{bind-ok, wrapping-ok}
use crd_bootstrap.Base.FilePath.{FilePath, join_path}
use crd_bootstrap.Api
use crd_bootstrap.Api.{Bootstrap, LocalObjectReference}
use crd_bootstrap.Platform.{Semver, Platform, OsCall, Response, create, write, close}
use crd_bootstrap.Platform.World.{World, file, find_node, put_node, outside, edit_files}
use crd_bootstrap.Platform.Files.{find-put}
use crd_bootstrap.Sources.{Contract}
use crd_bootstrap.Sources.Http.{ClientRef, choose_client, do_request}
use crd_bootstrap.Sources.Url
use crd_bootstrap.Sources.Url.{store_response}
use crd_bootstrap.Sources.Github
use crd_bootstrap.Sources.Github.{download_url}

module _ {P : Platform} where
  -- A client can be had, and its request for the address is answered with status 200 and a whole
  -- body that can be closed.
  pub record IsServed (secret : Option LocalObjectReference) (namespace address : String)
      (w : World P) (response : Response) : Type 0 where
    pub client : ClientRef P
    pub chosen_at : World P
    pub answered_at : World P
    pub valid : P.new_request address ≡ ok tt
    pub chosen : choose_client secret namespace w ≡ (ok client, chosen_at)
    pub answered : do_request client address chosen_at ≡ (ok response, answered_at)
    pub accepted : response.status_code ≡ 200
    pub complete : response.body.read_error ≡ none
    pub closed : response.body.close_error ≡ none

  -- A fetch of a source, the reference to a secret and the address that it uses, and its path.
  pub data IsDownload (S : Semver) (next : Option (Contract P)) (base : FilePath) (obj : Bootstrap)
      (revision : String)
      : M (World P) FilePath → Option LocalObjectReference → String → FilePath → Type 0 where
    from_url :
        (u : Api.Url)
        → IsDownload S next base obj revision
            (Url.fetch_selected next (some u) base obj revision)
            u.secret_ref
            u.url
            (join_path base "crds.yaml")
    from_github :
        (g : Api.Github)
        → IsDownload S next base obj revision
            (Github.fetch_selected S next (some g) base obj revision)
            g.secret_ref
            (download_url g revision)
            (join_path base g.manifest)

  module _ (calm : (c : OsCall) (s : P.Outside) → (P.os_call c s).0 ≡ ok tt) where
    abbrev stored : FilePath → String → World P → World P
    stored path text w = record w {
      outside =
          (P.os_call (close path)
            (P.os_call (write path) (P.os_call (create path) w.outside).1).1).1;
      files = put_node path (file text) (put_node path (file "") w.files);
    }

    store_response-ok :
        (refused : String) (path : FilePath) (r : Response) (w : World P)
        → r.status_code ≡ 200
        → r.body.read_error ≡ none
        → r.body.close_error ≡ none
        → store_response refused path r w ≡ (ok tt, stored path r.body.received w)
    unfolding store_response outside edit_files ◌>>=◌
    store_response-ok refused path r w accepted complete closed =
        simp (calm, accepted, complete, closed) refl

    -- The steps up to the response, and then the rest.
    served :
        {A : Type 0} (secret : Option LocalObjectReference) (namespace address : String)
        (t1 t2 : String) (l2 : List String) (store : Response → M (World P) A) (w : World P)
        (r : Response) {o : Outcome A × World P}
        → (h : IsServed secret namespace address w r) → store r h.answered_at ≡ o
        → (wrapping t1 (address ∷ []) (from (P.new_request address)) >>= (λ _.
              choose_client secret namespace
              >>= (λ c. wrapping t2 l2 (do_request c address) >>= store)))
            w
          ≡ o
    unfolding from
    served secret namespace address t1 t2 l2 store w r h e =
        bind-ok _ _ w w tt (wrapping-ok _ _ _ w w tt (ap (λ x. (x, w)) h.valid)) (
          bind-ok _ _ w h.chosen_at h.client h.chosen (
            bind-ok _ _ h.chosen_at h.answered_at r
              (wrapping-ok _ _ _ h.chosen_at h.answered_at r h.answered) e))

    -- If no call of the system fails, and the client of the source has its request answered with
    -- status 200 and a whole body, then the URL source and the GitHub source return the path of their
    -- file, and it holds this body.
    pub fetch_selected-IsServed :
        (S : Semver) (next : Option (Contract P)) (base : FilePath) (obj : Bootstrap)
        (revision : String) (m : M (World P) FilePath) (secret : Option LocalObjectReference)
        (address : String) (path : FilePath) (w : World P) (r : Response)
        → IsDownload S next base obj revision m secret address path
        → IsServed secret obj.namespace address w r
        → (t : World P) × (m w ≡ (ok path, t))
          × (find_node path t.files ≡ some (file r.body.received))
    unfolding Url.fetch_selected Url.fetch Github.fetch_selected Github.fetch pure
    fetch_selected-IsServed S next base obj revision _ _ _ path w r (from_url u) h =
        let t = stored path r.body.received h.answered_at in
        (
          t,
          bind-ok _ _ w t tt
              (wrapping-ok _ _ _ w t tt (
                served u.secret_ref obj.namespace u.url _ _ (u.url ∷ []) _ w r h
                  (store_response-ok _ path r h.answered_at h.accepted h.complete h.closed)))
              refl,
          find-put path (file r.body.received) (put_node path (file "") h.answered_at.files),
        )
    fetch_selected-IsServed S next base obj revision _ _ _ path w r (from_github g) h =
        let t = stored path r.body.received h.answered_at in
        (
          t,
          bind-ok _ _ w t tt
              (wrapping-ok _ _ _ w t tt (
                served g.secret_ref obj.namespace (download_url g revision) _ _
                  (g.manifest ∷ download_url g revision ∷ []) _ w r h
                  (store_response-ok _ path r h.answered_at h.accepted h.complete h.closed)))
              refl,
          find-put path (file r.body.received) (put_node path (file "") h.answered_at.files),
        )
