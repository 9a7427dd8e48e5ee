-- ===== src/Sources/Download.antt =====
-- What a download of the URL and of the GitHub source leaves behind.
pub mod Total
use mathlib.Core.Path.{subst}
use crd_bootstrap.Base.{
  ℕ, String, ◌≡◌, refl, sym, ◌∙◌, not, Option, none, some, ok, Error, eqb, arith, ok-injective,
  bind-eq-ok, map_err-eq-ok, wrapping, from, pure, deferring, fail_if, [],
}
use crd_bootstrap.Base.Keeps.{join_outcome-eq-ok}
use crd_bootstrap.Base.FilePath.{FilePath, join_path}
use crd_bootstrap.Api
use crd_bootstrap.Api.{Bootstrap}
use crd_bootstrap.Platform.{Platform, Body, Response}
use crd_bootstrap.Platform.World.{World, file, find_node, outside, edit_files}
use crd_bootstrap.Platform.Os.{end_of, copy_body, close_file, close_body}
use crd_bootstrap.Platform.Files.{find-put}
use crd_bootstrap.Sources.{Contract}
use crd_bootstrap.Sources.Http.{ClientRef, do_request}
use crd_bootstrap.Sources.Url
use crd_bootstrap.Sources.Url.{store_response}
use crd_bootstrap.Sources.Github
use crd_bootstrap.Sources.Github.{download_url}

pub end_of-eq-ok : (o : Option Error) (a : Unit {0}) → end_of o ≡ ok a → o ≡ none
end_of-eq-ok none a e = refl
end_of-eq-ok (some x) a e = cc

module _ {P : Platform} where
  -- A whole response with status 200 to a request for an address is the content of a file.
  pub record IsDownloaded (address : String) (path : FilePath) (t : World P) : Type 0 where
    pub client : ClientRef P
    pub before : World P
    pub response : Response
    pub answered : (do_request client address before).0 ≡ ok response
    pub accepted : response.status_code ≡ 200
    pub complete : response.body.read_error ≡ none
    pub written : find_node path t.files ≡ some (file response.body.received)

  abbrev pub IsStored : FilePath → Body → World P → Type 0
  IsStored path b t = (b.read_error ≡ none) × (find_node path t.files ≡ some (file b.received))

  pub copy_body-IsStored :
      (path : FilePath) (b : Body) (w : World P) (a : Unit {0})
      → (copy_body path b w).0 ≡ ok a
      → IsStored path b (copy_body path b w).1
  unfolding copy_body edit_files from
  copy_body-IsStored path b w a e =
      let (_, _, e1, s1) = bind-eq-ok _ _ w a e in
      let (_, _, e2, s2) = bind-eq-ok _ _ _ a e1 in
      (
        end_of-eq-ok b.read_error a e2,
        subst (λ t. find_node path t.files ≡ some (file b.received)) (sym (s1 ∙ s2))
            (find-put path (file b.received) _),
      )

  written_lem :
      (path : FilePath) (b : Body) (w : World P) (a : Unit {0})
      → (deferring
          (close_file path)
          (wrapping "failed to write to temp file" [] (copy_body path b))
          w).0
        ≡ ok a
      → IsStored path b
          (deferring
            (close_file path)
            (wrapping "failed to write to temp file" [] (copy_body path b))
            w).1
  unfolding deferring wrapping close_file outside
  written_lem path b w a e =
      copy_body-IsStored path b w a (map_err-eq-ok _ _ (join_outcome-eq-ok _ _ a e))

  store_response_lem :
      (refused : String) (path : FilePath) (resp : Response) (w : World P) (a : Unit {0})
      → (store_response refused path resp w).0 ≡ ok a
      → (resp.status_code ≡ 200) × IsStored path resp.body (store_response refused path resp w).1
  unfolding store_response deferring close_body from
  store_response_lem refused path resp w a e =
      let (_, tested, e1, s1) = bind-eq-ok _ _ w a (join_outcome-eq-ok _ _ a e) in
      let (_, _, e2, s2) = bind-eq-ok _ _ _ a e1 in
      (
        accepted_lem resp.status_code _ _ tested,
        subst (IsStored path resp.body) (sym (s1 ∙ s2)) (written_lem path resp.body _ a e2),
      )
    where
      accepted_lem :
          (n : ℕ) (x : Error) (b : Unit {0}) → fail_if (not (eqb n 200)) x ≡ ok b → n ≡ 200
      accepted_lem n x b h = ground arith

  -- If the URL source returns a path, then the file there is a whole response with status 200 to a
  -- request for the spec's address; and the call comes to the same result and the same state
  -- whatever revision is asked for.
  pub fetch_selected-IsDownloaded :
      (next : Option (Contract P)) (u : Api.Url) (dir path : FilePath) (obj : Bootstrap)
      (revision other : String) (w : World P)
      → (Url.fetch_selected next (some u) dir obj revision w).0 ≡ ok path
      → IsDownloaded u.url path (Url.fetch_selected next (some u) dir obj revision w).1
        × (Url.fetch_selected next (some u) dir obj other w
            ≡ Url.fetch_selected next (some u) dir obj revision w)
  unfolding Url.fetch_selected Url.fetch wrapping from pure
  fetch_selected-IsDownloaded next u dir path obj revision other w e =
      let (a, fetched, e0, s0) = bind-eq-ok _ _ w path e in
      let fetched_ok = map_err-eq-ok _ _ fetched in
      let (_, _, e1, s1) = bind-eq-ok _ _ w a fetched_ok in
      let (c, _, e2, s2) = bind-eq-ok _ _ _ a e1 in
      let (resp, answered, e3, s3) = bind-eq-ok _ _ _ a e2 in
      let (accepted, stored) = store_response_lem _ _ resp _ a e3 in
      (
        record {
          client = c;
          before = _;
          response = resp;
          answered = map_err-eq-ok _ _ answered;
          accepted = accepted;
          complete = stored.0;
          written =
              subst
                (λ p.
                  find_node p (Url.fetch_selected next (some u) dir obj revision w).1.files
                  ≡ some (file resp.body.received))
                (ok-injective e0)
                (subst
                  (λ t.
                    find_node (join_path dir "crds.yaml") t.files ≡ some (file resp.body.received))
                  (sym (s0 ∙ s1 ∙ s2 ∙ s3)) stored.1);
        },
        refl,
      )

  -- If the download of the GitHub source returns, then the file of the manifest's name in the
  -- directory is a whole response with status 200 to a request for the asset of the version.
  pub fetch-IsDownloaded :
      (g : Api.Github) (version : String) (dir : FilePath) (obj : Bootstrap) (w : World P)
      → (Github.fetch g version dir obj w).0 ≡ ok tt
      → IsDownloaded
          (download_url g version)
          (join_path dir g.manifest)
          (Github.fetch g version dir obj w).1
  unfolding Github.fetch wrapping from pure
  fetch-IsDownloaded g version dir obj w e =
      let (_, _, e1, s1) = bind-eq-ok _ _ w tt e in
      let (c, _, e2, s2) = bind-eq-ok _ _ _ tt e1 in
      let (resp, answered, e3, s3) = bind-eq-ok _ _ _ tt e2 in
      let (accepted, stored) = store_response_lem _ _ resp _ tt e3 in
      record {
        client = c;
        before = _;
        response = resp;
        answered = map_err-eq-ok _ _ answered;
        accepted = accepted;
        complete = stored.0;
        written =
            subst
              (λ t. find_node (join_path dir g.manifest) t.files ≡ some (file resp.body.received))
              (sym (s1 ∙ s2 ∙ s3)) stored.1;
      }
