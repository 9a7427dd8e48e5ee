-- ===== src/Sources/Url/Cleanup.antt =====
-- The temporary directory of the URL source's `HasUpdate`.
use crd_bootstrap.Base.{
  String, ◌≡◌, refl, ◌∙◌, Option, none, some, Outcome, ok, err, panic, [], pure, deferring, ◌>>=◌,
  ◌>>◌, resume, wrap, map_err,
}
use crd_bootstrap.Base.Keeps.{
  Keeps, Keeps-bind, Keeps-then, Keeps-from, Keeps-pure, Keeps-deferring, Keeps-wrapping,
}
use crd_bootstrap.Base.FilePath.{FilePath, join_path}
use crd_bootstrap.Api
use crd_bootstrap.Api.{Bootstrap, LocalObjectReference}
use crd_bootstrap.Platform.{Platform, Response, remove_all}
use crd_bootstrap.Platform.World.{World, dir, Files, put_node, erase_tree, outside, edit_files}
use crd_bootstrap.Platform.Os.{mkdir_temp, remove_tree}
use crd_bootstrap.Platform.Files.{erase_tree-put, under_refl, under-child}
use crd_bootstrap.Platform.Keeps.{
  IsFileInvariant, Keeps-outside, Keeps-create_file, Keeps-copy_body, Keeps-close_file,
  Keeps-close_body, Keeps-open_path, Keeps-read_all, remove_tree_lem,
}
use crd_bootstrap.Sources.{Contract}
use crd_bootstrap.Sources.Http.{
  ClientRef, shared, owned, construct_authenticated_client, choose_client, do_request,
}
use crd_bootstrap.Sources.Url.{store_response, fetch, digest_content, has_update_selected}

module _ {P : Platform} {I : World P → Type 0} {p : FilePath} (inv : IsFileInvariant I p) where
  pub Keeps-choose_client :
      (o : Option LocalObjectReference) (namespace : String) → Keeps I (choose_client o namespace)
  unfolding choose_client construct_authenticated_client
  Keeps-choose_client none namespace = Keeps-pure _
  Keeps-choose_client (some r) namespace = Keeps-wrapping _ _ (
      Keeps-bind (Keeps-wrapping _ _ (Keeps-outside inv _))
        λ _. Keeps-bind (Keeps-from _) λ _. Keeps-pure _)

  pub Keeps-do_request : (c : ClientRef P) (url : String) → Keeps I (do_request c url)
  unfolding do_request
  Keeps-do_request shared url = record {
    at = λ w i. (Keeps-outside inv (P.http_do w.client url)).at w i;
  }
  Keeps-do_request (owned c) url = record {
    at = λ w i. (Keeps-outside inv (P.http_do c url)).at w i;
  }

  pub Keeps-store_response :
      (text : String) (resp : Response) → Keeps I (store_response text p resp)
  unfolding store_response
  Keeps-store_response text resp = Keeps-deferring (Keeps-close_body resp.body) (
      Keeps-then (Keeps-from _) (
        Keeps-then (Keeps-wrapping _ _ (Keeps-create_file inv)) (
          Keeps-deferring (Keeps-close_file inv _)
            (Keeps-wrapping _ _ (Keeps-copy_body inv resp.body)))))

module _ {P : Platform} (next : Option (Contract P)) (u : Api.Url) (obj : Bootstrap) where
  Keeps-fetch :
      {I : World P → Type 0} (d : FilePath)
      → IsFileInvariant I (join_path d "crds.yaml")
      → Keeps I (fetch u d obj)
  unfolding fetch
  Keeps-fetch d inv = Keeps-then (Keeps-wrapping _ _ (Keeps-from _)) (
      Keeps-bind (Keeps-choose_client inv _ _) λ c.
        Keeps-bind (Keeps-wrapping _ _ (Keeps-do_request inv c _))
          λ resp. Keeps-store_response inv _ resp)

  -- What is outside the directory does not change.
  abbrev IsOutsideSame : FilePath → Files → World P → Type 0
  IsOutsideSame d fs w = erase_tree d w.files ≡ fs

  IsOutsideSame-invariant :
      (d : FilePath) (fs : Files) → IsFileInvariant (IsOutsideSame d fs) (join_path d "crds.yaml")
  unfolding join_path
  IsOutsideSame-invariant d fs = record {
    outside = λ w s i. i;
    client = λ w c i. i;
    put = λ w n i. erase_tree-put d _ n w.files (under-child d "crds.yaml") ∙ i;
  }

  -- What runs between the making of the directory and its removal.
  Keeps-digest : (d : FilePath) (fs : Files) → Keeps (IsOutsideSame d fs) (digest_content u d obj)
  unfolding digest_content
  Keeps-digest d fs =
      let inv = IsOutsideSame-invariant d fs in
      Keeps-then (Keeps-wrapping _ _ (Keeps-fetch d inv)) (
        Keeps-then (Keeps-wrapping _ _ (Keeps-open_path inv _))
          (Keeps-bind (Keeps-wrapping _ _ (Keeps-read_all inv _)) λ content. Keeps-pure _))

  after_mkdir :
      (w : World P) (p : Outcome FilePath × P.Outside)
      → ((d : FilePath) (s : P.Outside) → (P.os_call (remove_all d) s).0 ≡ ok tt)
      → ((d : FilePath) → p.0 ≡ ok d → erase_tree d w.files ≡ w.files)
      → (resume
          (λ dir. deferring (remove_tree dir) (digest_content u dir obj))
          (
            map_err
                (wrap "failed to create temp folder" [])
                (resume
                  (λ d. edit_files (put_node d dir) >> pure d)
                  (p.0, record w { outside = p.1 })).0,
            (resume
                (λ d. edit_files (put_node d dir) >> pure d)
                (p.0, record w { outside = p.1 })).1,
          )).1.files
        ≡ w.files
  unfolding edit_files ◌>>=◌
  after_mkdir w (ok d, s) removes fresh =
      let start : World P = record w { outside = s; files = put_node d dir w.files } in
      let kept =
        (Keeps-digest d w.files).at start
          (erase_tree-put d d dir w.files (under_refl d) ∙ fresh d refl) in
      remove_tree_lem d (digest_content u d obj start).1 (removes d _) ∙ kept
  after_mkdir w (err _, s) removes fresh = refl
  after_mkdir w (panic, s) removes fresh = refl

  -- Whatever the outcome, `HasUpdate` of the URL source leaves the files as it found them, if the
  -- temporary directory that it is given is new and the removal of a directory does not fail.
  pub has_update_selected-files :
      (w : World P)
      → ((d : FilePath) (s : P.Outside) → (P.os_call (remove_all d) s).0 ≡ ok tt)
      → ((d : FilePath)
          → (P.temp_dir "crd-url" w.outside).0 ≡ ok d
          → erase_tree d w.files ≡ w.files)
      → (has_update_selected next (some u) obj w).1.files ≡ w.files
  unfolding has_update_selected mkdir_temp outside ◌>>=◌
  has_update_selected-files w removes fresh =
      after_mkdir w (P.temp_dir "crd-url" w.outside) removes fresh
