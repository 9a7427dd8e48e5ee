-- ===== src/Sources/ConfigMap/Content.antt =====
-- What the config map source writes.
use mathlib.Core.Path.{subst}
use crd_bootstrap.Base.{
  String, ◌≡◌, ap, sym, ◌∙◌, Option, some, ok, bind-eq-ok, from, map_err-eq-ok, or_fail-eq-ok,
  fail_if-eq-ok, eq_iff, arith, wrapping, pure, ok-injective,
}
use crd_bootstrap.Base.Dict.{Dict, lookup}
use crd_bootstrap.Base.FilePath.{FilePath, join_path}
use crd_bootstrap.Api
use crd_bootstrap.Api.{Bootstrap}
use crd_bootstrap.Platform.{Semver, Platform}
use crd_bootstrap.Platform.World.{World, Files, file, find_node, outside, edit_files}
use crd_bootstrap.Platform.Os.{write_file}
use crd_bootstrap.Platform.Files.{find-put}
use crd_bootstrap.Sources.{Contract}
use crd_bootstrap.Sources.ConfigMap.{version_key, crd_key, fetch_selected}

find-moved :
    {p q : FilePath}
    → p ≡ q
    → (content : String) (fs : Files) → find_node p fs ≡ some (file content)
    → find_node q fs ≡ some (file content)
find-moved same content fs found = subst (λ r. find_node r fs ≡ some (file content)) same found

module _ {P : Platform} where
  -- A file that was written with success holds the content.
  write_file-find :
      (p : FilePath) (content : String) (w : World P)
      → (write_file p content w).0 ≡ ok tt
      → find_node p (write_file p content w).1.files ≡ some (file content)
  unfolding write_file edit_files
  write_file-find p content w e =
      let (_, _, e1, s1) = bind-eq-ok _ _ w tt e in
      let (_, _, e2, s2) = bind-eq-ok _ _ _ tt e1 in
      let (_, _, e3, s3) = bind-eq-ok _ _ _ tt e2 in rw (s1, s2, s3) (find-put p (file content) _)

  -- What is found of a config map whose update was fetched.
  pub record IsFetched (c : Api.ConfigMap) (revision : String) (dir path : FilePath) (w t : World P)
      : Type 0 where
    pub contents : Dict String
    pub content : String
    pub read : (P.get_config_map c.name c.namespace w.outside).0 ≡ ok contents
    pub version : lookup version_key contents ≡ some revision
    pub crd : lookup crd_key contents ≡ some content
    pub location : path ≡ join_path dir "crd.yaml"
    pub written : find_node path t.files ≡ some (file content)

  -- If the config map source returns a path, then the config map exists and has the version that
  -- was asked for, and the file at that path, `crd.yaml` in the directory, holds what the config map
  -- has under its CRD key.
  pub fetch_selected-IsFetched :
      (S : Semver) (next : Option (Contract P)) (c : Api.ConfigMap) (dir path : FilePath)
      (obj : Bootstrap) (revision : String) (w : World P)
      → (fetch_selected S next (some c) dir obj revision w).0 ≡ ok path
      → IsFetched c revision dir path w (fetch_selected S next (some c) dir obj revision w).1
  unfolding fetch_selected outside pure wrapping from
  fetch_selected-IsFetched S next c dir path obj revision w e =
      let (contents, a1, e1, s1) = bind-eq-ok _ _ w path e in
      let (v, a2, e2, s2) = bind-eq-ok _ _ _ path e1 in
      let (_, a3, e3, s3) = bind-eq-ok _ _ _ path e2 in
      let (content, a4, e4, s4) = bind-eq-ok _ _ _ path e3 in
      let (_, a5, e5, s5) = bind-eq-ok _ _ _ path e4 in
      let same : v ≡ revision = ground (arith, eq_iff v revision, fail_if-eq-ok _ _ a3) in
      let here : join_path dir "crd.yaml" ≡ path = ok-injective e5 in
      record {
        contents = contents;
        content = content;
        read = map_err-eq-ok _ _ a1;
        version = or_fail-eq-ok _ _ a2 ∙ ap some same;
        crd = or_fail-eq-ok _ _ a4;
        location = sym here;
        written =
            subst (λ t. find_node path t.files ≡ some (file content)) (sym (s1 ∙ s2 ∙ s3 ∙ s4 ∙ s5))
              (find-moved here content _
                (write_file-find (join_path dir "crd.yaml") content _ (map_err-eq-ok _ _ a5)));
      }
