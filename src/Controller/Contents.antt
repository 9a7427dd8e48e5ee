-- ===== src/Controller/Contents.antt =====
-- From what a config map holds to what is applied.
use crd_bootstrap.Base.{eq_refl, String, ◌≡◌, refl, Option, some, List, select, ◌==◌, ok, ◌>>=◌}
use crd_bootstrap.Base.Dict.{Dict, lookup}
use crd_bootstrap.Base.FilePath.{FilePath, join_path, file}
use crd_bootstrap.Api
use crd_bootstrap.Api.{Bootstrap}
use crd_bootstrap.Platform.{Semver, Platform, OsCall, create, write}
use crd_bootstrap.Platform.World.{World, outside, find_node, put_node, edit_files}
use crd_bootstrap.Platform.Os.{write_file}
use crd_bootstrap.Platform.Files.{find-put}
use crd_bootstrap.Breaking.{OpenApi}
use crd_bootstrap.Sources.{Contract}
use crd_bootstrap.Sources.ConfigMap.{version_key, crd_key, fetch_selected}
use crd_bootstrap.Controller.{Cluster}
use crd_bootstrap.Controller.Objects.{crd_kind, read_objects}

module _ {P : Platform} {O : OpenApi} (C : Cluster P O)
    (calm : (c : OsCall) (s : P.Outside) → (P.os_call c s).0 ≡ ok tt) where
  pub read_objects-ok :
      (path : FilePath) (text : String) (objects : List C.Object) (w : World P)
      → find_node path w.files ≡ some (file text)
      → C.read_objects text ≡ ok objects
      → (read_objects C path w).0 ≡ ok (select (λ o. C.get_kind o == crd_kind) objects)
  unfolding read_objects outside ◌>>=◌
  read_objects-ok path text objects w found read = simp (calm, found, read) refl

  abbrev written : FilePath → String → World P → World P
  written path text w = record w {
    outside = (P.os_call (write path) (P.os_call (create path) w.outside).1).1;
    files = put_node path (file text) (put_node path (file "") w.files);
  }

  write_file-ok :
      (path : FilePath) (text : String) (w : World P)
      → (v : World P) × (write_file path text w ≡ (ok tt, v))
        × (find_node path v.files ≡ some (file text))
        × (v.outside ≡ (P.os_call (write path) (P.os_call (create path) w.outside).1).1)
  unfolding write_file outside edit_files ◌>>=◌
  write_file-ok path text w = (
    written path text w,
    simp calm refl,
    find-put path (file text) (put_node path (file "") w.files),
    refl,
  )

  pub fetched :
      (S : Semver) (next : Option (Contract P)) (c : Api.ConfigMap) (base : FilePath)
      (obj : Bootstrap) (revision text : String) (contents : Dict String) (w : World P)
      (s : P.Outside)
      → P.get_config_map c.name c.namespace w.outside ≡ (ok contents, s)
      → lookup version_key contents ≡ some revision
      → lookup crd_key contents ≡ some text
      → (v : World P) × (fetch_selected S next (some c) base obj revision w
          ≡ (ok (join_path base "crd.yaml"), v))
        × (find_node (join_path base "crd.yaml") v.files ≡ some (file text))
        × (v.outside
            ≡ (P.os_call
                (write (join_path base "crd.yaml"))
                (P.os_call (create (join_path base "crd.yaml")) s).1).1)
  unfolding fetch_selected outside ◌>>=◌
  fetched S next c base obj revision text contents w s got version crd =
      let (v, written, found, out) =
        write_file-ok (join_path base "crd.yaml") text (record w { outside = s }) in
      (v, rw (got, version, crd, eq_refl revision, written) refl, found, out)

  -- If a config map holds a text under its CRD key and the version that is asked for, the text can
  -- be read as objects, and no call of the system fails, then fetching the CRDs from the config map
  -- and reading the file that it leaves gives back the CRDs among those objects, in their order.
  pub fetch_selected-read :
      (S : Semver) (next : Option (Contract P)) (c : Api.ConfigMap) (base : FilePath)
      (obj : Bootstrap) (revision text : String) (contents : Dict String) (objects : List C.Object)
      (w : World P) (s : P.Outside)
      → P.get_config_map c.name c.namespace w.outside ≡ (ok contents, s)
      → lookup version_key contents ≡ some revision
      → lookup crd_key contents ≡ some text
      → C.read_objects text ≡ ok objects
      → ((fetch_selected S next (some c) base obj revision >>= read_objects C) w).0
        ≡ ok (select (λ o. C.get_kind o == crd_kind) objects)
  unfolding ◌>>=◌
  fetch_selected-read S next c base obj revision text contents objects w s got version crd read =
      let (v, e, found, _) = fetched S next c base obj revision text contents w s got version crd in
      rw e (read_objects-ok (join_path base "crd.yaml") text objects v found read)
