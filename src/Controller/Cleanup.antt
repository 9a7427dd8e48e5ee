-- ===== src/Controller/Cleanup.antt =====
-- What happens to the temporary directory of an update.
use crd_bootstrap.Base.{
  String, ◌≡◌, refl, ap, ◌∙◌, Outcome, ok, err, panic, resume, caught, deferring, ◌>>=◌,
}
use crd_bootstrap.Base.Keeps.{Keeps, Keeps-bind, Keeps-wrapping}
use crd_bootstrap.Base.FilePath.{FilePath}
use crd_bootstrap.Platform.{Platform, remove_all}
use crd_bootstrap.Platform.World.{World, Files, dir, put_node, erase_tree, outside, edit_files}
use crd_bootstrap.Platform.Os.{mkdir_temp, remove_tree}
use crd_bootstrap.Platform.Keeps.{remove_tree_lem}
use crd_bootstrap.Breaking.{OpenApi}
use crd_bootstrap.Sources.{Contract}
use crd_bootstrap.Controller.{Cluster, Run, within, get_obj, set_obj}
use crd_bootstrap.Controller.Keeps.{Keeps-get_obj, Keeps-marking}
use crd_bootstrap.Controller.Objects.{new_resource_manager}
use crd_bootstrap.Controller.Reconcile.{fail_marked, marking, set_attempted, install_from, install}
use crd_bootstrap.Controller.Files.{
  HasFiles, marks, Keeps-inner, Keeps-api, Keeps-read_objects, Keeps-check_and_apply,
}

module _ {P : Platform} where
  -- What becomes of the files once the fetch is over.
  abbrev pub IsCleaned : FilePath → Outcome FilePath × World P → Files → Type 0
  IsCleaned temp (ok location, w) files = files ≡ erase_tree temp w.files
  IsCleaned temp (err e, w) files = files ≡ w.files
  IsCleaned temp (panic, w) files = files ≡ w.files

module _ {P : Platform} {O : OpenApi} (C : Cluster P O) (source_provider : Contract P)
    (default_service_account : String) where
  Keeps-install_from :
      (files : Files) (location : FilePath) (revision : String)
      → Keeps
          (HasFiles C files)
          (install_from C source_provider default_service_account location revision)
  unfolding install_from new_resource_manager
  Keeps-install_from files location revision = Keeps-bind Keeps-get_obj λ obj.
      Keeps-bind (Keeps-marking (marks C files) _ _ (Keeps-wrapping _ _ (Keeps-api C files _)))
        λ sm.
          Keeps-bind
            (Keeps-marking (marks C files) _ _
              (Keeps-inner C files (Keeps-read_objects C files location)))
            λ objects. Keeps-check_and_apply C files sm _ revision

  after_fetch :
      (temp : FilePath) (revision s t : String) (r : Run C) (p : Outcome FilePath × World P)
      → ((w : P.Outside) → (P.os_call (remove_all temp) w).0 ≡ ok tt)
      → IsCleaned temp p
          (resume
            (λ location.
              deferring
                (within (remove_tree temp))
                (install_from C source_provider default_service_account location revision))
            (resume (fail_marked C s t) (caught p.0, record r { world = p.1 }))).1.world.files
  unfolding ◌>>=◌ fail_marked within set_obj
  after_fetch temp revision s t r (ok location, w) removes =
      remove_tree_lem temp _ (removes _)
      ∙ ap (erase_tree temp)
          ((Keeps-install_from w.files location revision).at (record r { world = w }) refl)
  after_fetch temp revision s t r (err e, w) removes = refl
  after_fetch temp revision s t r (panic, w) removes = refl

  -- If a temporary directory is made for an update, and its removal does not fail, then it is gone
  -- at the end, with all that is below it, whenever the fetch has succeeded, whatever happens after
  -- that; and nothing else changes in the files after the fetch. If the fetch fails or panics, all
  -- files stay as the fetch has left them: the directory is not removed.
  pub install-IsCleaned :
      (revision : String) (r : Run C) (temp : FilePath) (s : P.Outside)
      → P.temp_dir "crd" r.world.outside ≡ (ok temp, s)
      → ((w : P.Outside) → (P.os_call (remove_all temp) w).0 ≡ ok tt)
      → IsCleaned temp
          (source_provider.fetch_crd temp
            (set_attempted revision r.obj)
            revision
            (record r.world { outside = s; files = put_node temp dir r.world.files }))
          (install C source_provider default_service_account revision r).1.world.files
  unfolding install ◌>>=◌ marking fail_marked within set_obj get_obj mkdir_temp outside edit_files
  install-IsCleaned revision r temp s made removes = rw made (
      after_fetch temp revision _ _
        (record r {
          obj = set_attempted revision r.obj;
          world = record r.world { outside = s; files = put_node temp dir r.world.files };
        })
        (source_provider.fetch_crd temp (set_attempted revision r.obj) revision
          (record r.world { outside = s; files = put_node temp dir r.world.files }))
        removes)
