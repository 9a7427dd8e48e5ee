-- ===== src/Controller/Files.antt =====
-- The stages of an update after the fetch leave the files alone.
use crd_bootstrap.Base.{
  ℕ, String, ◌≡◌, List, [], ◌∷◌, true, false, none, some, Option, M, Outcome, ok, err, panic, Bool,
  if◌then◌else◌,
}
use crd_bootstrap.Base.Dict.{Dict}
use crd_bootstrap.Base.Keeps.{
  Keeps, Keeps-bind, Keeps-then, Keeps-from, Keeps-pure, Keeps-fail, Keeps-crash, Keeps-gets,
  Keeps-deferring, Keeps-wrapping, Keeps-attempt,
}
use crd_bootstrap.Base.FilePath.{FilePath}
use crd_bootstrap.Platform.{Platform}
use crd_bootstrap.Platform.World.{World, Files, outside}
use crd_bootstrap.Platform.Os.{open_path, read_all, close_file}
use crd_bootstrap.Breaking.{OpenApi}
use crd_bootstrap.Controller.{Cluster, Run, within, api, set_obj}
use crd_bootstrap.Controller.Keeps.{
  Marks, Keeps-set_obj, Keeps-get_obj, Keeps-note, Keeps-marking, Keeps-finish,
}
use crd_bootstrap.Controller.Objects.{
  read_objects, count_names, count_applied, compare_installed, detect_object, detect_changes,
}
use crd_bootstrap.Controller.Reconcile.{
  refuse_breaking, gate_breaking, after_validation, gate_validation, apply_objects, apply_checked,
  check_and_apply,
}

module _ {P : Platform} (files : Files) where
  abbrev IsWorldOf : World P → Type 0
  IsWorldOf w = w.files ≡ files

  Keeps-outer : {A : Type 0} (m : M P.Outside A) → Keeps IsWorldOf (outside m)
  unfolding outside
  Keeps-outer m = record { at = λ w i. i }

  Keeps-either :
      {A : Type 0} (b : Bool) {m k : M (World P) A}
      → Keeps IsWorldOf m
      → Keeps IsWorldOf k
      → Keeps IsWorldOf (if b then m else k)
  Keeps-either true h g = h
  Keeps-either false h g = g

  Keeps-open : (p : FilePath) → Keeps IsWorldOf (open_path p)
  unfolding open_path
  Keeps-open p = Keeps-outer _

  Keeps-read : (p : FilePath) → Keeps IsWorldOf (read_all p)
  unfolding read_all
  Keeps-read p = Keeps-bind (Keeps-outer _) λ _. Keeps-bind (Keeps-gets _) λ _. Keeps-from _

  Keeps-close : (p : FilePath) → Keeps IsWorldOf (close_file p)
  unfolding close_file
  Keeps-close p = Keeps-outer _

module _ {P : Platform} {O : OpenApi} (C : Cluster P O) (files : Files) where
  abbrev pub HasFiles : Run C → Type 0
  HasFiles r = r.world.files ≡ files

  pub marks : Marks HasFiles
  marks r b s t i = i

  Keeps-edit : (f : _) → Keeps HasFiles (set_obj f)
  Keeps-edit f = Keeps-set_obj f (λ r i. i)

  pub Keeps-inner :
      {A : Type 0} {m : M (World P) A} → Keeps (IsWorldOf files) m → Keeps HasFiles (within m)
  unfolding within
  Keeps-inner h = record { at = λ r i. h.at r.world i }

  pub Keeps-api : {A : Type 0} (m : M P.Outside A) → Keeps HasFiles (api m)
  Keeps-api m = Keeps-inner (Keeps-outer files m)

  pub Keeps-read_objects : (p : FilePath) → Keeps (IsWorldOf files) (read_objects C p)
  unfolding read_objects
  Keeps-read_objects p = Keeps-then (Keeps-outer files _) (
      Keeps-bind (Keeps-gets _) λ node. Keeps-then (Keeps-from _) (
        Keeps-then (Keeps-open files p) (
          Keeps-deferring (Keeps-close files p) (
            Keeps-bind (Keeps-read files p)
              λ content. Keeps-bind (Keeps-from _) λ objects. Keeps-pure _))))

  Keeps-compare_installed :
      (name : String) (new_crd : _) (o : _)
      → Keeps (IsWorldOf files) (compare_installed C name new_crd o)
  unfolding compare_installed
  Keeps-compare_installed name new_crd (ok old) = Keeps-wrapping _ _ (Keeps-from _)
  Keeps-compare_installed name new_crd panic = Keeps-crash
  Keeps-compare_installed name new_crd (err e) =
      Keeps-either files (C.is_not_found e) (Keeps-pure _) (Keeps-fail _)

  Keeps-detect_object : (o : C.Object) → Keeps (IsWorldOf files) (detect_object C o)
  unfolding detect_object
  Keeps-detect_object o = Keeps-bind (Keeps-wrapping _ _ (Keeps-from _)) λ content.
      Keeps-bind (Keeps-wrapping _ _ (Keeps-from _)) λ new_crd.
        Keeps-bind (Keeps-attempt (Keeps-outer files _))
          λ found. Keeps-compare_installed _ new_crd found

  Keeps-detect_changes :
      (objects : List C.Object) (found : List String)
      → Keeps (IsWorldOf files) (detect_changes C objects found)
  unfolding detect_changes
  Keeps-detect_changes [] found = Keeps-pure _
  Keeps-detect_changes (o ∷ objects) found =
      Keeps-bind (Keeps-detect_object o) λ changes. Keeps-detect_changes objects _

  Keeps-count_names :
      (o : Option (Dict ℕ)) (names : List String) → Keeps HasFiles (count_names C o names)
  unfolding count_names
  Keeps-count_names none names = Keeps-pure _
  Keeps-count_names (some applied) names = Keeps-then (Keeps-edit _) (Keeps-pure _)

  Keeps-refuse_breaking :
      (b : Bool) (changes : List String) → Keeps HasFiles (refuse_breaking C b changes)
  unfolding refuse_breaking
  Keeps-refuse_breaking true changes = Keeps-pure _
  Keeps-refuse_breaking false changes = Keeps-then (Keeps-edit _) (Keeps-fail _)

  Keeps-gate_breaking : (changes : List String) → Keeps HasFiles (gate_breaking C changes)
  unfolding gate_breaking
  Keeps-gate_breaking [] = Keeps-pure _
  Keeps-gate_breaking (c ∷ changes) = Keeps-bind Keeps-get_obj λ obj. Keeps-refuse_breaking _ _

  Keeps-after_validation :
      (b : Bool) (o : Outcome (Unit {0})) → Keeps HasFiles (after_validation C b o)
  unfolding after_validation
  Keeps-after_validation b (ok _) = Keeps-pure _
  Keeps-after_validation true (err e) = Keeps-pure _
  Keeps-after_validation false (err e) = Keeps-then (Keeps-edit _) (Keeps-fail _)
  Keeps-after_validation b panic = Keeps-crash

  Keeps-apply_objects :
      (sm : C.Manager) (objects : List C.Object) (names : Dict ℕ) (revision : String)
      → Keeps HasFiles (apply_objects C sm objects names revision)
  unfolding apply_objects
  Keeps-apply_objects sm objects names revision = Keeps-then (Keeps-note _ (λ r i. i)) (
      Keeps-then (Keeps-marking marks _ _ (Keeps-wrapping _ _ (Keeps-api _))) (
        Keeps-then (Keeps-marking marks _ _ (Keeps-wrapping _ _ (Keeps-api _)))
          (Keeps-then (Keeps-edit _) (Keeps-finish marks))))

  pub Keeps-check_and_apply :
      (sm : C.Manager) (objects : List C.Object) (revision : String)
      → Keeps HasFiles (check_and_apply C sm objects revision)
  unfolding check_and_apply count_applied apply_checked gate_validation
  Keeps-check_and_apply sm objects revision =
      Keeps-bind (Keeps-bind Keeps-get_obj λ obj. Keeps-count_names _ _) λ names.
        Keeps-bind (Keeps-marking marks _ _ (Keeps-inner (Keeps-detect_changes objects [])))
          λ changes. Keeps-then (Keeps-edit _) (
            Keeps-then (Keeps-gate_breaking changes) (
              Keeps-then (Keeps-bind Keeps-get_obj λ obj. Keeps-after_validation _ _)
                (Keeps-apply_objects sm objects names revision)))
