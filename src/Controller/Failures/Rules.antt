-- ===== src/Controller/Failures/Rules.antt =====
-- The stages of an update that mark the object before they return an error.
use crd_bootstrap.Base.{
  ℕ, Option, none, some, String, List, [], ◌∷◌, ◌≡◌, refl, Bool, true, false, M, Outcome, Error, ok,
  err, panic, resume, caught, ◌>>=◌,
}
use crd_bootstrap.Base.Dict.{Dict}
use crd_bootstrap.Base.FilePath.{FilePath}
use crd_bootstrap.Base.Fails.{Fails, Fails-bind, Fails-pure, Fails-crash}
use crd_bootstrap.Api.{Bootstrap, Condition}
use crd_bootstrap.Platform.{Platform, remove_all}
use crd_bootstrap.Platform.Keeps.{remove_tree-ok}
use crd_bootstrap.Platform.Os.{remove_tree}
use crd_bootstrap.Breaking.{OpenApi}
use crd_bootstrap.Controller.{Cluster, Run, Call, get_obj, set_obj, note, within}
use crd_bootstrap.Controller.Objects.{count_names, count_applied}
use crd_bootstrap.Controller.Reconcile.{
  fail_marked, marking, finish, refuse_breaking, gate_breaking, after_validation, gate_validation,
  apply_objects, apply_checked, check_and_apply,
}

module _ {P : Platform} {O : OpenApi} (C : Cluster P O) where
  -- The last mark says that the object is not ready.
  pub record IsUnready (r : Run C) : Type 0 where
    pub reason : String
    pub message : String
    pub before : List Condition
    pub marked : r.obj.status.conditions ≡ C.mark_ready false reason message before

  -- Nobody has marked the object, since the question for an update has failed.
  abbrev pub IsUnanswered : Outcome (Bool × String) → Run C → Run C → Type 0
  IsUnanswered o r t =
      (x : Error) × (o ≡ err x) × (t.obj.status.conditions ≡ r.obj.status.conditions)

module _ {P : Platform} {O : OpenApi} {C : Cluster P O} where
  Fails-fail_marked :
      {A : Type 0} (s t : String) (o : Outcome A) → Fails (IsUnready C) (fail_marked C s t o)
  unfolding fail_marked set_obj ◌>>=◌
  Fails-fail_marked s t (ok a) = Fails-pure a
  Fails-fail_marked s t (err x) = record {
    at = λ r e h. record {
      reason = s;
      message = _;
      before = r.obj.status.conditions;
      marked = refl;
    };
  }
  Fails-fail_marked s t panic = Fails-crash

  marking_resume :
      {A : Type 0} (s t : String) (p : Outcome A × Run C) (e : Error)
      → (resume (fail_marked C s t) (caught p.0, p.1)).0 ≡ err e
      → IsUnready C (resume (fail_marked C s t) (caught p.0, p.1)).1
  marking_resume s t (ok a, r) e h = (Fails-fail_marked s t (ok a)).at r e h
  marking_resume s t (err x, r) e h = (Fails-fail_marked s t (err x)).at r e h
  marking_resume s t (panic, r) e h = cc

  pub Fails-marking :
      {A : Type 0} (s t : String) (m : M (Run C) A) → Fails (IsUnready C) (marking C s t m)
  unfolding marking ◌>>=◌
  Fails-marking s t m = record { at = λ r. marking_resume s t (m r) }

  pub Fails-get_obj : Fails (IsUnready C) (get_obj {C = C})
  unfolding get_obj
  Fails-get_obj = record { at = λ r e h. cc }

  pub Fails-set_obj : (f : Bootstrap → Bootstrap) → Fails (IsUnready C) (set_obj {C = C} f)
  unfolding set_obj
  Fails-set_obj f = record { at = λ r e h. cc }

  Fails-note : (c : Call C) → Fails (IsUnready C) (note c)
  unfolding note
  Fails-note c = record { at = λ r e h. cc }

  Fails-refuse_breaking :
      (b : Bool) (changes : List String) → Fails (IsUnready C) (refuse_breaking C b changes)
  unfolding refuse_breaking set_obj ◌>>=◌
  Fails-refuse_breaking true changes = Fails-pure tt
  Fails-refuse_breaking false changes = record {
    at = λ r e h. record {
      reason = _;
      message = _;
      before = r.obj.status.conditions;
      marked = refl;
    };
  }

  Fails-gate_breaking : (changes : List String) → Fails (IsUnready C) (gate_breaking C changes)
  unfolding gate_breaking
  Fails-gate_breaking [] = Fails-pure tt
  Fails-gate_breaking (c ∷ changes) =
      Fails-bind Fails-get_obj
        λ obj. Fails-refuse_breaking obj.spec.ignore_breaking_changes (c ∷ changes)

  Fails-after_validation :
      (b : Bool) (o : Outcome (Unit {0})) → Fails (IsUnready C) (after_validation C b o)
  unfolding after_validation set_obj ◌>>=◌
  Fails-after_validation b (ok _) = Fails-pure tt
  Fails-after_validation true (err e) = Fails-pure tt
  Fails-after_validation false (err e) = record {
    at = λ r x h. record {
      reason = _;
      message = _;
      before = r.obj.status.conditions;
      marked = refl;
    };
  }
  Fails-after_validation b panic = Fails-crash

  Fails-gate_validation :
      (objects : List C.Object) → Fails (IsUnready C) (gate_validation C objects)
  unfolding gate_validation
  Fails-gate_validation objects = Fails-bind Fails-get_obj λ obj. Fails-after_validation _ _

  pub Fails-finish : Fails (IsUnready C) (finish C)
  unfolding finish
  Fails-finish = Fails-bind (Fails-set_obj _) λ _. Fails-bind Fails-get_obj λ obj. Fails-pure _

  Fails-apply_checked :
      (sm : C.Manager) (objects : List C.Object) (names : Dict ℕ) (revision : String)
      (changes : List String)
      → Fails (IsUnready C) (apply_checked C sm objects names revision changes)
  unfolding apply_checked apply_objects
  Fails-apply_checked sm objects names revision changes = Fails-bind (Fails-set_obj _) λ _.
      Fails-bind (Fails-gate_breaking changes) λ _. Fails-bind (Fails-gate_validation objects) λ _.
        Fails-bind (Fails-note _) λ _.
          Fails-bind (Fails-marking _ _ _) λ _.
            Fails-bind (Fails-marking _ _ _) λ _. Fails-bind (Fails-set_obj _) λ _. Fails-finish

  Fails-count_names :
      (o : Option (Dict ℕ)) (names : List String) → Fails (IsUnready C) (count_names C o names)
  unfolding count_names
  Fails-count_names none names = Fails-pure _
  Fails-count_names (some applied) names = Fails-bind (Fails-set_obj _) λ _. Fails-pure _

  pub Fails-check_and_apply :
      (sm : C.Manager) (objects : List C.Object) (revision : String)
      → Fails (IsUnready C) (check_and_apply C sm objects revision)
  unfolding check_and_apply count_applied
  Fails-check_and_apply sm objects revision =
      Fails-bind (Fails-bind Fails-get_obj λ obj. Fails-count_names _ _) λ names.
        Fails-bind (Fails-marking _ _ _)
          λ changes. Fails-apply_checked sm objects names revision changes

  pub removed :
      (temp : FilePath)
      → ((p : FilePath) (s : P.Outside) → (P.os_call (remove_all p) s).0 ≡ ok tt)
      → (r : Run C) → (within {C = C} (remove_tree temp) r).0 ≡ ok tt
  unfolding within
  removed temp removes r = remove_tree-ok temp r.world (removes temp _)

  pub kept :
      (temp : FilePath) (r : Run C)
      → IsUnready C r
      → IsUnready C (within {C = C} (remove_tree temp) r).1
  unfolding within
  kept temp r q = record {
    reason = q.reason;
    message = q.message;
    before = q.before;
    marked = q.marked;
  }
