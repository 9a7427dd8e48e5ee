-- ===== src/Controller/Counting.antt =====
-- The counts of applied CRDs in the status.
pub mod Words
use crd_bootstrap.Base.{
  ℕ, String, ◌≡◌, refl, ◌∙◌, none, some, Option, List, [], map, M, Outcome, Error, ok, err, panic,
  resume, caught, ◌>>=◌,
}
use crd_bootstrap.Base.Dict.{Dict}
use crd_bootstrap.Platform.{Platform}
use crd_bootstrap.Platform.World.{World}
use crd_bootstrap.Breaking.{OpenApi}
use crd_bootstrap.Controller.{Cluster, Run, within, get_obj, set_obj}
use crd_bootstrap.Controller.Objects.{
  increment_all, set_names, count_names, count_applied, detect_changes,
}
use crd_bootstrap.Controller.Reconcile.{marking, fail_marked, apply_checked, check_and_apply}

module _ {P : Platform} {O : OpenApi} (C : Cluster P O) where
  -- The counts in the status once the objects have been counted: those that were nil stay nil.
  abbrev pub counted : Option (Dict ℕ) → List String → Option (Dict ℕ)
  counted none names = none
  counted (some applied) names = some (increment_all names applied)

  detection_failed :
      {A : Type 0} (k : List String → M (Run C) A) (s t : String)
      (p : Outcome (List String) × World P) (e : Error) (r : Run C)
      → p.0 ≡ err e
      → (resume k (
          resume
            (fail_marked C s t)
            (caught p.0, record r { world = p.1 }))).1.obj.status.last_applied_crd_names
        ≡ r.obj.status.last_applied_crd_names
  unfolding fail_marked set_obj ◌>>=◌
  detection_failed k s t (ok x, w) e r h = cc
  detection_failed k s t (err x, w) e r h = refl
  detection_failed k s t (panic, w) e r h = cc

  counting :
      (sm : C.Manager) (objects : List C.Object) (revision : String) (e : Error) (r : Run C)
      (o : Option (Dict ℕ))
      → r.obj.status.last_applied_crd_names ≡ o
      → (detect_changes C objects [] r.world).0 ≡ err e
      → (resume
          (λ names.
            marking C "BreakingChangeDetectionFailed" "failed to detect breaking changes"
              (within (detect_changes C objects []))
            >>= λ changes. apply_checked C sm objects names revision changes)
          (count_names C o (map C.get_name objects) r)).1.obj.status.last_applied_crd_names
        ≡ counted o (map C.get_name objects)
  unfolding count_names set_obj within marking ◌>>=◌
  counting sm objects revision e r none start failed =
      detection_failed _ _ _ (detect_changes C objects [] r.world) e r failed ∙ start
  counting sm objects revision e r (some applied) start failed =
      detection_failed _ _ _ (detect_changes C objects [] r.world) e
        (record r { obj = set_names (increment_all (map C.get_name objects) applied) r.obj }) failed

  -- The local map of counts is the status's own map unless that is nil. So if the detection of
  -- breaking changes fails, and nothing is applied, the counts of all objects of the failed update
  -- have still gone up in the status, unless the status had no counts.
  pub check_and_apply-counted :
      (sm : C.Manager) (objects : List C.Object) (revision : String) (e : Error) (r : Run C)
      → (detect_changes C objects [] r.world).0 ≡ err e
      → (check_and_apply C sm objects revision r).1.obj.status.last_applied_crd_names
        ≡ counted r.obj.status.last_applied_crd_names (map C.get_name objects)
  unfolding check_and_apply count_applied get_obj ◌>>=◌
  check_and_apply-counted sm objects revision e r failed =
      counting sm objects revision e r r.obj.status.last_applied_crd_names refl failed
