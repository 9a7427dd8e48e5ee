-- ===== src/Controller/Reconcile.antt =====
-- `Reconcile` of internal/controller/bootstrap_controller.go.
use crd_bootstrap.Base.{
  ℕ, String, ◌<>◌, Bool, true, false, none, some, List, [], ◌∷◌, map, Outcome, ok, err, panic, wrap,
  msg, M, pure, fail, crash, attempt, wrapping, deferring, ◌>>=◌, ◌>>◌, if◌then◌else◌,
}
use crd_bootstrap.Base.Dict.{Dict}
use crd_bootstrap.Base.FilePath.{FilePath}
use crd_bootstrap.Api.{Bootstrap, get_requeue_after}
use crd_bootstrap.Platform.{Platform}
use crd_bootstrap.Platform.Os.{mkdir_temp, remove_tree}
use crd_bootstrap.Breaking.{OpenApi}
use crd_bootstrap.Sources.{Contract}
use crd_bootstrap.Controller.{Cluster, Run, applied, within, api, note, get_obj, set_obj}
use crd_bootstrap.Controller.Objects.{
  read_objects, label, count_applied, detect_changes, validate_objects, new_resource_manager,
}
use crd_bootstrap.Controller.Delete.{finalizer, patch_from, reconcile_delete}

-- `ctrl.Result`; zero means that there is no wish to be called again.
pub record ReconcileResult : Type 0 where
  pub requeue_after : ℕ

abbrev pub done : ReconcileResult
done = record { requeue_after = 0 }

abbrev pub succeeded : String
succeeded = "Succeeded"

abbrev pub set_attempted : String → Bootstrap → Bootstrap
set_attempted revision obj = record obj {
  status = record obj.status { last_attempted_revision = revision };
}

abbrev pub set_breaking : List String → Bootstrap → Bootstrap
set_breaking changes obj = record obj { status = record obj.status { breaking_changes = changes } }

abbrev pub set_applied : Dict ℕ → String → Bootstrap → Bootstrap
set_applied names revision obj = record obj {
  status = record obj.status {
    last_applied_crd_names = some names;
    last_applied_revision = revision;
  };
}

abbrev pub observe : Bootstrap → Bootstrap
observe obj = record obj { status = record obj.status { observed_generation = obj.generation } }

module _ {P : Platform} {O : OpenApi} (C : Cluster P O) where
  abbrev pub mark : Bool → String → String → Bootstrap → Bootstrap
  mark ready reason message obj = record obj {
    status = record obj.status {
      conditions = C.mark_ready ready reason message obj.status.conditions;
    };
  }

  abbrev pub add_finalizer : Bootstrap → Bootstrap
  add_finalizer obj = record obj { finalizers = C.add_finalizer finalizer obj.finalizers }

  -- The deferred patch.
  unfoldable pub patch_observed : Bootstrap → M (Run C) (Unit {0})
  patch_observed before = do set_obj observe; patch_from C before

  -- `if err != nil { MarkFalse(obj, reason, text + err); return fmt.Errorf(text, err) }`
  unfoldable pub fail_marked : {A : Type 0} → String → String → Outcome A → M (Run C) A
  fail_marked reason text (ok a) = pure a
  fail_marked reason text (err e) = do
    set_obj (mark false reason (text <> ": " <> C.show_error e))
    fail (wrap text [] e)
  fail_marked reason text panic = crash

  unfoldable pub marking : {A : Type 0} → String → String → M (Run C) A → M (Run C) A
  marking reason text m = do o ← attempt m; fail_marked reason text o

  -- Ready, and the wish to be called again after the interval.
  unfoldable pub finish : M (Run C) ReconcileResult
  unfolding get_requeue_after
  finish = do
    set_obj (mark true succeeded "Successfully applied crd(s)")
    obj ← get_obj
    pure (record { requeue_after = get_requeue_after obj })

  unfoldable pub refuse_breaking : Bool → List String → M (Run C) (Unit {0})
  refuse_breaking true changes = pure tt
  refuse_breaking false changes = do
    set_obj (mark false "BreakingChangeDetected" "breaking schema changes detected")
    fail (msg "breaking schema changes detected" changes)

  -- Breaking changes stop the update unless the spec says to ignore them.
  unfoldable pub gate_breaking : List String → M (Run C) (Unit {0})
  unfolding refuse_breaking
  gate_breaking [] = pure tt
  gate_breaking (c ∷ changes) = do
    obj ← get_obj
    refuse_breaking obj.spec.ignore_breaking_changes (c ∷ changes)

  -- So does a failed validation, with its error as it is.
  unfoldable pub after_validation : Bool → Outcome (Unit {0}) → M (Run C) (Unit {0})
  after_validation goes_on (ok _) = pure tt
  after_validation true (err e) = pure tt
  after_validation false (err e) = do
    set_obj (
        mark false "CRDValidationFailed"
          ("validation failed to on the crd template" <> ": " <> C.show_error e))
    fail e
  after_validation goes_on panic = crash

  unfoldable pub gate_validation : List C.Object → M (Run C) (Unit {0})
  unfolding validate_objects after_validation
  gate_validation objects = do
    obj ← get_obj
    after_validation obj.spec.continue_on_validation_error (validate_objects C obj objects)

  -- From the apply on.
  unfoldable pub apply_objects :
      C.Manager → List C.Object → Dict ℕ → String → M (Run C) ReconcileResult
  unfolding finish
  apply_objects sm objects names revision = do
    note (applied sm objects)
    marking "ApplyingCRDSFailed" "failed to apply all stages"
        (wrapping "failed to apply manifests" [] (api (C.apply_all_staged sm objects)))
    marking "WaitingOnObjectsFailed" "failed to wait for applied objects"
        (wrapping "failed to wait for objects to be ready" [] (api (C.wait sm objects)))
    set_obj (set_applied names revision)
    finish

  -- The two checks on what the detection has found, and the apply.
  unfoldable pub apply_checked :
      C.Manager → List C.Object → Dict ℕ → String → List String → M (Run C) ReconcileResult
  unfolding gate_breaking gate_validation apply_objects
  apply_checked sm objects names revision changes = do
    set_obj (set_breaking changes)
    gate_breaking changes
    gate_validation objects
    apply_objects sm objects names revision

  unfoldable pub check_and_apply : C.Manager → List C.Object → String → M (Run C) ReconcileResult
  unfolding count_applied detect_changes apply_checked
  check_and_apply sm objects revision = do
    names ← count_applied C objects
    changes ←
        marking "BreakingChangeDetectionFailed" "failed to detect breaking changes"
          (within (detect_changes C objects []))
    apply_checked sm objects names revision changes

module _ {P : Platform} {O : OpenApi} (C : Cluster P O) (source_provider : Contract P)
    (default_service_account : String) where
  -- From the point where the temporary directory is sure to be removed.
  unfoldable pub install_from : FilePath → String → M (Run C) ReconcileResult
  unfolding new_resource_manager read_objects label check_and_apply
  install_from location revision = do
    obj ← get_obj
    sm ←
        marking C "ResourceManagerCreateFailed" "failed to create resource manager"
          (new_resource_manager C default_service_account obj)
    objects ←
        marking C "ReadingObjectsToApplyFailed" "failed to construct objects to apply"
          (within (read_objects C location))
    check_and_apply C sm (map (label C obj.name) objects) revision

  unfoldable pub install : String → M (Run C) ReconcileResult
  unfolding mkdir_temp remove_tree install_from
  install revision = do
    set_obj (set_attempted revision)
    temp ←
        marking C "TempFolderFailedToCreate" "failed to create temp directory"
          (within (mkdir_temp "crd"))
    obj ← get_obj
    location ←
        marking C "CRDFetchFailed" "failed to fetch source"
          (within (source_provider.fetch_crd temp obj revision))
    deferring (within (remove_tree temp)) (install_from location revision)

  unfoldable pub proceed : Bool × String → M (Run C) ReconcileResult
  unfolding finish install
  proceed (false, revision) = finish C
  proceed (true, revision) = install revision

  unfoldable pub update_object : M (Run C) ReconcileResult
  unfolding proceed
  update_object = do
    obj ← get_obj
    found ← wrapping "failed to check version" [] (within (source_provider.has_update obj))
    proceed found

  unfoldable pub reconcile_live : M (Run C) ReconcileResult
  unfolding patch_observed update_object
  reconcile_live = do
    before ← get_obj
    set_obj (add_finalizer C)
    deferring (patch_observed C before) update_object

  unfoldable pub delete_owned : Bool → M (Run C) ReconcileResult
  unfolding reconcile_delete
  delete_owned false = pure done
  delete_owned true = do wrapping "failed to delete bootstrap" [] (reconcile_delete C); pure done

  unfoldable pub reconcile_deleted : M (Run C) ReconcileResult
  unfolding delete_owned
  reconcile_deleted = do obj ← get_obj; delete_owned (C.contains_finalizer finalizer obj.finalizers)

  unfoldable pub reconcile_found : Outcome Bootstrap → M (Run C) ReconcileResult
  unfolding reconcile_live reconcile_deleted
  reconcile_found (err e) = if C.is_not_found e then pure done else fail e
  reconcile_found panic = crash
  reconcile_found (ok obj) = do
    set_obj (λ _. obj)
    elim obj.deletion_timestamp [ none ↦ reconcile_live | some _ ↦ reconcile_deleted ]

  unfoldable pub reconcile : String → String → M (Run C) ReconcileResult
  unfolding reconcile_found
  reconcile name namespace = do
    found ← attempt (api (C.get_bootstrap name namespace))
    reconcile_found found
