-- ===== src/Controller/Safety.antt =====
-- What a run on an object that is not being deleted may ask the cluster for.
use crd_bootstrap.Base.{
  ℕ, String, ◌≡◌, refl, ap, ◌>>=◌, Bool, List, [], ◌∷◌, ◌++◌, ◌⊎◌, inl, inr, All,
}
use crd_bootstrap.Base.Dict.{Dict}
use crd_bootstrap.Api.{Bootstrap}
use crd_bootstrap.Platform.{Platform}
use crd_bootstrap.Breaking.{OpenApi}
use crd_bootstrap.Sources.{Contract}
use crd_bootstrap.Controller.{Cluster, Run, Call, applied, patched, within, get_obj, set_obj, note}
use crd_bootstrap.Controller.Objects.{validate_objects}
use crd_bootstrap.Controller.Keeps.{IsStable}
use crd_bootstrap.Controller.Checks.{IsLabelled, IsOwned, IsCompatible, IsValidated}
use crd_bootstrap.Controller.Update.{IsUpdate, update_object_lem}
use crd_bootstrap.Controller.Apply.{apply_objects_lem}
use crd_bootstrap.Controller.Reconcile.{
  add_finalizer, apply_objects, mark, observe, patch_observed, reconcile_live,
}

module _ {P : Platform} {O : OpenApi} {C : Cluster P O} where
  -- The writes of a run are one apply of checked objects, after those in `later`.
  pub record IsGuarded (owner : String) (later : List (Call C)) (r : Run C) : Type 0 where
    pub manager : C.Manager
    pub objects : List C.Object
    pub calls : r.calls ≡ later ++ applied manager objects ∷ []
    pub owned : All (IsOwned C owner) objects
    pub compatible : IsCompatible C r
    pub validated : IsValidated C objects r

module _ {P : Platform} {O : OpenApi} (C : Cluster P O) (owner : String) where
  abbrev IsQuiet : Run C → Type 0
  IsQuiet r = (r.calls ≡ []) × (r.obj.name ≡ owner)

  abbrev IsOrderly : Run C → Type 0
  IsOrderly r = (r.calls ≡ []) ⊎ IsGuarded owner [] r

  IsQuiet-stable : IsStable IsQuiet
  IsQuiet-stable = record { world = λ r w q. q; marks = λ r b s t q. q }

  IsGuarded-mark :
      (r : Run C) (b : Bool) (s t : String)
      → IsGuarded owner [] r
      → IsGuarded owner [] (record r { obj = mark C b s t r.obj })
  unfolding validate_objects
  IsGuarded-mark r b s t g = record {
    manager = g.manager;
    objects = g.objects;
    calls = g.calls;
    owned = g.owned;
    compatible = g.compatible;
    validated = g.validated;
  }

  IsOrderly-stable : IsStable IsOrderly
  IsOrderly-stable = record {
    world = λ r w q. elim q [
      | inl e ↦ inl e
      | inr g ↦ inr (record {
        manager = g.manager;
        objects = g.objects;
        calls = g.calls;
        owned = g.owned;
        compatible = g.compatible;
        validated = g.validated;
      })
    ];
    marks = λ r b s t q. elim q [ inl e ↦ inl e | inr g ↦ inr (IsGuarded-mark r b s t g) ];
  }

  -- Between the noted apply and the end.
  abbrev IsApplying : C.Manager → List C.Object → Run C → Type 0
  IsApplying sm objects r =
      (r.calls ≡ applied sm objects ∷ []) × IsCompatible C r × IsValidated C objects r

  IsApplying-stable : (sm : C.Manager) (objects : List C.Object) → IsStable (IsApplying sm objects)
  unfolding validate_objects
  IsApplying-stable sm objects = record { world = λ r w q. q; marks = λ r b s t q. (q.0, q.1, q.2) }

  apply_objects-IsOrderly :
      (sm : C.Manager) (objects : List C.Object) (names : Dict ℕ) (revision : String) (r : Run C)
      → All (IsOwned C owner) objects
      → IsCompatible C r
      → IsValidated C objects r
      → IsQuiet r
      → IsOrderly (apply_objects C sm objects names revision r).1
  unfolding validate_objects
  apply_objects-IsOrderly sm objects names revision r owned compatible validated quiet =
      apply_objects_lem (IsApplying-stable sm objects) IsOrderly-stable (λ r q. inr (guarded r q))
        sm objects names revision (λ r q. inr (guarded _ q)) r
        (ap (λ l. applied sm objects ∷ l) quiet.0, compatible, validated)
    where
      guarded : (s : Run C) → IsApplying sm objects s → IsGuarded owner [] s
      guarded s (calls, fits, valid) = record {
        manager = sm;
        objects = objects;
        calls = calls;
        owned = owned;
        compatible = fits;
        validated = valid;
      }

  pub IsUpdate-IsOrderly :
      (laws : IsLabelled C) (source_provider : Contract P) (default_service_account : String)
      → IsUpdate C laws source_provider default_service_account owner IsQuiet IsOrderly
          (λ _. Unit {0})
  IsUpdate-IsOrderly laws source_provider default_service_account = record {
    stable = IsQuiet-stable;
    stable_after = IsOrderly-stable;
    weaken = λ r q. inl q.0;
    name = λ r q. q.1;
    attempted = λ r _ q. q;
    counted = λ r _ q. q;
    breaking = λ r _ q. q;
    apply = λ sm objects names revision r owned _ compatible validated q.
        apply_objects-IsOrderly sm objects names revision r owned compatible validated q;
  }

module _ {P : Platform} {O : OpenApi} (C : Cluster P O) where
  patch_observed-IsOrderly :
      (owner : String) (before : Bootstrap) (s : Run C)
      → IsOrderly C owner s
      → let t = (patch_observed C before s).1 in
        (t.calls ≡ patched t.obj ∷ []) ⊎ IsGuarded owner (patched t.obj ∷ []) t
  unfolding patch_observed ◌>>=◌ get_obj set_obj note within validate_objects
  patch_observed-IsOrderly owner before s (inl e) = inl (ap (λ l. patched (observe s.obj) ∷ l) e)
  patch_observed-IsOrderly owner before s (inr g) = inr (record {
    manager = g.manager;
    objects = g.objects;
    calls = ap (λ l. patched (observe s.obj) ∷ l) g.calls;
    owned = g.owned;
    compatible = g.compatible;
    validated = g.validated;
  })

module _ {P : Platform} {O : OpenApi} (C : Cluster P O) (laws : IsLabelled C)
    (source_provider : Contract P) (default_service_account : String) where
  -- If labels that are set are read back and leave an object's kind alone, then a run on an object
  -- that is not being deleted deletes nothing. It ends by patching the object, and asks for at most
  -- one apply before that, of custom resource definitions whose one label is the owner's name; then
  -- the breaking changes in the status are none or are to be ignored, and the template accepts the
  -- objects or failures of it are to be ignored. This holds on every outcome, errors and panics
  -- included, for any source.
  pub reconcile_live-IsGuarded :
      (r : Run C)
      → r.calls ≡ []
      → let t = (reconcile_live C source_provider default_service_account r).1 in
        (t.calls ≡ patched t.obj ∷ []) ⊎ IsGuarded r.obj.name (patched t.obj ∷ []) t
  unfolding reconcile_live ◌>>=◌ get_obj set_obj
  reconcile_live-IsGuarded r e = patch_observed-IsOrderly C r.obj.name r.obj _ (
      update_object_lem C laws source_provider default_service_account r.obj.name
        (IsQuiet C r.obj.name) (IsOrderly C r.obj.name) (λ _. Unit {0})
        (IsUpdate-IsOrderly C r.obj.name laws source_provider default_service_account)
        (record r { obj = add_finalizer C r.obj }) (e, refl) (λ revision found. tt))
