-- ===== src/Controller/Progress.antt =====
-- What a run on an object that is not being deleted records in the object.
use crd_bootstrap.Base.{String, ◌≡◌, refl, List, ◌∷◌, ◌⊎◌, inl, inr, ◌∙◌, ◌>>=◌}
use crd_bootstrap.Api.{Bootstrap}
use crd_bootstrap.Platform.{Platform}
use crd_bootstrap.Breaking.{OpenApi}
use crd_bootstrap.Sources.{Contract}
use crd_bootstrap.Controller.{Cluster, Run, Call, patched, within, get_obj, set_obj, note}
use crd_bootstrap.Controller.Keeps.{IsStable}
use crd_bootstrap.Controller.Checks.{IsLabelled}
use crd_bootstrap.Controller.Update.{IsUpdate, update_object_lem}
use crd_bootstrap.Controller.Advance.{recorded, IsUpdated}
use crd_bootstrap.Controller.Advance.Stages
use crd_bootstrap.Controller.Apply.{apply_objects_lem}
use crd_bootstrap.Controller.Delete.{finalizer}
use crd_bootstrap.Controller.Reconcile.{
  add_finalizer, patch_observed, update_object, reconcile_live,
}

module _ {P : Platform} {O : OpenApi} (C : Cluster P O) where
  -- The parts of the object that no step changes.
  pub record IsSameObject (obj : Bootstrap) (r : Run C) : Type 0 where
    pub name : r.obj.name ≡ obj.name
    pub namespace : r.obj.namespace ≡ obj.namespace
    pub generation : r.obj.generation ≡ obj.generation
    pub finalizers : r.obj.finalizers ≡ obj.finalizers
    pub spec : r.obj.spec ≡ obj.spec

  IsSameObject-edit :
      {obj : Bootstrap} {r s : Run C}
      → IsSameObject obj r
      → s.obj.name ≡ r.obj.name
      → s.obj.namespace ≡ r.obj.namespace
      → s.obj.generation ≡ r.obj.generation
      → s.obj.finalizers ≡ r.obj.finalizers
      → s.obj.spec ≡ r.obj.spec
      → IsSameObject obj s
  IsSameObject-edit q a b c d e = record {
    name = a ∙ q.name;
    namespace = b ∙ q.namespace;
    generation = c ∙ q.generation;
    finalizers = d ∙ q.finalizers;
    spec = e ∙ q.spec;
  }

  IsSameObject-stable : (obj : Bootstrap) → IsStable (IsSameObject obj)
  IsSameObject-stable obj = record {
    world = λ r w q. IsSameObject-edit q refl refl refl refl refl;
    marks = λ r b s t q. IsSameObject-edit q refl refl refl refl refl;
  }

  IsUpdate-same :
      (laws : IsLabelled C) (source_provider : Contract P) (default_service_account : String)
      (obj : Bootstrap)
      → IsUpdate C laws source_provider default_service_account obj.name
          (IsSameObject obj)
          (IsSameObject obj)
          (λ _. Unit {0})
  IsUpdate-same laws source_provider default_service_account obj = record {
    stable = IsSameObject-stable obj;
    stable_after = IsSameObject-stable obj;
    weaken = λ r q. q;
    name = λ r q. q.name;
    attempted = λ r _ q. IsSameObject-edit q refl refl refl refl refl;
    counted = λ r _ q. IsSameObject-edit q refl refl refl refl refl;
    breaking = λ r _ q. IsSameObject-edit q refl refl refl refl refl;
    apply = λ sm objects names revision r _ _ _ _ q.
        apply_objects_lem (IsSameObject-stable obj) (IsSameObject-stable obj) (λ s p. p) sm objects
          names revision (λ s p. IsSameObject-edit p refl refl refl refl refl) r
          (IsSameObject-edit q refl refl refl refl refl);
  }

module _ {P : Platform} {O : OpenApi} (C : Cluster P O) (laws : IsLabelled C)
    (source_provider : Contract P) (default_service_account : String) where
  -- If labels that are set are read back, then, whatever the outcome, the last write that a run on
  -- an object which is not being deleted asks for is a patch to the object as it then is: it has
  -- the finalizer, its observed generation is its generation, and its name, namespace and spec are
  -- those that were read.
  pub reconcile_live-patched :
      (r : Run C)
      → let t = (reconcile_live C source_provider default_service_account r).1 in
        (calls : List (Call C)) × (t.calls ≡ patched t.obj ∷ calls)
        × (t.obj.finalizers ≡ C.add_finalizer finalizer r.obj.finalizers)
        × (t.obj.status.observed_generation ≡ r.obj.generation)
        × (t.obj.name ≡ r.obj.name)
        × (t.obj.namespace ≡ r.obj.namespace)
        × (t.obj.spec ≡ r.obj.spec)
  unfolding reconcile_live patch_observed ◌>>=◌ get_obj set_obj note within
  reconcile_live-patched r =
      (_, refl, same.finalizers, same.generation, same.name, same.namespace, same.spec)
    where
      start : Run C
      start = record r { obj = add_finalizer C r.obj }

      same :
          IsSameObject C start.obj (update_object C source_provider default_service_account start).1
      same =
          update_object_lem C laws source_provider default_service_account r.obj.name
            (IsSameObject C start.obj) (IsSameObject C start.obj) (λ _. Unit {0})
            (IsUpdate-same C laws source_provider default_service_account start.obj) start
            (record {
              name = refl;
              namespace = refl;
              generation = refl;
              finalizers = refl;
              spec = refl;
            })
            (λ revision found. tt)

module _ {P : Platform} {O : OpenApi} (C : Cluster P O) (source_provider : Contract P)
    (account : String) where
  -- An update of the run's source, with its own writes, and then the patch.
  pub record IsAdvanced (r t : Run C) : Type 0 where
    pub calls : List (Call C)
    pub patches : t.calls ≡ patched t.obj ∷ calls
    pub updates :
        IsUpdated C source_provider account
          (add_finalizer C r.obj)
          r.world
          r.calls
          calls
          (recorded C t)

  -- Whatever the outcome, a run on an object that is not being deleted leaves the last applied
  -- revision alone, or it has made a whole update: each step succeeded in the state that the one
  -- before it left. The source said that there is an update to this revision; a directory was made
  -- and the CRDs of the revision fetched to it; the manager was made for the object; the CRDs read
  -- from the file were labelled and compared with the installed ones; and this manager applied
  -- exactly them, and then waited for them. The apply and the patch are then the run's only writes.
  pub reconcile_live-IsAdvanced :
      (r : Run C)
      → let t = (reconcile_live C source_provider account r).1 in
        (recorded C t ≡ recorded C r) ⊎ IsAdvanced r t
  unfolding reconcile_live patch_observed ◌>>=◌ get_obj set_obj note within
  reconcile_live-IsAdvanced r =
      elim (Stages.update_object_lem C source_provider account (recorded C r) HasProgressed
        (λ s e. inl e) start refl (λ s done. inr done)) [
          | inl same ↦ inl same
          | inr done ↦ inr (record { calls = _; patches = refl; updates = done })
        ]
    where
      start : Run C
      start = record r { obj = add_finalizer C r.obj }

      HasProgressed : Run C → Type 0
      HasProgressed s =
          (recorded C s ≡ recorded C r)
          ⊎ IsUpdated C source_provider account start.obj r.world r.calls s.calls (recorded C s)
