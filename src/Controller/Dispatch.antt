-- ===== src/Controller/Dispatch.antt =====
-- What `Reconcile` as a whole may ask for, by what it finds.
use mathlib.Core.Path.{subst}
use crd_bootstrap.Base.{
  String, ◌≡◌, refl, sym, ◌⊎◌, Bool, true, false, none, some, Option, List, [], ◌∷◌, All, Outcome,
  ok, err, panic, resume, caught, M, Error, pure, fail, ◌>>=◌, if◌then◌else◌,
}
use crd_bootstrap.Base.Keeps.{Keeps, Keeps-bind, Keeps-then, Keeps-pure, Keeps-wrapping}
use crd_bootstrap.Api.{Bootstrap}
use crd_bootstrap.Platform.{Platform}
use crd_bootstrap.Platform.World.{outside}
use crd_bootstrap.Breaking.{OpenApi}
use crd_bootstrap.Sources.{Contract}
use crd_bootstrap.Controller.{Cluster, Run, Call, applied, deleted, patched, within, set_obj}
use crd_bootstrap.Controller.Keeps.{
  IsStable, Keeps-set_obj, Keeps-get_obj, Keeps-note, Keeps-within,
}
use crd_bootstrap.Controller.Checks.{IsLabelled}
use crd_bootstrap.Controller.Safety.{IsGuarded, reconcile_live-IsGuarded}
use crd_bootstrap.Controller.Delete.{
  patch_from, delete_items, prune_owned, delete_by, reconcile_delete,
}
use crd_bootstrap.Controller.Reconcile.{
  ReconcileResult, done, reconcile_live, delete_owned, reconcile_deleted, reconcile_found,
  reconcile,
}

module _ {P : Platform} {O : OpenApi} (C : Cluster P O) where
  abbrev pub IsNoApply : Call C → Type 0
  IsNoApply (applied _ _) = ⊥
  IsNoApply (deleted _) = Unit
  IsNoApply (patched _) = Unit

  abbrev AppliesNothing : Run C → Type 0
  AppliesNothing r = All IsNoApply r.calls

  AppliesNothing-stable : IsStable AppliesNothing
  AppliesNothing-stable = record { world = λ r w q. q; marks = λ r b s t q. q }

  Keeps-patch : (before : Bootstrap) → Keeps AppliesNothing (patch_from C before)
  Keeps-patch before =
      Keeps-bind Keeps-get_obj
        λ obj. Keeps-then (Keeps-note _ (λ r q. (tt, q))) (Keeps-within AppliesNothing-stable _)

  Keeps-delete_items : (items : List String) → Keeps AppliesNothing (delete_items C items)
  unfolding delete_items
  Keeps-delete_items [] = Keeps-pure _
  Keeps-delete_items (item ∷ items) = Keeps-then (Keeps-note _ (λ r q. (tt, q))) (
      Keeps-then (Keeps-wrapping _ _ (Keeps-within AppliesNothing-stable _))
        (Keeps-delete_items items))

  Keeps-delete_by : (b : Bool) (before : Bootstrap) → Keeps AppliesNothing (delete_by C b before)
  unfolding delete_by prune_owned
  Keeps-delete_by true before =
      Keeps-bind (Keeps-wrapping _ _ (Keeps-within AppliesNothing-stable _)) λ items.
        Keeps-then (Keeps-delete_items items)
          (Keeps-then (Keeps-set_obj _ (λ r q. q)) (Keeps-patch before))
  Keeps-delete_by false before = Keeps-then (Keeps-set_obj _ (λ r q. q)) (Keeps-patch before)

  Keeps-reconcile_delete : Keeps AppliesNothing (reconcile_delete C)
  unfolding reconcile_delete
  Keeps-reconcile_delete = Keeps-bind Keeps-get_obj λ before. Keeps-delete_by _ before

  -- The writes of a run on what was found, a deletion timestamp or none.
  abbrev pub IsInPlace : Bootstrap → Option String → Run C → Type 0
  IsInPlace obj none t =
      (t.calls ≡ patched t.obj ∷ []) ⊎ IsGuarded {C = C} obj.name (patched t.obj ∷ []) t
  IsInPlace obj (some _) t = All IsNoApply t.calls

  abbrev pub IsHandled : Outcome Bootstrap → Run C → Type 0
  IsHandled (ok obj) t = IsInPlace obj obj.deletion_timestamp t
  IsHandled (err e) t = t.calls ≡ []
  IsHandled panic t = t.calls ≡ []

module _ {P : Platform} {O : OpenApi} (C : Cluster P O) (laws : IsLabelled C)
    (source_provider : Contract P) (default_service_account : String) where
  Keeps-delete_owned :
      (b : Bool)
      → Keeps (AppliesNothing C) (delete_owned C source_provider default_service_account b)
  unfolding delete_owned
  Keeps-delete_owned false = Keeps-pure _
  Keeps-delete_owned true =
      Keeps-then (Keeps-wrapping _ _ (Keeps-reconcile_delete C)) (Keeps-pure _)

  Keeps-reconcile_deleted :
      Keeps (AppliesNothing C) (reconcile_deleted C source_provider default_service_account)
  unfolding reconcile_deleted
  Keeps-reconcile_deleted = Keeps-bind Keeps-get_obj λ obj. Keeps-delete_owned _

  found_lem :
      (obj : Bootstrap) (r : Run C) (o : Option String)
      → r.calls ≡ []
      → r.obj.name ≡ obj.name
      → IsInPlace C obj o
          ((elim o as (λ _. M (Run C) ReconcileResult) [
            | none ↦ reconcile_live C source_provider default_service_account
            | some _ ↦ reconcile_deleted C source_provider default_service_account
          ])
            r).1
  found_lem obj r none e same =
      let t : Run C = (reconcile_live C source_provider default_service_account r).1 in
      subst (λ n. (t.calls ≡ patched t.obj ∷ []) ⊎ IsGuarded {C = C} n (patched t.obj ∷ []) t) same
        (reconcile_live-IsGuarded C laws source_provider default_service_account r e)
  found_lem obj r (some _) e same =
      Keeps-reconcile_deleted.at r (subst (All (IsNoApply C)) (sym e) tt)

  missing_lem :
      (e : Error) (r : Run C) (b : Bool)
      → r.calls ≡ []
      → ((if◌then◌else◌ {A = M (Run C) ReconcileResult} b (pure done) (fail e)) r).1.calls ≡ []
  unfolding ◌>>=◌
  missing_lem e r true h = h
  missing_lem e r false h = h

  reconcile_lem :
      (r : Run C) (p : Outcome Bootstrap × P.Outside)
      → r.calls ≡ []
      → IsHandled C p.0
          (resume
            (reconcile_found C source_provider default_service_account)
            (caught p.0, record r { world = record r.world { outside = p.1 } })).1
  unfolding reconcile_found ◌>>=◌ set_obj
  reconcile_lem r (ok obj, s) e =
      found_lem obj (record r { world = record r.world { outside = s }; obj = obj })
        obj.deletion_timestamp e refl
  reconcile_lem r (err x, s) e = missing_lem x _ (C.is_not_found x) e
  reconcile_lem r (panic, s) e = e

  -- What a whole run of `Reconcile` asks for, if labels that are set are read back, and the run has
  -- asked for nothing so far. If the object is not found, or cannot be read, nothing is written. If
  -- it is not being deleted, nothing is deleted, and at most one apply of checked and labelled
  -- objects comes before the last patch. If it is being deleted, nothing is applied.
  pub reconcile-IsHandled :
      (name namespace : String) (r : Run C)
      → r.calls ≡ []
      → IsHandled C
          (C.get_bootstrap name namespace r.world.outside).0
          (reconcile C source_provider default_service_account name namespace r).1
  unfolding reconcile within outside ◌>>=◌
  reconcile-IsHandled name namespace r e =
      reconcile_lem r (C.get_bootstrap name namespace r.world.outside) e
