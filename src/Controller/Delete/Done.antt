-- ===== src/Controller/Delete/Done.antt =====
-- When a Bootstrap that is being deleted can go.
use crd_bootstrap.Base.{
  String, ◌≡◌, refl, sym, ap, Bool, true, false, List, [], ◌∷◌, ◌⊎◌, inl, inr, Outcome, ok, ◌>>=◌,
  ◌>>◌,
}
use crd_bootstrap.Api.{Bootstrap, owner_label_key}
use crd_bootstrap.Platform.{Platform}
use crd_bootstrap.Platform.World.{outside, set_outside}
use crd_bootstrap.Breaking.{OpenApi}
use crd_bootstrap.Controller.{Cluster, Run, patched, deleted, within, note, get_obj, set_obj}
use crd_bootstrap.Controller.Delete.{
  release, delete_items, delete_by, reconcile_delete, patch_from, finalizer,
}
use crd_bootstrap.Controller.Delete.Release.{deletions, DeletesAll}

module _ {P : Platform} {O : OpenApi} (C : Cluster P O) where
  -- The run has succeeded, with these deletions and then the patch that takes the finalizer off.
  pub record IsDone (items : List String) (r : Run C) (p : Outcome (Unit {0}) × Run C)
      : Type 0 where
    pub returned : p.0 ≡ ok tt
    pub calls : p.1.calls ≡ patched p.1.obj ∷ deletions C items r.calls
    pub finalizers : p.1.obj.finalizers ≡ C.remove_finalizer finalizer r.obj.finalizers

  -- The world after the deletions.
  abbrev after_all : List String → P.Outside → P.Outside
  after_all [] s = s
  after_all (item ∷ items) s = after_all items (C.delete_crd item s).1

  delete_items-ok :
      (items : List String) (r : Run C)
      → DeletesAll C items r.world.outside
      → delete_items C items r ≡ (
        ok tt,
        record r {
          world = set_outside r.world (after_all items r.world.outside);
          calls = deletions C items r.calls;
        },
      )
  unfolding delete_items ◌>>=◌ note within outside
  delete_items-ok [] r all = refl
  delete_items-ok (item ∷ items) r all = rw all.0 (
      delete_items-ok items
        (record r {
          world = set_outside r.world (C.delete_crd item r.world.outside).1;
          calls = deleted item ∷ r.calls;
        })
        all.1)

  -- The end of both ways.
  let_go :
      (items : List String) (r t : Run C)
      → ((a b : Bootstrap) (u : P.Outside) → (C.patch a b u).0 ≡ ok tt)
      → t.calls ≡ deletions C items r.calls
      → t.obj ≡ r.obj
      → IsDone items r ((set_obj (release C) >> patch_from C r.obj) t)
  unfolding ◌>>=◌ note within outside get_obj set_obj
  let_go items r t patches calls obj = record {
    returned = patches _ _ _;
    calls = ap (λ c. patched (release C t.obj) ∷ c) calls;
    finalizers = ap (λ o. C.remove_finalizer finalizer o.finalizers) obj;
  }

  pruned :
      (r : Run C) (items : List String) (s : P.Outside)
      → ((a b : Bootstrap) (u : P.Outside) → (C.patch a b u).0 ≡ ok tt)
      → C.list_crds owner_label_key r.obj.name r.world.outside ≡ (ok items, s)
      → DeletesAll C items s
      → IsDone items r (delete_by C true r.obj r)
  unfolding delete_by ◌>>=◌ within outside
  pruned r items s patches listed all =
      let start : Run C = record r { world = set_outside r.world s } in
      let end : Run C = record start {
        world = set_outside r.world (after_all items s);
        calls = deletions C items r.calls;
      } in
      rw (listed, delete_items-ok items start all) (let_go items r end patches refl refl)

  done :
      (r : Run C) (items : List String) (s : P.Outside) (b : Bool)
      → ((a b : Bootstrap) (u : P.Outside) → (C.patch a b u).0 ≡ ok tt)
      → ((b ≡ false) × (items ≡ []))
        ⊎ ((b ≡ true)
            × (C.list_crds owner_label_key r.obj.name r.world.outside ≡ (ok items, s))
            × DeletesAll C items s)
      → IsDone items r (delete_by C b r.obj r)
  unfolding delete_by
  done r items s false patches (inl (_, e)) =
      let_go items r r patches (ap (λ l. deletions C l r.calls) (sym e)) refl
  done r items s true patches (inl (e, _)) = cc
  done r items s true patches (inr (_, listed, all)) = pruned r items s patches listed all
  done r items s false patches (inr (e, _, _)) = cc

  -- If patches do not fail, and either the spec does not ask for pruning, or it does and the objects
  -- with the owner's label can be listed and each of them deleted, then the run on a Bootstrap that
  -- is being deleted succeeds. With pruning it asks for exactly these deletions, in the order of the
  -- list; without, it deletes nothing. Then it asks for the patch, which takes the finalizer off.
  pub reconcile_delete-IsDone :
      (r : Run C) (items : List String) (s : P.Outside)
      → ((a b : Bootstrap) (u : P.Outside) → (C.patch a b u).0 ≡ ok tt)
      → ((r.obj.spec.prune ≡ false) × (items ≡ []))
        ⊎ ((r.obj.spec.prune ≡ true)
            × (C.list_crds owner_label_key r.obj.name r.world.outside ≡ (ok items, s))
            × DeletesAll C items s)
      → IsDone items r (reconcile_delete C r)
  unfolding reconcile_delete get_obj ◌>>=◌
  reconcile_delete-IsDone r items s patches h = done r items s r.obj.spec.prune patches h
