-- ===== src/Controller/Delete/Release.antt =====
-- When a Bootstrap that is being deleted is let go.
use mathlib.Core.Path.{subst}
use mathlib.Core.List.{append-nil}
use crd_bootstrap.Base.{
  String, ◌≡◌, refl, sym, ap, ◌∙◌, Bool, true, false, List, [], ◌∷◌, ◌++◌, ◌⊎◌, inl, inr, Outcome,
  ok, err, panic, resume, wrap, map_err, ◌>>=◌, ◌>>◌,
}
use crd_bootstrap.Api.{owner_label_key}
use crd_bootstrap.Platform.{Platform}
use crd_bootstrap.Platform.World.{outside, set_outside}
use crd_bootstrap.Breaking.{OpenApi}
use crd_bootstrap.Controller.{Cluster, Run, Call, deleted, patched, within, note, get_obj, set_obj}
use crd_bootstrap.Controller.Delete.{
  release, delete_items, delete_by, reconcile_delete, patch_from, finalizer,
}

module _ {P : Platform} {O : OpenApi} (C : Cluster P O) where
  -- The deletions of the items, asked for one after the other; the last one stands first.
  abbrev pub deletions : List String → List (Call C) → List (Call C)
  deletions [] calls = calls
  deletions (item ∷ items) calls = deletions items (deleted item ∷ calls)

  -- From a state of the world on, each deletion succeeds.
  abbrev pub DeletesAll : List String → P.Outside → Type 0
  DeletesAll [] s = Unit
  DeletesAll (item ∷ items) s =
      ((C.delete_crd item s).0 ≡ ok tt) × DeletesAll items (C.delete_crd item s).1

  -- What the loop has done: some deletions, or all of them and each with success.
  pub record IsLoop (items : List String) (r : Run C) (p : Outcome (Unit {0}) × Run C)
      : Type 0 where
    pub asked : List String
    pub left : List String
    pub split : items ≡ asked ++ left
    pub calls : p.1.calls ≡ deletions asked r.calls
    pub obj : p.1.obj ≡ r.obj
    pub complete : p.0 ≡ ok tt → (left ≡ []) × DeletesAll items r.world.outside

  delete_items_lem : (items : List String) (r : Run C) → IsLoop items r (delete_items C items r)
  unfolding delete_items ◌>>=◌ note within outside
  delete_items_lem [] r = record {
    asked = [];
    left = [];
    split = refl;
    calls = refl;
    obj = refl;
    complete = λ e. (refl, tt);
  }
  delete_items_lem (item ∷ items) r =
      step (C.delete_crd item r.world.outside) refl (λ s. delete_items_lem items (after s))
    where
      after : P.Outside → Run C
      after s = record r { world = set_outside r.world s; calls = deleted item ∷ r.calls }

      step :
          (p : Outcome (Unit {0}) × P.Outside)
          → C.delete_crd item r.world.outside ≡ p
          → ((s : P.Outside) → IsLoop items (after s) (delete_items C items (after s)))
          → IsLoop (item ∷ items) r (
              resume
                (λ _. delete_items C items)
                (map_err (wrap "failed to delete object with name" (item ∷ [])) p.0, after p.1))
      step (ok u, s) e rest = record {
        asked = item ∷ (rest s).asked;
        left = (rest s).left;
        split = ap (λ l. item ∷ l) (rest s).split;
        calls = (rest s).calls;
        obj = (rest s).obj;
        complete = λ c.
            let (none_left, all) = (rest s).complete c in
            (none_left, (ap (λ q. q.0) e, subst (DeletesAll items) (ap (λ q. q.1) (sym e)) all));
      }
      step (err x, s) e rest = record {
        asked = item ∷ [];
        left = items;
        split = refl;
        calls = refl;
        obj = refl;
        complete = λ c. cc;
      }
      step (panic, s) e rest = record {
        asked = item ∷ [];
        left = items;
        split = refl;
        calls = refl;
        obj = refl;
        complete = λ c. cc;
      }

  -- The object is as it was, and nothing was patched.
  pub record IsKept (r t : Run C) : Type 0 where
    pub asked : List String
    pub calls : t.calls ≡ deletions asked r.calls
    pub obj : t.obj ≡ r.obj

  -- The finalizer is taken off after each object with the owner's label has been deleted.
  pub record IsReleased (r t : Run C) : Type 0 where
    pub items : List String
    pub listed : (C.list_crds owner_label_key r.obj.name r.world.outside).0 ≡ ok items
    pub all : DeletesAll items (C.list_crds owner_label_key r.obj.name r.world.outside).1
    pub calls : t.calls ≡ patched t.obj ∷ deletions items r.calls
    pub finalizers : t.obj.finalizers ≡ C.remove_finalizer finalizer r.obj.finalizers
    pub spec : t.obj.spec ≡ r.obj.spec

  after_items :
      (items : List String) (r s : Run C) (p : Outcome (Unit {0}) × Run C)
      → s.calls ≡ r.calls
      → s.obj ≡ r.obj
      → (C.list_crds owner_label_key r.obj.name r.world.outside).0 ≡ ok items
      → s.world.outside ≡ (C.list_crds owner_label_key r.obj.name r.world.outside).1
      → IsLoop items s p
      → let t = (resume (λ _. set_obj (release C) >> patch_from C r.obj) p).1 in
        IsKept r t ⊎ IsReleased r t
  unfolding ◌>>=◌ set_obj get_obj note within
  after_items items r s (ok u, t) calls obj listed world l =
      let (none_left, all) = l.complete refl in
      let same : items ≡ l.asked =
        l.split ∙ ap (λ x. l.asked ++ x) none_left ∙ append-nil l.asked in
      inr (record {
        items = items;
        listed = listed;
        all = subst (DeletesAll items) world all;
        calls =
            ap (λ c. patched (release C t.obj) ∷ c)
              (l.calls ∙ ap (deletions l.asked) calls ∙ ap (λ x. deletions x r.calls) (sym same));
        finalizers = ap (λ o. C.remove_finalizer finalizer o.finalizers) (l.obj ∙ obj);
        spec = ap (λ o. o.spec) (l.obj ∙ obj);
      })
  after_items items r s (err e, t) calls obj listed world l = inl (record {
    asked = l.asked;
    calls = l.calls ∙ ap (deletions l.asked) calls;
    obj = l.obj ∙ obj;
  })
  after_items items r s (panic, t) calls obj listed world l = inl (record {
    asked = l.asked;
    calls = l.calls ∙ ap (deletions l.asked) calls;
    obj = l.obj ∙ obj;
  })

  after_list :
      (r : Run C) (p : Outcome (List String) × P.Outside)
      → C.list_crds owner_label_key r.obj.name r.world.outside ≡ p
      → let t =
          (resume
            (λ items. delete_items C items >> (set_obj (release C) >> patch_from C r.obj))
            (
              map_err (wrap "failed to list owned CRDS" []) p.0,
              record r { world = set_outside r.world p.1 },
            )).1 in
        IsKept r t ⊎ IsReleased r t
  unfolding ◌>>=◌
  after_list r (ok items, s) e =
      let start : Run C = record r { world = set_outside r.world s } in
      after_items items r start (delete_items C items start) refl refl (ap (λ q. q.0) e)
        (sym (ap (λ q. q.1) e)) (delete_items_lem items start)
  after_list r (err e, s) _ = inl (record { asked = []; calls = refl; obj = refl })
  after_list r (panic, s) _ = inl (record { asked = []; calls = refl; obj = refl })

  pruned :
      (r : Run C) (b : Bool)
      → b ≡ true
      → let t = (delete_by C b r.obj r).1 in IsKept r t ⊎ IsReleased r t
  unfolding delete_by get_obj within outside ◌>>=◌
  pruned r true e = after_list r (C.list_crds owner_label_key r.obj.name r.world.outside) refl
  pruned r false e = cc

  -- With pruning, the finalizer of a Bootstrap that is being deleted is taken off, and the object
  -- patched, only after each object that the cluster lists under the owner's label has been
  -- deleted with success, in that order. On any other outcome the object is as it was, and nothing
  -- but deletions has been asked for.
  pub reconcile_delete-IsReleased :
      (r : Run C)
      → r.obj.spec.prune ≡ true
      → let t = (reconcile_delete C r).1 in IsKept r t ⊎ IsReleased r t
  unfolding reconcile_delete get_obj ◌>>=◌
  reconcile_delete-IsReleased r e = pruned r r.obj.spec.prune e
