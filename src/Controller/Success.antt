-- ===== src/Controller/Success.antt =====
-- What an update that has succeeded says in the object, and when an update succeeds.
use crd_bootstrap.Base.{
  ℕ, String, List, [], ◌≡◌, ap, sym, refl, Bool, true, false, Outcome, ok, err, panic, resume,
  ◌>>=◌, ◌>>◌, map_err, wrap, ok-injective,
}
use crd_bootstrap.Base.Dict.{Dict}
use crd_bootstrap.Base.Keeps.{join_outcome-eq-ok}
use crd_bootstrap.Base.Returns.{Returns, Returns-bind, Returns-deferring}
use crd_bootstrap.Base.FilePath.{FilePath}
use crd_bootstrap.Api.{Bootstrap, Condition, get_requeue_after}
use crd_bootstrap.Platform.{Platform}
use crd_bootstrap.Platform.World.{World, outside}
use crd_bootstrap.Platform.Os.{remove_tree}
use crd_bootstrap.Breaking.{OpenApi}
use crd_bootstrap.Sources.{Contract}
use crd_bootstrap.Controller.{Cluster, Run, get_obj, set_obj, note, within}
use crd_bootstrap.Controller.Reconcile.{
  ReconcileResult, succeeded, add_finalizer, set_applied, finish, apply_objects, apply_checked,
  check_and_apply, install_from, install, proceed, update_object, patch_observed, reconcile_live,
}

module _ {P : Platform} {O : OpenApi} (C : Cluster P O) where
  -- The object says that it is ready, and has the revision; the next run is after its interval.
  pub record IsSettled (revision : String) (result : ReconcileResult) (r : Run C) : Type 0 where
    pub before : List Condition
    pub marked :
        r.obj.status.conditions ≡ C.mark_ready true succeeded "Successfully applied crd(s)" before
    pub applied : r.obj.status.last_applied_revision ≡ revision
    pub requeued : result.requeue_after ≡ r.obj.spec.interval

module _ {P : Platform} {O : OpenApi} {C : Cluster P O} where
  Returns-applied :
      (names : Dict ℕ) (revision : String)
      → Returns (IsSettled C revision) (set_obj {C = C} (set_applied names revision) >> finish C)
  unfolding finish get_obj set_obj ◌>>=◌ get_requeue_after
  Returns-applied names revision = record {
    at = λ r a e. record {
      before = r.obj.status.conditions;
      marked = refl;
      applied = refl;
      requeued = ap (λ x. x.requeue_after) (sym (ok-injective e));
    };
  }

  Returns-check_and_apply :
      (sm : C.Manager) (objects : List C.Object) (revision : String)
      → Returns (IsSettled C revision) (check_and_apply C sm objects revision)
  unfolding check_and_apply apply_checked apply_objects
  Returns-check_and_apply sm objects revision = Returns-bind _ λ names. Returns-bind _ λ changes.
      Returns-bind _ λ _. Returns-bind _ λ _. Returns-bind _ λ _.
        Returns-bind _ λ _. Returns-bind _ λ _. Returns-bind _ λ _. Returns-applied names revision

  kept :
      (temp : FilePath) (revision : String) (r : Run C) (a : ReconcileResult)
      → IsSettled C revision a r
      → IsSettled C revision a (within {C = C} (remove_tree temp) r).1
  unfolding within
  kept temp revision r a q = record {
    before = q.before;
    marked = q.marked;
    applied = q.applied;
    requeued = q.requeued;
  }

module _ {P : Platform} {O : OpenApi} (C : Cluster P O) (source_provider : Contract P)
    (default_service_account : String) where
  Returns-install :
      (revision : String)
      → Returns (IsSettled C revision) (install C source_provider default_service_account revision)
  unfolding install install_from
  Returns-install revision = Returns-bind _ λ _. Returns-bind _ λ temp. Returns-bind _ λ obj.
      Returns-bind _ λ location. Returns-deferring _ (kept temp revision) (
        Returns-bind _ λ obj.
          Returns-bind _ λ sm. Returns-bind _ λ objects. Returns-check_and_apply sm _ revision)

  -- What a run has done about the answer of the source.
  abbrev pub Follows : Outcome (Bool × String) → String → ReconcileResult → Run C → Type 0
  Follows (ok (true, revision)) last result t = IsSettled C revision result t
  Follows (ok (false, _)) last result t = IsSettled C last result t
  Follows (err _) last result t = ⊥
  Follows panic last result t = ⊥

  proceed_returned :
      (p : Outcome (Bool × String) × World P) (text : String) (r : Run C) (a : ReconcileResult)
      → let t =
          resume
            (proceed C source_provider default_service_account)
            (map_err (wrap text []) p.0, record r { world = p.1 }) in
        t.0 ≡ ok a → Follows p.0 r.obj.status.last_applied_revision a t.1
  unfolding proceed finish get_obj set_obj ◌>>=◌ get_requeue_after
  proceed_returned (ok (true, revision), w) text r a e =
      (Returns-install revision).at (record r { world = w }) a e
  proceed_returned (ok (false, revision), w) text r a e = record {
    before = r.obj.status.conditions;
    marked = refl;
    applied = refl;
    requeued = ap (λ x. x.requeue_after) (sym (ok-injective e));
  }
  proceed_returned (err x, w) text r a e = cc
  proceed_returned (panic, w) text r a e = cc

  observed :
      (before : Bootstrap) (o : Outcome (Bool × String)) (last : String) (a : ReconcileResult)
      (t : Run C)
      → Follows o last a t
      → Follows o last a (patch_observed C before t).1
  unfolding patch_observed ◌>>=◌ get_obj set_obj note within
  observed before (ok (true, _)) last a t q = record {
    before = q.before;
    marked = q.marked;
    applied = q.applied;
    requeued = q.requeued;
  }
  observed before (ok (false, _)) last a t q = record {
    before = q.before;
    marked = q.marked;
    applied = q.applied;
    requeued = q.requeued;
  }
  observed before (err _) last a t q = q
  observed before panic last a t q = q

  -- A run on an object that is not being deleted succeeds only if the source has answered. Then the
  -- object is ready, the next run is after the interval of its spec, and its last applied revision
  -- is the one that the source has reported as an update, or that of before if there was none.
  pub reconcile_live-Follows :
      (r : Run C) (result : ReconcileResult)
      → let t = reconcile_live C source_provider default_service_account r in
        t.0 ≡ ok result
        → Follows
            (source_provider.has_update (add_finalizer C r.obj) r.world).0
            r.obj.status.last_applied_revision
            result
            t.1
  unfolding reconcile_live update_object ◌>>=◌ get_obj set_obj note within outside
  reconcile_live-Follows r result e = observed r.obj _ r.obj.status.last_applied_revision result _ (
      proceed_returned (source_provider.has_update (add_finalizer C r.obj) r.world)
        "failed to check version" (record r { obj = add_finalizer C r.obj }) result
        (join_outcome-eq-ok _ _ result e))
