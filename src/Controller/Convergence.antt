-- ===== src/Controller/Convergence.antt =====
-- Runs that have nothing to do.
use crd_bootstrap.Base.{
  String, [], ◌∷◌, ◌≡◌, refl, sym, ap, ◌∙◌, Bool, true, false, Option, some, Outcome, ok, err,
  panic, resume, map_err, wrap, join_outcome, ◌>>=◌, from_deref,
}
use crd_bootstrap.Api
use crd_bootstrap.Api.{Bootstrap, get_requeue_after}
use crd_bootstrap.Platform.{Semver, IsOrdered, Platform}
use crd_bootstrap.Platform.World.{World, outside}
use crd_bootstrap.Breaking.{OpenApi}
use crd_bootstrap.Sources.{Contract}
use crd_bootstrap.Sources.ConfigMap
use crd_bootstrap.Sources.ConfigMap.Settled.{has_update_selected-settled}
use crd_bootstrap.Controller.{Cluster, Run, patched, get_obj, set_obj, note, within}
use crd_bootstrap.Controller.Reconcile.{
  ReconcileResult, add_finalizer, finish, proceed, update_object, patch_observed, reconcile_live,
}
use crd_bootstrap.Controller.Success.{Follows, reconcile_live-Follows}

module _ {P : Platform} {O : OpenApi} (C : Cluster P O) where
  -- The run has succeeded, and its only write is the patch of the object.
  pub record IsIdle (r : Run C) (p : Outcome ReconcileResult × Run C) : Type 0 where
    pub returned : p.0 ≡ ok (record { requeue_after = r.obj.spec.interval })
    pub calls : p.1.calls ≡ patched p.1.obj ∷ r.calls
    pub applied : p.1.obj.status.last_applied_revision ≡ r.obj.status.last_applied_revision

module _ {P : Platform} {O : OpenApi} (C : Cluster P O) (source_provider : Contract P)
    (default_service_account : String) where
  idle :
      (r : Run C) (p : Outcome (Bool × String) × World P) (x : String)
      → ((a b : Bootstrap) (s : P.Outside) → (C.patch a b s).0 ≡ ok tt)
      → p.0 ≡ ok (false, x)
      → let t = resume (proceed C source_provider default_service_account) (
        map_err (wrap "failed to check version" []) p.0,
        record r { obj = add_finalizer C r.obj; world = p.1 },
      ) in
        IsIdle C r (join_outcome t.0 (patch_observed C r.obj t.1).0, (patch_observed C r.obj t.1).1)
  unfolding proceed finish patch_observed get_requeue_after set_obj get_obj note within outside
      ◌>>=◌
  idle r (ok (false, x), w) y patches e = record {
    returned = ap (join_outcome _) (patches _ _ _);
    calls = refl;
    applied = refl;
  }
  idle r (ok (true, x), w) y patches e = cc
  idle r (err x, w) y patches e = cc
  idle r (panic, w) y patches e = cc

  reconcile_live-IsIdle :
      (r : Run C) (x : String)
      → ((a b : Bootstrap) (s : P.Outside) → (C.patch a b s).0 ≡ ok tt)
      → (source_provider.has_update (add_finalizer C r.obj) r.world).0 ≡ ok (false, x)
      → IsIdle C r (reconcile_live C source_provider default_service_account r)
  unfolding reconcile_live update_object set_obj get_obj within ◌>>=◌
  reconcile_live-IsIdle r x patches e =
      idle r (source_provider.has_update (add_finalizer C r.obj) r.world) x patches e

module _ {P : Platform} {O : OpenApi} (C : Cluster P O) (S : Semver) (order : IsOrdered S)
    (next : Option (Contract P)) (default_service_account : String) where
  abbrev provider : Contract P
  provider = ConfigMap.new_source S next

  has_update-selected :
      (source : Api.Source) (c : Api.ConfigMap) (obj : Bootstrap)
      → obj.spec.source ≡ some source
      → source.config_map ≡ some c
      → provider.has_update obj ≡ ConfigMap.has_update_selected S next (some c) obj
  unfolding ConfigMap.has_update
  has_update-selected source c obj e h =
      from_deref _ source _ e ∙ ap (λ o. ConfigMap.has_update_selected S next o obj) h

  -- If a run has applied an update from a config map with success, then another run, at any later
  -- time, on an object with the same spec and that applied revision, while the config map is the
  -- same, succeeds with the patch of the object as its only write, if versions are ordered and
  -- patches do not fail.
  pub reconcile_live-converges :
      (source : Api.Source) (c : Api.ConfigMap) (r later : Run C) (revision : String)
      (result : ReconcileResult)
      → r.obj.spec.source ≡ some source
      → source.config_map ≡ some c
      → (provider.has_update (add_finalizer C r.obj) r.world).0 ≡ ok (true, revision)
      → (reconcile_live C provider default_service_account r).0 ≡ ok result
      → later.obj.spec ≡ r.obj.spec
      → later.obj.status.last_applied_revision
        ≡ (reconcile_live C provider default_service_account r).1.obj.status.last_applied_revision
      → (P.get_config_map c.name c.namespace later.world.outside).0
        ≡ (P.get_config_map c.name c.namespace r.world.outside).0
      → ((a b : Bootstrap) (s : P.Outside) → (C.patch a b s).0 ≡ ok tt)
      → IsIdle C later (reconcile_live C provider default_service_account later)
  reconcile_live-converges source c r later revision result has found update done spec applied same
        patches =
      let updated : (ConfigMap.has_update_selected S next (some c) (add_finalizer C r.obj)
            r.world).0
          ≡ ok (true, revision) =
        ap (λ m. (m r.world).0)
          (sym (has_update-selected source c (add_finalizer C r.obj) has found))
        ∙ update in
      let recorded : later.obj.status.last_applied_revision ≡ revision =
        applied
        ∙ recorded_lem _ (reconcile_live C provider default_service_account r).1 update
            (reconcile_live-Follows C provider default_service_account r result done) in
      let answer : (provider.has_update (add_finalizer C later.obj) later.world).0
          ≡ ok (false, revision) =
        ap (λ m. (m later.world).0)
          (has_update-selected source c (add_finalizer C later.obj) (ap (λ x. x.source) spec ∙ has)
            found)
        ∙ has_update_selected-settled S order next c (add_finalizer C r.obj)
            (add_finalizer C later.obj) r.world later.world revision updated same
            (ap (λ x. x.version.semver) spec) recorded in
      reconcile_live-IsIdle C provider default_service_account later revision patches answer
    where
      recorded_lem :
          (o : Outcome (Bool × String)) (t : Run C)
          → o ≡ ok (true, revision)
          → Follows C provider default_service_account o r.obj.status.last_applied_revision result t
          → t.obj.status.last_applied_revision ≡ revision
      recorded_lem (ok (true, x)) t e f = f.applied ∙ cc
      recorded_lem (ok (false, x)) t e f = cc
      recorded_lem (err x) t e f = cc
      recorded_lem panic t e f = cc
