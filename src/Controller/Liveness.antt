-- ===== src/Controller/Liveness.antt =====
-- When an update succeeds.
pub mod Checked
use mathlib.Core.Path.{subst}
use crd_bootstrap.Base.{
  ℕ, String, List, [], ◌∷◌, ◌≡◌, ◌∙◌, ◌⊎◌, inl, inr, ap, refl, Bool, true, false, Option, none,
  some, M, Outcome, Error, ok, err, panic, resume, pure, ◌>>=◌, ◌>>◌, map, map_err, wrap, wrapping,
  attempt, deferring, join_outcome, sym,
}
use crd_bootstrap.Base.Returns.{Goes, Goes-bind, Goes-deferring, wrapping-ok}
use crd_bootstrap.Base.Dict.{Dict}
use crd_bootstrap.Base.FilePath.{FilePath, dir}
use crd_bootstrap.Api.{Bootstrap, get_requeue_after}
use crd_bootstrap.Platform.{Platform, remove_all}
use crd_bootstrap.Platform.World.{World, outside, put_node, edit_files}
use crd_bootstrap.Platform.Os.{mkdir_temp, remove_tree}
use crd_bootstrap.Platform.Keeps.{remove_tree-ok}
use crd_bootstrap.Breaking.{OpenApi}
use crd_bootstrap.Sources.{Contract}
use crd_bootstrap.Controller.{Cluster, Run, Call, get_obj, set_obj, note, within}
use crd_bootstrap.Controller.Objects.{
  read_objects, detect_changes, validate_objects, label, manager_config, new_resource_manager,
  count_applied, count_names, set_names, increment_all,
}
use crd_bootstrap.Controller.Reconcile.{
  ReconcileResult, mark, marking, fail_marked, succeeded, add_finalizer, set_attempted,
  set_breaking, set_applied, finish, refuse_breaking, gate_breaking, after_validation,
  gate_validation, apply_objects, apply_checked, check_and_apply, install_from, install, proceed,
  update_object, patch_observed, reconcile_live, observe,
}
use crd_bootstrap.Controller.Liveness.Checked.{
  HasApplied, HasPatched, marking-ok, check_and_apply-Goes,
}
use crd_bootstrap.Controller.Success.{IsSettled, Follows, reconcile_live-Follows}

module _ {P : Platform} {O : OpenApi} (C : Cluster P O) (source_provider : Contract P)
    (default_service_account : String) (r : Run C) (revision : String) (temp location : FilePath)
    (sm : C.Manager) (objects : List C.Object) (changes : List String) (u v w x : World P)
    (made managed applied waited : P.Outside) where
  within-ok :
      {A : Type 0} (m : M (World P) A) (q : Run C) (z : World P) (a : A)
      → m q.world ≡ (ok a, z)
      → within m q ≡ (ok a, record q { world = z })
  unfolding within
  within-ok m q z a e = rw e refl

  outside-ok :
      {A : Type 0} (m : M P.Outside A) (z : World P) (s : P.Outside) (a : A)
      → m z.outside ≡ (ok a, s)
      → outside m z ≡ (ok a, record z { outside = s })
  unfolding outside
  outside-ok m z s a e = rw e refl

  mkdir_temp-ok :
      (z : World P) (s : P.Outside)
      → P.temp_dir "crd" z.outside ≡ (ok temp, s)
      → mkdir_temp "crd" z ≡ (ok temp, record z { outside = s; files = put_node temp dir z.files })
  unfolding mkdir_temp outside edit_files ◌>>=◌
  mkdir_temp-ok z s e = rw e refl

  -- The object as it is when the CRDs are fetched.
  abbrev attempted : Bootstrap
  attempted = set_attempted revision (add_finalizer C r.obj)

  abbrev labelled : List C.Object
  labelled = map (label C r.obj.name) objects

  abbrev at_world : World P → Run C
  at_world y = record r { world = y; obj = attempted }

  module _
      (manager : C.new_manager (manager_config C default_service_account attempted) v.outside
        ≡ (ok sm, managed))
      (read : read_objects C location (record v { outside = managed }) ≡ (ok objects, w))
      (detected : detect_changes C labelled [] w ≡ (ok changes, x))
      (compatible : (changes ≡ []) ⊎ (r.obj.spec.ignore_breaking_changes ≡ true))
      (valid : (validate_objects C r.obj labelled ≡ ok tt)
        ⊎ ((r.obj.spec.continue_on_validation_error ≡ true)
            × ((e : Error) × (validate_objects C r.obj labelled ≡ err e))))
      (applies : C.apply_all_staged sm labelled x.outside ≡ (ok tt, applied))
      (waits : C.wait sm labelled applied ≡ (ok tt, waited)) where
    install_from-Goes :
        Goes
          (HasApplied C sm labelled r)
          (install_from C source_provider default_service_account location revision)
          (at_world v)
    unfolding install_from get_obj validate_objects
    install_from-Goes = Goes-bind get_obj _ _ (at_world v) attempted refl (
        Goes-bind (marking C _ _ (new_resource_manager C default_service_account attempted)) _ _
          (at_world (record v { outside = managed })) sm
          (marking-ok C _ _ _ (at_world v) (at_world (record v { outside = managed })) sm (
            wrapping-ok _ _ _ (at_world v) (at_world (record v { outside = managed })) sm
              (within-ok _ (at_world v) _ sm (outside-ok _ v managed sm manager))))
          (Goes-bind (marking C _ _ (within (read_objects C location))) _ _ (at_world w) objects
            (marking-ok C _ _ _ (at_world (record v { outside = managed })) (at_world w) objects
              (within-ok _ (at_world (record v { outside = managed })) w objects read))
            (check_and_apply-Goes C sm labelled revision changes x applied waited applies waits w
              (at_world w) refl detected compatible valid)))

    module _ (makes : P.temp_dir "crd" u.outside ≡ (ok temp, made))
        (fetched : source_provider.fetch_crd temp attempted revision
            (record u { outside = made; files = put_node temp dir u.files })
          ≡ (ok location, v))
        (removes : (s : P.Outside) → (P.os_call (remove_all temp) s).0 ≡ ok tt) where
      removed : (t : Run C) → (within {C = C} (remove_tree temp) t).0 ≡ ok tt
      unfolding within
      removed t = remove_tree-ok temp t.world (removes _)

      removed_calls :
          (t : Run C)
          → HasApplied C sm labelled r t
          → HasApplied C sm labelled r (within {C = C} (remove_tree temp) t).1
      unfolding within
      removed_calls t e = e

      install-Goes :
          Goes
            (HasApplied C sm labelled r)
            (install C source_provider default_service_account revision)
            (record r { world = u; obj = add_finalizer C r.obj })
      unfolding install set_obj get_obj
      install-Goes =
          let y : World P = record u { outside = made; files = put_node temp dir u.files } in
          Goes-bind (set_obj (set_attempted revision)) _ _ (at_world u) tt refl (
            Goes-bind (marking C _ _ (within (mkdir_temp "crd"))) _ _ (at_world y) temp
              (marking-ok C _ _ _ (at_world u) (at_world y) temp
                (within-ok _ (at_world u) y temp (mkdir_temp-ok u made makes)))
              (Goes-bind get_obj _ _ (at_world y) attempted refl (
                Goes-bind
                  (marking C _ _ (within (source_provider.fetch_crd temp attempted revision))) _ _
                  (at_world v) location
                  (marking-ok C _ _ _ (at_world y) (at_world v) location
                    (within-ok _ (at_world y) v location fetched))
                  (Goes-deferring (within (remove_tree temp)) _ (at_world v) (λ t. removed t)
                    removed_calls install_from-Goes))))

      observed :
          (before : Bootstrap)
          → ((a b : Bootstrap) (s : P.Outside) → (C.patch a b s).0 ≡ ok tt)
          → (t : Run C) → (patch_observed C before t).0 ≡ ok tt
      unfolding patch_observed set_obj get_obj note within outside ◌>>=◌
      observed before patches t = patches _ _ _

      patched_calls :
          (before : Bootstrap) (t : Run C)
          → HasApplied C sm labelled r t
          → HasPatched C sm labelled r (patch_observed C before t).1
      unfolding patch_observed set_obj get_obj note within outside ◌>>=◌
      patched_calls before t e = ap (λ cs. Call.patched (observe t.obj) ∷ cs) e

      reconcile_live-Goes :
          source_provider.has_update (add_finalizer C r.obj) r.world ≡ (ok (true, revision), u)
          → ((a b : Bootstrap) (s : P.Outside) → (C.patch a b s).0 ≡ ok tt)
          → Goes
              (HasPatched C sm labelled r)
              (reconcile_live C source_provider default_service_account)
              r
      unfolding reconcile_live update_object proceed set_obj get_obj
      reconcile_live-Goes found patches =
          let start : Run C = record r { obj = add_finalizer C r.obj } in
          let ready : Run C = record start { world = u } in
          Goes-bind get_obj _ r r r.obj refl (
            Goes-bind (set_obj (add_finalizer C)) _ r start tt refl (
              Goes-deferring (patch_observed C r.obj) _ start (observed r.obj patches)
                (patched_calls r.obj)
                (Goes-bind get_obj _ start start start.obj refl (
                  Goes-bind (wrapping _ [] (within (source_provider.has_update start.obj))) _ start
                    ready (true, revision)
                    (wrapping-ok _ _ _ start ready (true, revision)
                      (within-ok _ start u (true, revision) found))
                    install-Goes))))

      -- If the source reports an update, the CRDs are fetched, read and compared, no breaking change
      -- is found or the spec ignores them, no template is violated or the spec goes on, and every
      -- call on the way and the final patch succeed, then the run succeeds: the object is ready, has
      -- the new revision as its last applied one, and the next run is after the interval. What the
      -- run has written is one apply of the CRDs that were read, with the owner's label, and then
      -- the patch of the object.
      pub reconcile_live-IsSettled :
          source_provider.has_update (add_finalizer C r.obj) r.world ≡ (ok (true, revision), u)
          → ((a b : Bootstrap) (s : P.Outside) → (C.patch a b s).0 ≡ ok tt)
          → let t = reconcile_live C source_provider default_service_account r in
            (result : ReconcileResult) × (t.0 ≡ ok result)
            × IsSettled C revision result t.1
            × HasPatched C sm labelled r t.1
      reconcile_live-IsSettled found patches =
          let g = reconcile_live-Goes found patches in
          let result = g.result in
          let e = g.returned in
          (
            result,
            e,
            subst
                (λ o.
                  Follows C source_provider default_service_account o
                    r.obj.status.last_applied_revision result
                    (reconcile_live C source_provider default_service_account r).1)
                (ap (λ p. p.0) found)
                (reconcile_live-Follows C source_provider default_service_account r result e),
            g.after,
          )
