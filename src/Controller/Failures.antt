-- ===== src/Controller/Failures.antt =====
-- What an update that has failed says in the conditions of the object.
pub mod Rules
use crd_bootstrap.Base.{
  ℕ, Option, none, some, String, List, [], ◌∷◌, ◌≡◌, ◌⊎◌, inl, inr, refl, Bool, true, false, M,
  Outcome, Error, ok, err, panic, resume, caught, wrap, map_err, ◌>>=◌,
}
use crd_bootstrap.Base.Dict.{Dict}
use crd_bootstrap.Base.FilePath.{FilePath}
use crd_bootstrap.Base.Fails.{
  Fails, Fails-bind, Fails-pure, Fails-crash, Fails-deferring, deferring_err,
}
use crd_bootstrap.Api.{Bootstrap, Condition}
use crd_bootstrap.Platform.{Platform, remove_all}
use crd_bootstrap.Platform.Keeps.{remove_tree-ok}
use crd_bootstrap.Platform.World.{World, outside}
use crd_bootstrap.Platform.Os.{remove_tree}
use crd_bootstrap.Breaking.{OpenApi}
use crd_bootstrap.Sources.{Contract}
use crd_bootstrap.Controller.{Cluster, Run, Call, get_obj, set_obj, note, within}
use crd_bootstrap.Controller.Objects.{count_names, count_applied}
use crd_bootstrap.Controller.Reconcile.{
  fail_marked, marking, finish, refuse_breaking, gate_breaking, after_validation, gate_validation,
  apply_objects, apply_checked, check_and_apply, install_from, install, add_finalizer, proceed,
  update_object, patch_observed, reconcile_live,
}
use crd_bootstrap.Controller.Failures.Rules.{
  IsUnready, IsUnanswered, Fails-marking, Fails-get_obj, Fails-set_obj, Fails-finish,
  Fails-check_and_apply, removed, kept,
}

module _ {P : Platform} {O : OpenApi} (C : Cluster P O) (source_provider : Contract P)
    (default_service_account : String) where
  Fails-install_from :
      (location : FilePath) (revision : String)
      → Fails
          (IsUnready C)
          (install_from C source_provider default_service_account location revision)
  unfolding install_from
  Fails-install_from location revision = Fails-bind Fails-get_obj λ obj.
      Fails-bind (Fails-marking _ _ _)
        λ sm. Fails-bind (Fails-marking _ _ _) λ objects. Fails-check_and_apply sm _ revision

  -- A removal that does not fail keeps the mark.
  Fails-install :
      (revision : String)
      → ((p : FilePath) (s : P.Outside) → (P.os_call (remove_all p) s).0 ≡ ok tt)
      → Fails (IsUnready C) (install C source_provider default_service_account revision)
  unfolding install
  Fails-install revision removes = Fails-bind (Fails-set_obj _) λ _.
      Fails-bind (Fails-marking _ _ _) λ temp. Fails-bind Fails-get_obj λ obj.
        Fails-bind (Fails-marking _ _ _) λ location.
          Fails-deferring (within (remove_tree temp)) (removed temp removes) (kept temp)
            (Fails-install_from location revision)

  proceed_failed :
      (p : Outcome (Bool × String) × World P) (text : String) (r : Run C) (e : Error)
      → ((q : FilePath) (s : P.Outside) → (P.os_call (remove_all q) s).0 ≡ ok tt)
      → let t =
          resume
            (proceed C source_provider default_service_account)
            (map_err (wrap text []) p.0, record r { world = p.1 }) in
        t.0 ≡ err e → IsUnready C t.1 ⊎ IsUnanswered C p.0 r t.1
  unfolding proceed
  proceed_failed (ok (true, revision), w) text r e removes failed =
      inl ((Fails-install revision removes).at _ e failed)
  proceed_failed (ok (false, revision), w) text r e removes failed =
      inl (Fails-finish.at _ e failed)
  proceed_failed (err x, w) text r e removes failed = inr (x, refl, refl)
  proceed_failed (panic, w) text r e removes failed = cc

  observed :
      (before : Bootstrap) (o : Outcome (Bool × String)) (r t : Run C)
      → IsUnready C t ⊎ IsUnanswered C o r t
      → IsUnready C (patch_observed C before t).1 ⊎ IsUnanswered C o r (patch_observed C before t).1
  unfolding patch_observed ◌>>=◌ get_obj set_obj note within
  observed before o r t (inl q) =
      inl (record { reason = q.reason; message = q.message; before = q.before; marked = q.marked })
  observed before o r t (inr q) = inr q

  -- If a run on an object that is not being deleted ends in an error, and neither the removal of a
  -- directory nor a patch ever fails, then the last mark on the object says that it is not ready; or
  -- the source has failed to say whether there is an update, and then the conditions are those of
  -- before, whatever they say.
  pub reconcile_live-IsUnready :
      (r : Run C) (e : Error)
      → ((p : FilePath) (s : P.Outside) → (P.os_call (remove_all p) s).0 ≡ ok tt)
      → ((a b : Bootstrap) (s : P.Outside) → (C.patch a b s).0 ≡ ok tt)
      → let t = reconcile_live C source_provider default_service_account r in
        t.0 ≡ err e
        → IsUnready C t.1
          ⊎ IsUnanswered C (source_provider.has_update (add_finalizer C r.obj) r.world).0 r t.1
  unfolding reconcile_live update_object ◌>>=◌ get_obj set_obj note within outside patch_observed
  reconcile_live-IsUnready r e removes patches failed = observed r.obj _ r _ (
      proceed_failed (source_provider.has_update (add_finalizer C r.obj) r.world)
        "failed to check version" (record r { obj = add_finalizer C r.obj }) e removes
        (deferring_err _ _ e (patches _ _ _) failed))
