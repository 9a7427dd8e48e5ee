-- ===== src/Controller/Update.antt =====
-- How an update runs up to the apply: what holds where the objects are applied, for any property
-- that the steps before keep.
use mathlib.Core.Path.{subst}
use mathlib.Core.List.{map}
use crd_bootstrap.Base.{
  ℕ, String, ◌≡◌, refl, Bool, true, false, Option, none, some, List, [], All, Outcome, ok, err,
  panic, ◌>>=◌, resume, map_err, wrap,
}
use crd_bootstrap.Base.Keeps.{
  Keeps, Keeps-wrapping, Keeps-pure, Keeps-bind, Keeps-then, Leads, Leads-bind, Leads-then,
  Leads-deferring, Leads-bind-Yields,
}
use crd_bootstrap.Base.Dict.{Dict}
use crd_bootstrap.Base.FilePath.{FilePath}
use crd_bootstrap.Platform.{Platform}
use crd_bootstrap.Platform.World.{World}
use crd_bootstrap.Breaking.{OpenApi}
use crd_bootstrap.Sources.{Contract}
use crd_bootstrap.Controller.{Cluster, Run, within, get_obj, set_obj}
use crd_bootstrap.Controller.Objects.{set_names, label, count_names, count_applied}
use crd_bootstrap.Controller.Keeps.{
  IsStable, Yields-within, Yields-marking, Leads-get_obj, Keeps-set_obj, Keeps-get_obj,
  Keeps-within, Keeps-marking, Keeps-finish,
}
use crd_bootstrap.Controller.Reconcile.{
  set_attempted, set_breaking, apply_objects, apply_checked, check_and_apply, install_from, install,
  proceed, update_object,
}
use crd_bootstrap.Controller.Checks.{
  IsLabelled, IsOwned, IsCompatible, IsValidated, read_objects-kind, label-IsOwned,
  gate_breaking_lem, gate_validation_lem,
}

-- `Q` holds up to the apply, and then `J`.
module _ {P : Platform} {O : OpenApi} (C : Cluster P O) (laws : IsLabelled C)
    (source_provider : Contract P) (default_service_account : String) (owner : String)
    (Q J : Run C → Type 0) (Found : String → Type 0) where
  pub record IsUpdate : Type 0 where
    pub stable : IsStable Q
    pub stable_after : IsStable J
    pub weaken : (r : Run C) → Q r → J r
    pub name : (r : Run C) → Q r → r.obj.name ≡ owner
    pub attempted :
        (r : Run C) (revision : String) → Q r → Q (record r { obj = set_attempted revision r.obj })
    pub counted : (r : Run C) (names : Dict ℕ) → Q r → Q (record r { obj = set_names names r.obj })
    pub breaking :
        (r : Run C) (changes : List String)
        → Q r
        → Q (record r { obj = set_breaking changes r.obj })
    pub apply :
        (sm : C.Manager) (objects : List C.Object) (names : Dict ℕ) (revision : String) (r : Run C)
        → All (IsOwned C owner) objects
        → Found revision
        → IsCompatible C r
        → IsValidated C objects r
        → Q r
        → J (apply_objects C sm objects names revision r).1

  module _ (u : IsUpdate) where
    Keeps-count_names :
        (o : Option (Dict ℕ)) (names : List String) → Keeps Q (count_names C o names)
    unfolding count_names
    Keeps-count_names none names = Keeps-pure _
    Keeps-count_names (some applied) names =
        Keeps-then (Keeps-set_obj _ (λ r q. u.counted r _ q)) (Keeps-pure _)

    Keeps-count_applied : (objects : List C.Object) → Keeps Q (count_applied C objects)
    unfolding count_applied
    Keeps-count_applied objects = Keeps-bind Keeps-get_obj λ obj. Keeps-count_names _ _

    apply_checked_lem :
        (sm : C.Manager) (objects : List C.Object) (names : Dict ℕ) (revision : String)
        (changes : List String) (r : Run C)
        → All (IsOwned C owner) objects
        → Found revision
        → Q r
        → J (apply_checked C sm objects names revision changes r).1
    unfolding ◌>>=◌ apply_checked set_obj
    apply_checked_lem sm objects names revision changes r owned found q =
        gate_breaking_lem J _ changes s (λ a b. u.stable_after.marks s false a b (u.weaken s p))
          refl
          λ compatible.
            gate_validation_lem J _ objects s
              (λ a b. u.stable_after.marks s false a b (u.weaken s p)) (u.weaken s p)
              λ validated. u.apply sm objects names revision s owned found compatible validated p
      where
        s : Run C
        s = record r { obj = set_breaking changes r.obj }

        p : Q s
        p = u.breaking r changes q

    Leads-check_and_apply :
        (sm : C.Manager) (objects : List C.Object) (revision : String)
        → All (IsOwned C owner) objects
        → Found revision
        → Leads Q J (check_and_apply C sm objects revision)
    unfolding check_and_apply
    Leads-check_and_apply sm objects revision owned found =
        Leads-bind u.weaken (Keeps-count_applied objects) λ names.
          Leads-bind u.weaken (Keeps-marking u.stable.marks _ _ (Keeps-within u.stable _))
            λ changes. record {
              to = λ r q. apply_checked_lem sm objects names revision changes r owned found q;
            }

    Leads-install_from :
        (location : FilePath) (revision : String)
        → Found revision
        → Leads Q J (install_from C source_provider default_service_account location revision)
    unfolding install_from
    Leads-install_from location revision found = Leads-get_obj _ λ r q.
        let rest : Leads Q J _ =
          Leads-bind u.weaken
            (Keeps-marking u.stable.marks _ _ (Keeps-wrapping _ _ (Keeps-within u.stable _)))
            λ sm.
              Leads-bind-Yields _ u.weaken
                (Keeps-marking u.stable.marks _ _ (Keeps-within u.stable _))
                (Yields-marking _ _ (Yields-within (read_objects-kind C location)))
                λ objects kinds.
                  Leads-check_and_apply sm _ revision
                    (subst (λ n. All (IsOwned C n) (map (label C r.obj.name) objects)) (u.name r q)
                      (label-IsOwned C laws r.obj.name objects kinds))
                    found in
        rest.to r q

    Leads-install :
        (revision : String)
        → Found revision
        → Leads Q J (install C source_provider default_service_account revision)
    unfolding install
    Leads-install revision found =
        Leads-then u.weaken (Keeps-set_obj _ (λ r q. u.attempted r revision q)) (
          Leads-bind u.weaken (Keeps-marking u.stable.marks _ _ (Keeps-within u.stable _)) λ temp.
            Leads-bind u.weaken Keeps-get_obj λ obj.
              Leads-bind u.weaken (Keeps-marking u.stable.marks _ _ (Keeps-within u.stable _))
                λ location.
                  Leads-deferring (Keeps-within u.stable_after _)
                    (Leads-install_from location revision found))

    Leads-proceed :
        (b : Bool) (revision : String)
        → (b ≡ true → Found revision)
        → Leads Q J (proceed C source_provider default_service_account (b, revision))
    unfolding proceed
    Leads-proceed true revision found = Leads-install revision (found refl)
    Leads-proceed false revision found = record {
      to = λ r q. u.weaken _ ((Keeps-finish u.stable.marks).at r q);
    }

    proceed_lem :
        (p : Outcome (Bool × String) × World P) (r : Run C) (text : String)
        → ((revision : String) → p.0 ≡ ok (true, revision) → Found revision)
        → Q (record r { world = p.1 })
        → J
            (resume
              (proceed C source_provider default_service_account)
              (map_err (wrap text []) p.0, record r { world = p.1 })).1
    proceed_lem (ok (b, revision), w) r text found q =
        (Leads-proceed b revision (λ e. found revision (rw e))).to _ q
    proceed_lem (err _, w) r text found q = u.weaken _ q
    proceed_lem (panic, w) r text found q = u.weaken _ q

    pub update_object_lem :
        (r : Run C)
        → Q r
        → ((revision : String)
            → (source_provider.has_update r.obj r.world).0 ≡ ok (true, revision)
            → Found revision)
        → J (update_object C source_provider default_service_account r).1
    unfolding update_object within get_obj ◌>>=◌
    update_object_lem r q found =
        proceed_lem (source_provider.has_update r.obj r.world) r "failed to check version" found
          (u.stable.world r _ q)
