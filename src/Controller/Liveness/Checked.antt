-- ===== src/Controller/Liveness/Checked.antt =====
-- When the checks and the apply of an update succeed.
use crd_bootstrap.Base.{
  ℕ, String, List, [], ◌∷◌, ◌≡◌, ◌∙◌, ◌⊎◌, inl, inr, ap, refl, Bool, true, false, Option, none,
  some, M, Outcome, Error, ok, err, panic, ◌>>=◌, map,
}
use crd_bootstrap.Base.Returns.{Goes, Goes-bind}
use crd_bootstrap.Base.Dict.{Dict}
use crd_bootstrap.Api.{get_requeue_after}
use crd_bootstrap.Platform.{Platform}
use crd_bootstrap.Platform.World.{World, outside}
use crd_bootstrap.Breaking.{OpenApi}
use crd_bootstrap.Controller.{Cluster, Run, Call, get_obj, set_obj, note, within}
use crd_bootstrap.Controller.Objects.{detect_changes, validate_objects, count_applied, count_names}
use crd_bootstrap.Controller.Reconcile.{
  marking, fail_marked, set_breaking, finish, refuse_breaking, gate_breaking, after_validation,
  gate_validation, apply_objects, apply_checked, check_and_apply,
}

module _ {P : Platform} {O : OpenApi} (C : Cluster P O) where
  -- A gate on what was found lets the update through.
  refused :
      (b : Bool) (changes : List String) (r : Run C)
      → b ≡ true
      → refuse_breaking C b changes r ≡ (ok tt, r)
  unfolding refuse_breaking ◌>>=◌ set_obj
  refused true changes r e = refl
  refused false changes r e = cc

  breaking_passed :
      (changes : List String) (r : Run C)
      → (changes ≡ []) ⊎ (r.obj.spec.ignore_breaking_changes ≡ true)
      → gate_breaking C changes r ≡ (ok tt, r)
  unfolding gate_breaking ◌>>=◌ get_obj
  breaking_passed [] r h = refl
  breaking_passed (c ∷ changes) r (inl e) = cc
  breaking_passed (c ∷ changes) r (inr e) = refused _ _ r e

  validated :
      (b : Bool) (o : Outcome (Unit {0})) (r : Run C)
      → (o ≡ ok tt) ⊎ ((b ≡ true) × ((e : Error) × (o ≡ err e)))
      → after_validation C b o r ≡ (ok tt, r)
  unfolding after_validation ◌>>=◌ set_obj
  validated b (ok _) r h = refl
  validated true (err e) r h = refl
  validated false (err e) r (inl h) = cc
  validated false (err e) r (inr h) = let x = h.0 in cc
  validated b panic r (inl h) = cc
  validated b panic r (inr (_, (e, h))) = cc

  -- One more apply has been asked for, and nothing else.
  abbrev pub HasApplied : C.Manager → List C.Object → Run C → Run C → Type 0
  HasApplied sm objects r t = t.calls ≡ Call.applied sm objects ∷ r.calls

  -- And then the patch of the object as it is.
  abbrev pub HasPatched : C.Manager → List C.Object → Run C → Run C → Type 0
  HasPatched sm objects r t = t.calls ≡ Call.patched t.obj ∷ Call.applied sm objects ∷ r.calls

  apply_objects-Goes :
      (sm : C.Manager) (objects : List C.Object) (names : Dict ℕ) (revision : String) (r : Run C)
      (s t : P.Outside)
      → C.apply_all_staged sm objects r.world.outside ≡ (ok tt, s)
      → C.wait sm objects s ≡ (ok tt, t)
      → Goes (HasApplied sm objects r) (apply_objects C sm objects names revision) r
  unfolding apply_objects ◌>>=◌ marking fail_marked get_obj set_obj note within outside finish
      get_requeue_after
  apply_objects-Goes sm objects names revision r s t applied waited = record {
    result = record { requeue_after = r.obj.spec.interval };
    returned = rw (applied, waited) refl;
    after = rw (applied, waited) refl;
  }

  gate_validation-passed :
      (objects : List C.Object) (r : Run C)
      → (validate_objects C r.obj objects ≡ ok tt)
        ⊎ ((r.obj.spec.continue_on_validation_error ≡ true)
            × ((e : Error) × (validate_objects C r.obj objects ≡ err e)))
      → gate_validation C objects r ≡ (ok tt, r)
  unfolding gate_validation ◌>>=◌ get_obj
  gate_validation-passed objects r h = validated _ _ r h

  pub marking-ok :
      {A : Type 0} (s t : String) (m : M (Run C) A) (r u : Run C) (a : A)
      → m r ≡ (ok a, u)
      → marking C s t m r ≡ (ok a, u)
  unfolding marking fail_marked ◌>>=◌
  marking-ok s t m r u a e = rw e refl

  abbrev with_counts : Option (Dict ℕ) → Run C → Run C
  with_counts counts r = record r {
    obj = record r.obj { status = record r.obj.status { last_applied_crd_names = counts } };
  }

  counted :
      (o : Option (Dict ℕ)) (names : List String) (r : Run C)
      → (counts : Option (Dict ℕ)) × (all : Dict ℕ) × (count_names C o names r
          ≡ (ok all, with_counts counts r))
  unfolding count_names ◌>>=◌ set_obj
  counted none names r = (r.obj.status.last_applied_crd_names, _, refl)
  counted (some applied) names r = (some _, _, refl)

  -- The checks and the apply go through on these objects.
  module _ (sm : C.Manager) (objects : List C.Object) (revision : String) (changes : List String)
      (w : World P) (s t : P.Outside)
      (applied : C.apply_all_staged sm objects w.outside ≡ (ok tt, s))
      (waited : C.wait sm objects s ≡ (ok tt, t)) where
    apply_checked-Goes :
        (names : Dict ℕ) (r : Run C)
        → r.world ≡ w
        → (changes ≡ []) ⊎ (r.obj.spec.ignore_breaking_changes ≡ true)
        → (validate_objects C r.obj objects ≡ ok tt)
          ⊎ ((r.obj.spec.continue_on_validation_error ≡ true)
              × ((e : Error) × (validate_objects C r.obj objects ≡ err e)))
        → Goes (HasApplied sm objects r) (apply_checked C sm objects names revision changes) r
    unfolding apply_checked set_obj validate_objects
    apply_checked-Goes names r here compatible valid =
        let u : Run C = record r { obj = set_breaking changes r.obj } in
        Goes-bind (set_obj (set_breaking changes)) _ r u tt refl (
          Goes-bind (gate_breaking C changes) _ u u tt (breaking_passed changes u compatible) (
            Goes-bind (gate_validation C objects) _ u u tt (gate_validation-passed objects u valid)
              (apply_objects-Goes sm objects names revision u s t
                (ap (λ (x : World P). C.apply_all_staged sm objects x.outside) here ∙ applied)
                waited)))

    pub check_and_apply-Goes :
        (v : World P) (r : Run C)
        → r.world ≡ v
        → detect_changes C objects [] v ≡ (ok changes, w)
        → (changes ≡ []) ⊎ (r.obj.spec.ignore_breaking_changes ≡ true)
        → (validate_objects C r.obj objects ≡ ok tt)
          ⊎ ((r.obj.spec.continue_on_validation_error ≡ true)
              × ((e : Error) × (validate_objects C r.obj objects ≡ err e)))
        → Goes (HasApplied sm objects r) (check_and_apply C sm objects revision) r
    unfolding check_and_apply count_applied get_obj within ◌>>=◌ validate_objects
    check_and_apply-Goes v r here detected compatible valid =
        let (counts, all, e) =
          counted r.obj.status.last_applied_crd_names (map C.get_name objects) r in
        let u : Run C = with_counts counts r in
        let z : Run C = record u { world = w } in
        Goes-bind (count_applied C objects) _ r u all e (
          Goes-bind (marking C _ _ (within (detect_changes C objects []))) _ u z changes
            (marking-ok _ _ _ u z changes (
              ap (λ (x : World P). within (detect_changes C objects []) (record u { world = x }))
                here
              ∙ ap (λ p. (p.0, record u { world = p.1 })) detected))
            (apply_checked-Goes all z refl compatible valid))
