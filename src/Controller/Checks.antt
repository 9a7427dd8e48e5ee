-- ===== src/Controller/Checks.antt =====
-- The checks that objects pass before they are applied: their kind, their label, the two gates.
use mathlib.Core.List.{map}
use crd_bootstrap.Base.{
  String, ◌≡◌, refl, Bool, true, false, List, [], ◌∷◌, ◌⊎◌, inl, inr, All, All-select, All-map,
  All-mono, M, Outcome, ok, err, panic, ◌∙◌, ◌>>=◌, ◌>>◌, eq_iff, ◌==◌, select,
}
use crd_bootstrap.Base.Keeps.{Yields, Yields-bind, Yields-pure, Yields-deferring}
use crd_bootstrap.Base.Dict.{Dict}
use crd_bootstrap.Base.FilePath.{FilePath}
use crd_bootstrap.Api.{owner_label_key}
use crd_bootstrap.Platform.{Platform}
use crd_bootstrap.Breaking.{OpenApi}
use crd_bootstrap.Controller.{Cluster, Run, get_obj, set_obj}
use crd_bootstrap.Controller.Objects.{crd_kind, read_objects, label, validate_objects}
use crd_bootstrap.Controller.Reconcile.{
  mark, refuse_breaking, gate_breaking, after_validation, gate_validation,
}

-- What the labels and the kind of an unstructured object do when labels are set.
pub record IsLabelled {P : Platform} {O : OpenApi} (C : Cluster P O) : Type 0 where
  pub labels : (l : Dict String) (o : C.Object) → C.get_labels (C.set_labels l o) ≡ l
  pub kind : (l : Dict String) (o : C.Object) → C.get_kind (C.set_labels l o) ≡ C.get_kind o

module _ {P : Platform} {O : OpenApi} (C : Cluster P O) where
  -- A custom resource definition that carries its owner's label, and no other.
  abbrev pub IsOwned : String → C.Object → Type 0
  IsOwned owner o = (C.get_kind o ≡ crd_kind) × (C.get_labels o ≡ (owner_label_key, owner) ∷ [])

  -- The checks that an update has passed.
  abbrev pub IsCompatible : Run C → Type 0
  IsCompatible r =
      (r.obj.status.breaking_changes ≡ []) ⊎ (r.obj.spec.ignore_breaking_changes ≡ true)

  abbrev pub IsValidated : List C.Object → Run C → Type 0
  IsValidated objects r =
      (validate_objects C r.obj objects ≡ ok tt) ⊎ (r.obj.spec.continue_on_validation_error ≡ true)

  pub read_objects-kind :
      (path : FilePath) → Yields (All (λ o. C.get_kind o ≡ crd_kind)) (read_objects C path)
  unfolding read_objects
  read_objects-kind path = Yields-bind _ λ _. Yields-bind _ λ _. Yields-bind _ λ _.
      Yields-bind _ λ _. Yields-deferring _ (
        Yields-bind _ λ content. Yields-bind _ λ objects. Yields-pure _ (
          All-mono _ _ (select (λ o. C.get_kind o == crd_kind) objects)
            (λ o. (eq_iff (C.get_kind o) crd_kind).0)
            (All-select (λ o. C.get_kind o == crd_kind) objects)))

  pub label-IsOwned :
      IsLabelled C
      → (owner : String) (objects : List C.Object) → All (λ o. C.get_kind o ≡ crd_kind) objects
      → All (IsOwned owner) (map (label C owner) objects)
  unfolding label
  label-IsOwned laws owner objects all =
      All-map _ (IsOwned owner) (label C owner) objects
        (λ o k. (laws.kind _ o ∙ k, laws.labels _ o)) all

module _ {P : Platform} {O : OpenApi} {C : Cluster P O} (J : Run C → Type 0) {A : Type 0} where
  -- The two gates let a run through only if its checks are passed.
  refuse_breaking_lem :
      (k : M (Run C) A) (changes : List String) (r : Run C) (b : Bool)
      → ((s t : String) → J (record r { obj = mark C false s t r.obj }))
      → r.obj.spec.ignore_breaking_changes ≡ b
      → (r.obj.spec.ignore_breaking_changes ≡ true → J (k r).1)
      → J ((refuse_breaking C b changes >> k) r).1
  unfolding ◌>>=◌ refuse_breaking set_obj
  refuse_breaking_lem k changes r true marks e h = h e
  refuse_breaking_lem k changes r false marks e h = marks _ _

  pub gate_breaking_lem :
      (k : M (Run C) A) (changes : List String) (r : Run C)
      → ((s t : String) → J (record r { obj = mark C false s t r.obj }))
      → r.obj.status.breaking_changes ≡ changes
      → (IsCompatible C r → J (k r).1)
      → J ((gate_breaking C changes >> k) r).1
  unfolding ◌>>=◌ gate_breaking get_obj
  gate_breaking_lem k [] r marks e h = h (inl e)
  gate_breaking_lem k (c ∷ changes) r marks e h =
      refuse_breaking_lem k (c ∷ changes) r r.obj.spec.ignore_breaking_changes marks refl
        (λ i. h (inr i))

  after_validation_lem :
      (k : M (Run C) A) (objects : List C.Object) (r : Run C) (b : Bool) (o : Outcome (Unit {0}))
      → ((s t : String) → J (record r { obj = mark C false s t r.obj }))
      → J r
      → r.obj.spec.continue_on_validation_error ≡ b
      → validate_objects C r.obj objects ≡ o
      → (IsValidated C objects r → J (k r).1)
      → J ((after_validation C b o >> k) r).1
  unfolding ◌>>=◌ after_validation set_obj
  after_validation_lem k objects r b (ok _) marks j e v h = h (inl v)
  after_validation_lem k objects r true (err _) marks j e v h = h (inr e)
  after_validation_lem k objects r false (err _) marks j e v h = marks _ _
  after_validation_lem k objects r b panic marks j e v h = j

  pub gate_validation_lem :
      (k : M (Run C) A) (objects : List C.Object) (r : Run C)
      → ((s t : String) → J (record r { obj = mark C false s t r.obj }))
      → J r
      → (IsValidated C objects r → J (k r).1)
      → J ((gate_validation C objects >> k) r).1
  unfolding ◌>>=◌ gate_validation get_obj
  gate_validation_lem k objects r marks j h =
      after_validation_lem k objects r r.obj.spec.continue_on_validation_error
        (validate_objects C r.obj objects) marks j refl refl h
