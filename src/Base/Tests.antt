-- ===== src/Base/Tests.antt =====
-- Boolean tests, the conditional, case lemmas and predicates on lists.
use Prim.Native.Nat.{ℕ, suc, compare, Ordering}
use Prim.Native.String.{String}
use mathlib.Core.Path.{◌≡◌, refl}
use mathlib.Core.Logic.{◌⊎◌, inl, inr}
use mathlib.Core.Bool.{Bool, true, false}
use mathlib.Core.Option.{Option, none, some}
use mathlib.Core.List.{List, [], ◌∷◌, map}
use text.Mathlib.Text

abbrev pub ltb : ℕ → ℕ → Bool
ltb a b = elim (compare a b) [ Ordering.lt ↦ true | _ ↦ false ]

-- Equality of numbers; `◌==◌` is that of texts.
abbrev pub eqb : ℕ → ℕ → Bool
eqb a b = elim (compare a b) [ Ordering.eq ↦ true | _ ↦ false ]

infix 50 ◌==◌
abbrev pub ◌==◌ : String → String → Bool
s == t = Text.◌==◌ s t

infix 1 if◌then◌else◌
abbrev pub if◌then◌else◌ {ℓ} : {A : Type ℓ} → Bool → A → A → A
if true then x else y = x
if false then x else y = y

pub Bool-cases : (b : Bool) → (b ≡ true) ⊎ (b ≡ false)
Bool-cases true = inl refl
Bool-cases false = inr refl

pub Option-cases {ℓ} : {A : Type ℓ} (o : Option A) → (o ≡ none) ⊎ ((a : A) × (o ≡ some a))
Option-cases none = inl refl
Option-cases (some a) = inr (a, refl)

abbrev pub is_empty {ℓ} : {A : Type ℓ} → List A → Bool
is_empty [] = true
is_empty (_ ∷ _) = false

abbrev pub length {ℓ} : {A : Type ℓ} → List A → ℕ
length [] = 0
length (_ ∷ xs) = suc (length xs)

abbrev pub All {ℓ κ} : {A : Type ℓ} → (A → Type κ) → List A → Type κ
All P [] = Unit
All P (x ∷ xs) = P x × All P xs

-- The elements that pass a test, in order.
unfoldable pub select {ℓ} : {A : Type ℓ} → (A → Bool) → List A → List A
select p [] = []
select p (x ∷ xs) = if p x then x ∷ select p xs else select p xs

pub All-select {ℓ} : {A : Type ℓ} (p : A → Bool) (xs : List A) → All (λ x. p x ≡ true) (select p xs)
unfolding select
All-select p [] = tt
All-select {A} p (x ∷ xs) = kept (p x) refl (All-select p xs)
  where
    kept :
        (b : Bool)
        → p x ≡ b
        → All (λ y. p y ≡ true) (select p xs)
        → All (λ y. p y ≡ true) (if b then x ∷ select p xs else select p xs)
    kept true e h = (e, h)
    kept false e h = h

module _ {ℓ κ μ ν} {A : Type ℓ} {B : Type κ} (Q : A → Type μ) (R : B → Type ν) where
  pub All-map : (f : A → B) (xs : List A) → ((x : A) → Q x → R (f x)) → All Q xs → All R (map f xs)
  All-map f [] h all = tt
  All-map f (x ∷ xs) h (q, all) = (h x q, All-map f xs h all)

module _ {ℓ κ μ} {A : Type ℓ} (Q : A → Type κ) (R : A → Type μ) where
  pub All-mono : (xs : List A) → ((x : A) → Q x → R x) → All Q xs → All R xs
  All-mono [] h all = tt
  All-mono (x ∷ xs) h (q, all) = (h x q, All-mono xs h all)
