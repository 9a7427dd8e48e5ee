-- ===== src/Base/Returns.antt =====
-- What holds of the value and of the state where a computation has returned.
use Prim.Native.String.{String}
use mathlib.Core.Path.{◌≡◌, refl, ap, ◌∙◌, sym, subst}
use mathlib.Core.List.{List}
use crd_bootstrap.Base.Results.{
  Outcome, ok, M, resume, wrapping, join_outcome, deferring, attempt, bind-eq-ok, ◌>>=◌,
}
use crd_bootstrap.Base.Keeps.{join_outcome-eq-ok}

pub record Returns {ℓ κ μ} {S : Type ℓ} {A : Type κ} (Q : A → S → Type μ) (m : M S A)
    : Type (ℓ ⊔ κ ⊔ μ) where
  pub at : (s : S) (a : A) → (m s).0 ≡ ok a → Q a (m s).1

module _ {ℓ κ μ} {S : Type ℓ} {A : Type κ} {Q : A → S → Type μ} where
  pub Returns-bind {ν} :
      {B : Type ν} (m : M S B) {f : B → M S A} → ((b : B) → Returns Q (f b)) → Returns Q (m >>= f)
  Returns-bind m {f} h = record {
    at = λ s a e.
        let (b, e0, e1, same) = bind-eq-ok m f s a e in subst (Q a) (sym same) ((h b).at _ a e1);
  }

  -- Here the value of the first step may be used, and that the step has returned it somewhere.
  pub Returns-known {ν} :
      {B : Type ν} (m : M S B) {f : B → M S A}
      → ((b : B) (s : S) → (m s).0 ≡ ok b → Returns Q (f b))
      → Returns Q (m >>= f)
  Returns-known m {f} h = record {
    at = λ s a e.
        let (b, e0, e1, same) = bind-eq-ok m f s a e in
        subst (Q a) (sym same) ((h b s e0).at _ a e1);
  }

  pub Returns-deferring :
      (close : M S (Unit {0})) {m : M S A}
      → ((s : S) (a : A) → Q a s → Q a (close s).1)
      → Returns Q m
      → Returns Q (deferring close m)
  unfolding ◌>>=◌
  Returns-deferring close {m} keeps h = record {
    at = λ s a e. keeps (m s).1 a (h.at s a (join_outcome-eq-ok (m s).0 (close (m s).1).0 a e));
  }

pub Returns-mono {ℓ κ μ ν} :
    {S : Type ℓ} {A : Type κ} {Q : A → S → Type μ} {R : A → S → Type ν} {m : M S A}
    → ((a : A) (s : S) → Q a s → R a s)
    → Returns Q m
    → Returns R m
Returns-mono {m} weaken h = record { at = λ s a e. weaken a (m s).1 (h.at s a e) }

-- A computation that returns, and what holds of the state then.
pub record Goes {ℓ κ μ} {S : Type ℓ} {A : Type κ} (Q : S → Type μ) (m : M S A) (s : S)
    : Type (κ ⊔ μ) where
  pub result : A
  pub returned : (m s).0 ≡ ok result
  pub after : Q (m s).1

pub Goes-bind {ℓ κ μ ν} :
    {S : Type ℓ} {A : Type κ} {B : Type μ} {Q : S → Type ν} (m : M S A) (f : A → M S B) (s t : S)
    (a : A)
    → m s ≡ (ok a, t)
    → Goes Q (f a) t
    → Goes Q (m >>= f) s
unfolding ◌>>=◌
Goes-bind {Q} m f s t a e h = record {
  result = h.result;
  returned = ap (λ p. (resume f p).0) e ∙ h.returned;
  after = subst (λ p. Q (resume f p).1) (sym e) h.after;
}

-- The first step of a computation whose outcome is known.
pub bind-ok {ℓ κ μ} :
    {S : Type ℓ} {A : Type κ} {B : Type μ} (m : M S A) (f : A → M S B) (s t : S) (a : A)
    {o : Outcome B × S}
    → m s ≡ (ok a, t)
    → f a t ≡ o
    → (m >>= f) s ≡ o
unfolding ◌>>=◌
bind-ok m f s t a e h = ap (resume f) e ∙ h

pub wrapping-ok {ℓ κ} :
    {S : Type ℓ} {A : Type κ} (text : String) (args : List String) (m : M S A) (s t : S) (a : A)
    → m s ≡ (ok a, t)
    → wrapping text args m s ≡ (ok a, t)
unfolding ◌>>=◌
wrapping-ok text args m s t a e = rw e refl

pub Goes-deferring {ℓ κ μ ν} :
    {S : Type ℓ} {A : Type κ} {Q : S → Type μ} {R : S → Type ν} (close : M S (Unit {0})) (m : M S A)
    (s : S)
    → ((t : S) → (close t).0 ≡ ok tt)
    → ((t : S) → Q t → R (close t).1)
    → Goes Q m s
    → Goes R (deferring close m) s
unfolding ◌>>=◌
Goes-deferring close m s calm keeps h = record {
  result = h.result;
  returned = ap (λ c. join_outcome (m s).0 c) (calm (m s).1) ∙ h.returned;
  after = keeps (m s).1 h.after;
}

pub attempt-ok {ℓ κ} :
    {S : Type ℓ} {A : Type κ} (m : M S A) (s t : S) (a : A)
    → m s ≡ (ok a, t)
    → attempt m s ≡ (ok (ok a), t)
unfolding ◌>>=◌
attempt-ok m s t a e = rw e refl

pub deferring-ok {ℓ κ} :
    {S : Type ℓ} {A : Type κ} (close : M S (Unit {0})) (m : M S A) (s t u : S) (a : A)
    → m s ≡ (ok a, t)
    → close t ≡ (ok tt, u)
    → deferring close m s ≡ (ok a, u)
unfolding ◌>>=◌
deferring-ok close m s t u a e h = rw (e, h) refl
