-- ===== src/Base/Fails.antt =====
-- What holds of the state where a computation has returned an error.
use mathlib.Core.Path.{◌≡◌, refl}
use crd_bootstrap.Base.Results.{
  Outcome, Error, ok, err, panic, M, pure, crash, resume, join_outcome, deferring, ◌>>=◌,
}

pub record Fails {ℓ κ μ} {S : Type ℓ} {A : Type κ} (Q : S → Type μ) (m : M S A)
    : Type (ℓ ⊔ κ ⊔ μ) where
  pub at : (s : S) (e : Error) → (m s).0 ≡ err e → Q (m s).1

-- A deferred call that does not fail leaves an error as it is.
pub deferring_err {ℓ} :
    {A : Type ℓ} (o : Outcome A) (c : Outcome (Unit {0})) (e : Error)
    → c ≡ ok tt
    → join_outcome o c ≡ err e
    → o ≡ err e
deferring_err o (ok _) e calm h = h
deferring_err o (err x) e calm h = cc
deferring_err o panic e calm h = cc

module _ {ℓ κ μ} {S : Type ℓ} {A : Type κ} {Q : S → Type μ} where
  Fails-resume {ν} :
      {B : Type ν} (f : B → M S A) (p : Outcome B × S)
      → ((e : Error) → p.0 ≡ err e → Q p.1)
      → ((b : B) → Fails Q (f b))
      → (e : Error) → (resume f p).0 ≡ err e
      → Q (resume f p).1
  Fails-resume f (ok b, s) hm hf e h = (hf b).at s e h
  Fails-resume f (err x, s) hm hf e h = hm x refl
  Fails-resume f (panic, s) hm hf e h = cc

  pub Fails-bind {ν} :
      {B : Type ν} {m : M S B} {f : B → M S A}
      → Fails Q m
      → ((b : B) → Fails Q (f b))
      → Fails Q (m >>= f)
  unfolding ◌>>=◌
  Fails-bind {m} {f} hm hf = record { at = λ s. Fails-resume f (m s) (hm.at s) hf }

  pub Fails-pure : (a : A) → Fails Q (pure a)
  unfolding ◌>>=◌
  Fails-pure a = record { at = λ s e h. cc }

  pub Fails-crash : Fails Q (crash {A = A})
  unfolding ◌>>=◌
  Fails-crash = record { at = λ s e h. cc }

  pub Fails-deferring :
      (close : M S (Unit {0})) {m : M S A}
      → ((s : S) → (close s).0 ≡ ok tt)
      → ((s : S) → Q s → Q (close s).1)
      → Fails Q m
      → Fails Q (deferring close m)
  unfolding ◌>>=◌
  Fails-deferring close {m} calm keeps hm = record {
    at = λ s e h.
        keeps (m s).1 (hm.at s e (deferring_err (m s).0 (close (m s).1).0 e (calm (m s).1) h));
  }
