-- ===== src/Base/Keeps.antt =====
-- Invariants of effectful code: what every outcome of a computation, errors and panics included,
-- leaves true of the state. One rule for each way to build a computation.
use Prim.Native.String.{String}
use mathlib.Core.List.{List}
use mathlib.Core.Path.{◌≡◌, refl, subst}
use crd_bootstrap.Base.Results.{
  Error, Outcome, ok, err, panic, M, pure, fail, crash, gets, resume, ◌>>=◌, ◌>>◌, from, wrapping,
  deferring, attempt, ignoring, join_outcome, ok-injective,
}

pub record Keeps {ℓ κ μ} {S : Type ℓ} {A : Type κ} (I : S → Type μ) (m : M S A) : Type (ℓ ⊔ μ) where
  pub at : (s : S) → I s → I (m s).1

module _ {ℓ μ} {S : Type ℓ} {I : S → Type μ} where
  Keeps-resume {κ ν} :
      {A : Type κ} {B : Type ν} (f : A → M S B) (p : Outcome A × S)
      → I p.1
      → ((a : A) → Keeps I (f a))
      → I (resume f p).1
  Keeps-resume f (ok a, s) i h = (h a).at s i
  Keeps-resume f (err e, s) i h = i
  Keeps-resume f (panic, s) i h = i

  pub Keeps-bind {κ ν} :
      {A : Type κ} {B : Type ν} {m : M S A} {f : A → M S B}
      → Keeps I m
      → ((a : A) → Keeps I (f a))
      → Keeps I (m >>= f)
  unfolding ◌>>=◌
  Keeps-bind {m} {f} hm hf = record { at = λ s i. Keeps-resume f (m s) (hm.at s i) hf }

  pub Keeps-then {ν} :
      {B : Type ν} {m : M S (Unit {0})} {k : M S B} → Keeps I m → Keeps I k → Keeps I (m >> k)
  unfolding ◌>>=◌
  Keeps-then {m} {k} hm hk = record {
    at = λ s i. Keeps-resume (λ _. k) (m s) (hm.at s i) (λ _. hk);
  }

  pub Keeps-deferring {κ} :
      {A : Type κ} {close : M S (Unit {0})} {m : M S A}
      → Keeps I close
      → Keeps I m
      → Keeps I (deferring close m)
  unfolding ◌>>=◌
  Keeps-deferring {close} {m} hc hm = record { at = λ s i. hc.at (m s).1 (hm.at s i) }

module _ {ℓ μ κ} {S : Type ℓ} {I : S → Type μ} {A : Type κ} where
  pub Keeps-from : (o : Outcome A) → Keeps I (from o)
  unfolding ◌>>=◌
  Keeps-from o = record { at = λ s i. i }

  pub Keeps-pure : (a : A) → Keeps I (pure a)
  unfolding ◌>>=◌
  Keeps-pure a = record { at = λ s i. i }

  pub Keeps-gets : (f : S → A) → Keeps I (gets f)
  unfolding ◌>>=◌
  Keeps-gets f = record { at = λ s i. i }

  pub Keeps-fail : (e : Error) → Keeps I (fail {A = A} e)
  unfolding ◌>>=◌
  Keeps-fail e = record { at = λ s i. i }

  pub Keeps-crash : Keeps I (crash {A = A})
  unfolding ◌>>=◌
  Keeps-crash = record { at = λ s i. i }

  pub Keeps-wrapping :
      (text : String) (args : List String) {m : M S A} → Keeps I m → Keeps I (wrapping text args m)
  unfolding ◌>>=◌
  Keeps-wrapping text args h = record { at = λ s i. h.at s i }

  pub Keeps-attempt : {m : M S A} → Keeps I m → Keeps I (attempt m)
  unfolding ◌>>=◌
  Keeps-attempt h = record { at = λ s i. h.at s i }

module _ {ℓ μ} {S : Type ℓ} {I : S → Type μ} where
  pub Keeps-ignoring : {m : M S (Unit {0})} → Keeps I m → Keeps I (ignoring m)
  unfolding ◌>>=◌
  Keeps-ignoring h = record { at = λ s i. h.at s i }

-- From a state with `Q` to one with `J`, on every outcome.
pub record Leads {ℓ κ μ ν} {S : Type ℓ} {A : Type κ} (Q : S → Type μ) (J : S → Type ν) (m : M S A)
    : Type (ℓ ⊔ μ ⊔ ν) where
  pub to : (s : S) → Q s → J (m s).1

module _ {ℓ μ ν} {S : Type ℓ} {Q : S → Type μ} {J : S → Type ν} where
  Leads-resume {κ ξ} :
      {A : Type κ} {B : Type ξ} (f : A → M S B) (p : Outcome A × S)
      → ((s : S) → Q s → J s)
      → Q p.1
      → ((a : A) → p.0 ≡ ok a → J (f a p.1).1)
      → J (resume f p).1
  Leads-resume f (ok a, s) weaken i h = h a refl
  Leads-resume f (err e, s) weaken i h = weaken s i
  Leads-resume f (panic, s) weaken i h = weaken s i

  -- The rest of a block may use what the step has returned.
  Leads-bind_from {κ ξ} :
      {A : Type κ} {B : Type ξ} {m : M S A} (f : A → M S B)
      → ((s : S) → Q s → J s)
      → Keeps Q m
      → ((s : S) → Q s → (a : A) → (m s).0 ≡ ok a → Q (m s).1 → J (f a (m s).1).1)
      → Leads Q J (m >>= f)
  unfolding ◌>>=◌
  Leads-bind_from {m} f weaken hm hf = record {
    to = λ s i. Leads-resume f (m s) weaken (hm.at s i) (λ a e. hf s i a e (hm.at s i));
  }

  pub Leads-bind {κ ξ} :
      {A : Type κ} {B : Type ξ} {m : M S A} {f : A → M S B}
      → ((s : S) → Q s → J s)
      → Keeps Q m
      → ((a : A) → Leads Q J (f a))
      → Leads Q J (m >>= f)
  Leads-bind {f} weaken hm hf = Leads-bind_from f weaken hm (λ s i a e j. (hf a).to _ j)

  pub Leads-then {ξ} :
      {B : Type ξ} {m : M S (Unit {0})} {k : M S B}
      → ((s : S) → Q s → J s)
      → Keeps Q m
      → Leads Q J k
      → Leads Q J (m >> k)
  Leads-then {k} weaken hm hk = Leads-bind_from (λ _. k) weaken hm (λ s i a e j. hk.to _ j)

  pub Leads-deferring {κ} :
      {A : Type κ} {close : M S (Unit {0})} {m : M S A}
      → Keeps J close
      → Leads Q J m
      → Leads Q J (deferring close m)
  unfolding ◌>>=◌
  Leads-deferring {close} {m} hc hm = record { to = λ s i. hc.at (m s).1 (hm.to s i) }

-- What holds of a value that is returned.
pub record Yields {ℓ κ μ} {S : Type ℓ} {A : Type κ} (R : A → Type μ) (m : M S A)
    : Type (ℓ ⊔ κ ⊔ μ) where
  pub of : (s : S) (a : A) → (m s).0 ≡ ok a → R a

pub join_outcome-eq-ok {ℓ} :
    {A : Type ℓ} (o : Outcome A) (c : Outcome (Unit {0})) (a : A)
    → join_outcome o c ≡ ok a
    → o ≡ ok a
join_outcome-eq-ok o (ok _) a e = e
join_outcome-eq-ok (ok b) (err _) a e = cc
join_outcome-eq-ok (err _) (err _) a e = cc
join_outcome-eq-ok panic (err _) a e = cc
join_outcome-eq-ok (ok b) panic a e = cc
join_outcome-eq-ok (err _) panic a e = cc
join_outcome-eq-ok panic panic a e = cc

module _ {ℓ κ μ} {S : Type ℓ} {A : Type κ} {R : A → Type μ} where
  Yields-resume {ν} :
      {B : Type ν} (f : B → M S A) (p : Outcome B × S)
      → ((b : B) → Yields R (f b))
      → (a : A) → (resume f p).0 ≡ ok a
      → R a
  Yields-resume f (ok b, s) h a e = (h b).of s a e
  Yields-resume f (err _, s) h a e = cc
  Yields-resume f (panic, s) h a e = cc

  pub Yields-bind {ν} :
      {B : Type ν} (m : M S B) {f : B → M S A} → ((b : B) → Yields R (f b)) → Yields R (m >>= f)
  unfolding ◌>>=◌
  Yields-bind m {f} h = record { of = λ s. Yields-resume f (m s) h }

  pub Yields-from : (o : Outcome A) → ((a : A) → o ≡ ok a → R a) → Yields R (from {S = S} o)
  unfolding ◌>>=◌
  Yields-from o h = record { of = λ s. h }

  pub Yields-fail : (e : Error) → Yields R (fail {S = S} e)
  unfolding ◌>>=◌
  Yields-fail e = record { of = λ s a h. cc }

  pub Yields-pure : (a : A) → R a → Yields R (pure {S = S} a)
  unfolding ◌>>=◌
  Yields-pure a h = record { of = λ s b e. subst R (ok-injective e) h }

  pub Yields-deferring :
      (close : M S (Unit {0})) {m : M S A} → Yields R m → Yields R (deferring close m)
  unfolding ◌>>=◌
  Yields-deferring close {m} h = record {
    of = λ s a e. h.of s a (join_outcome-eq-ok (m s).0 (close (m s).1).0 a e);
  }

-- A step with a postcondition on what it returns.
pub Leads-bind-Yields {ℓ μ ν κ ξ ρ} :
    {S : Type ℓ} {Q : S → Type μ} {J : S → Type ν} {A : Type κ} {B : Type ξ} {R : A → Type ρ}
    {m : M S A} (f : A → M S B)
    → ((s : S) → Q s → J s)
    → Keeps Q m
    → Yields R m
    → ((a : A) → R a → Leads Q J (f a))
    → Leads Q J (m >>= f)
Leads-bind-Yields f weaken hm ym hf =
    Leads-bind_from f weaken hm (λ s i a e j. (hf a (ym.of s a e)).to _ j)

pub ruleset keeps_rules = (
  Keeps-bind, Keeps-then, Keeps-deferring, Keeps-from, Keeps-pure, Keeps-fail, Keeps-crash,
  Keeps-wrapping, Keeps-attempt, Keeps-ignoring,
)
