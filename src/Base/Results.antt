-- ===== src/Base/Results.antt =====
-- Go's results: a value, an error, or a panic; and functions that also change a state.
-- A call that returns a value beside a non-nil error is an error here: every caller in the
-- program looks at the error first.
use Prim.Native.Nat.{ℕ}
use Prim.Native.String.{String}
use mathlib.Core.Path.{◌≡◌, refl, ap}
use mathlib.Core.Logic.{◌⊎◌, inl, inr}
use mathlib.Core.Bool.{Bool, true, false}
use mathlib.Core.Option.{Option, none, some, some-injective}
use mathlib.Core.List.{List}

-- `msg` is `errors.New` or a formatted text, `coded` a text that shows a number, `wrap` is `fmt.Errorf` with `%w`, `join` is
-- `errors.Join` of two errors, and `foreign` is an error made by a library.
pub data Error : Type 0 where
  msg : String → List String → Error
  coded : String → ℕ → Error
  wrap : String → List String → Error → Error
  join : Error → Error → Error
  foreign : String → Error

pub data Outcome {ℓ} (A : Type ℓ) : Type ℓ where
  ok : A → Outcome A
  err : Error → Outcome A
  panic : Outcome A

abbrev pub M {ℓ κ} : Type ℓ → Type κ → Type (ℓ ⊔ κ)
M S A = S → Outcome A × S

unfoldable pub pure {ℓ κ} : {S : Type ℓ} {A : Type κ} → A → M S A
pure a s = (ok a, s)

unfoldable pub fail {ℓ κ} : {S : Type ℓ} {A : Type κ} → Error → M S A
fail e s = (err e, s)

unfoldable pub crash {ℓ κ} : {S : Type ℓ} {A : Type κ} → M S A
crash s = (panic, s)

-- What follows a call that has returned.
abbrev pub resume {ℓ κ μ} :
    {S : Type ℓ} {A : Type κ} {B : Type μ} → (A → M S B) → Outcome A × S → Outcome B × S
resume f (ok a, s) = f a s
resume f (err e, s) = (err e, s)
resume f (panic, s) = (panic, s)

-- A pure step that may fail.
unfoldable pub from {ℓ κ} : {S : Type ℓ} {A : Type κ} → Outcome A → M S A
from o s = (o, s)

-- A look at the state.
unfoldable pub gets {ℓ κ} : {S : Type ℓ} {A : Type κ} → (S → A) → M S A
gets f s = (ok (f s), s)

abbrev pub map_err {ℓ} : {A : Type ℓ} → (Error → Error) → Outcome A → Outcome A
map_err f (ok a) = ok a
map_err f (err e) = err (f e)
map_err f panic = panic

-- `if err != nil { return fmt.Errorf(text, args..., err) }`
unfoldable pub wrapping {ℓ κ} : {S : Type ℓ} {A : Type κ} → String → List String → M S A → M S A
wrapping text args m s = let (o, s') = m s in (map_err (wrap text args) o, s')

abbrev pub and_then {ℓ κ} : {A : Type ℓ} {B : Type κ} → Outcome A → (A → Outcome B) → Outcome B
and_then (ok a) f = f a
and_then (err e) f = err e
and_then panic f = panic

-- A call whose error is only looked at later; a panic goes on at once.
abbrev pub caught {ℓ} : {A : Type ℓ} → Outcome A → Outcome (Outcome A)
caught (ok a) = ok (ok a)
caught (err e) = ok (err e)
caught panic = panic

unfoldable pub attempt {ℓ κ} : {S : Type ℓ} {A : Type κ} → M S A → M S (Outcome A)
attempt m s = let (o, s') = m s in (caught o, s')

-- A deferred call whose error is dropped.
abbrev pub drop_error : Outcome (Unit {0}) → Outcome (Unit {0})
drop_error (err e) = ok tt
drop_error o = o

unfoldable pub ignoring {ℓ} : {S : Type ℓ} → M S (Unit {0}) → M S (Unit {0})
ignoring m s = let (o, s') = m s in (drop_error o, s')

-- Use of a pointer, which panics if it is nil.
abbrev pub deref {ℓ} : {A : Type ℓ} → Option A → Outcome A
deref none = panic
deref (some a) = ok a

-- `v, ok := e; if !ok { return err }`
abbrev pub or_fail {ℓ} : {A : Type ℓ} → Error → Option A → Outcome A
or_fail e none = err e
or_fail e (some a) = ok a

-- `if b { return err }`
abbrev pub fail_if : Bool → Error → Outcome (Unit {0})
fail_if true e = err e
fail_if false e = ok tt

-- A deferred call that joins its error to the function's, as in
-- `defer func() { if cerr := close(); cerr != nil { err = errors.Join(err, cerr) } }()`.
-- `errors.Join` of nil and an error reads as that error.
abbrev pub join_outcome {ℓ} : {A : Type ℓ} → Outcome A → Outcome (Unit {0}) → Outcome A
join_outcome o (ok _) = o
join_outcome (ok a) (err e) = err e
join_outcome (err e) (err e') = err (join e e')
join_outcome panic (err e) = panic
join_outcome o panic = panic

unfoldable pub deferring {ℓ κ} : {S : Type ℓ} {A : Type κ} → M S (Unit {0}) → M S A → M S A
deferring close m s = let (o, s') = m s in let (c, t) = close s' in (join_outcome o c, t)

-- To open this is to open all the ways to build a computation.
infixl 5 ◌>>=◌ ◌>>◌
unfoldable pub ◌>>=◌ {ℓ κ μ} : {S : Type ℓ} {A : Type κ} {B : Type μ} → M S A → (A → M S B) → M S B
unfolding pure fail crash gets from wrapping attempt ignoring deferring
◌>>=◌ m f s = resume f (m s)

abbrev pub ◌>>◌ {ℓ μ} : {S : Type ℓ} {B : Type μ} → M S (Unit {0}) → M S B → M S B
m >> k = m >>= λ _. k

pub ok-injective {ℓ} : {A : Type ℓ} {a b : A} → ok a ≡ ok b → a ≡ b
ok-injective e = cc

-- Inversion of a step that has succeeded.
pub and_then-eq-ok {ℓ κ} :
    {A : Type ℓ} {B : Type κ} (o : Outcome A) (f : A → Outcome B) {b : B}
    → and_then o f ≡ ok b
    → (a : A) × (o ≡ ok a) × (f a ≡ ok b)
and_then-eq-ok (ok a) f h = (a, refl, h)
and_then-eq-ok (err e) f h = cc
and_then-eq-ok panic f h = cc

pub map_err-eq-ok {ℓ} :
    {A : Type ℓ} (f : Error → Error) (o : Outcome A) {a : A} → map_err f o ≡ ok a → o ≡ ok a
map_err-eq-ok f (ok a) h = h
map_err-eq-ok f (err e) h = cc
map_err-eq-ok f panic h = cc

pub or_fail-eq-ok {ℓ} :
    {A : Type ℓ} (e : Error) (o : Option A) {a : A} → or_fail e o ≡ ok a → o ≡ some a
or_fail-eq-ok e none h = cc
or_fail-eq-ok e (some b) h = cc

pub fail_if-eq-ok : (b : Bool) (e : Error) {u : Unit {0}} → fail_if b e ≡ ok u → b ≡ false
fail_if-eq-ok true e h = cc
fail_if-eq-ok false e h = refl

-- A computation that has returned went on from each of its steps.
module _ {ℓ κ μ} {S : Type ℓ} {A : Type κ} {B : Type μ} where
  resume-eq-ok :
      (f : A → M S B) (p : Outcome A × S) (b : B)
      → (resume f p).0 ≡ ok b
      → (a : A) × (p.0 ≡ ok a) × ((f a p.1).0 ≡ ok b) × ((resume f p).1 ≡ (f a p.1).1)
  resume-eq-ok f (ok a, s) b e = (a, refl, e, refl)
  resume-eq-ok f (err _, s) b e = cc
  resume-eq-ok f (panic, s) b e = cc

  pub bind-eq-ok :
      (m : M S A) (f : A → M S B) (s : S) (b : B)
      → ((m >>= f) s).0 ≡ ok b
      → (a : A) × ((m s).0 ≡ ok a) × ((f a (m s).1).0 ≡ ok b) × (((m >>= f) s).1 ≡ (f a (m s).1).1)
  unfolding ◌>>=◌
  bind-eq-ok m f s b e = resume-eq-ok f (m s) b e

-- A pointer that is not nil.
pub from_deref {ℓ κ μ} :
    {S : Type ℓ} {A : Type κ} {B : Type μ} (o : Option A) (a : A) (f : A → M S B)
    → o ≡ some a
    → (from (deref o) >>= f) ≡ f a
unfolding ◌>>=◌
from_deref none a f e = cc
from_deref (some b) a f e = ap f (some-injective b a e)

pub Outcome-cases {ℓ} :
    {A : Type ℓ} (o : Outcome A)
    → ((a : A) × (o ≡ ok a)) ⊎ ((e : Error) × (o ≡ err e)) ⊎ (o ≡ panic)
Outcome-cases (ok a) = inl (a, refl)
Outcome-cases (err e) = inr (inl (e, refl))
Outcome-cases panic = inr (inr refl)
