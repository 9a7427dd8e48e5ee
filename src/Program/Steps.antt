-- ===== src/Program/Steps.antt =====
-- The program as a sequence of steps that ends at the first one that fails.
use crd_bootstrap.Base.{ℕ, ◌⊎◌, inl, inr, String, List, [], ◌∷◌, ◌++◌, Outcome, ok, err, panic, M}
use crd_bootstrap.Platform.{Platform}
use crd_bootstrap.Program.{Declared, Options, Kind, BootstrapReconciler, Runtime}

-- How a step came out; the arguments are refused with a status.
pub data Came : Type 0 where
  succeeded : Came
  failed : Came
  panicked : Came
  refused : ℕ → Came

-- How the program ends: by `os.Exit`, or by a panic.
pub data Exit : Type 0 where
  exited : ℕ → Exit
  crashed : Exit

-- The program goes on with a value, or has ended.
pub data Ending (A : Type 0) : Type 0 where
  going : A → Ending A
  ended : Exit → Ending A

module _ {P : Platform} where
  -- What the program asks of the runtime, in which the calls with the manager that it has made.
  pub data Step (R : Runtime P) : Type 0 where
    registered : (R.Scheme → Outcome R.Scheme) → Step R
    flags_parsed : List Declared → Step R
    config_read : Step R
    manager_created : Options → Step R
    controller_completed : Kind → List R.Predicate → BootstrapReconciler P → Step R
    healthz_added : String → R.Checker → Step R
    readyz_added : String → R.Checker → Step R
    manager_started : Step R

  -- The global scheme, everything outside, and the steps so far, the first one first.
  pub record Process (R : Runtime P) : Type 0 where
    pub scheme : R.Scheme
    pub outside : P.Outside
    pub steps : List (Step R × Came)

abbrev pub Go : {P : Platform} → Runtime P → Type 0 → Type 0
Go R A = Process R → Ending A × Process R

module _ {P : Platform} {R : Runtime P} where
  abbrev pub go_on : {A B : Type 0} → (A → Go R B) → Ending A × Process R → Ending B × Process R
  go_on f (going a, p) = f a p
  go_on f (ended x, p) = (ended x, p)

  infixl 5 ◌>>=◌
  unfoldable pub ◌>>=◌ : {A B : Type 0} → Go R A → (A → Go R B) → Go R B
  ◌>>=◌ m f p = go_on f (m p)

  abbrev pub noted : Step R → Came → Process R → Process R
  noted s c p = record p { steps = p.steps ++ (s, c) ∷ [] }

  abbrev pub must_end : Step R → Outcome R.Scheme → Process R → Ending (Unit {0}) × Process R
  must_end s (ok scheme) p = (going tt, noted s succeeded (record p { scheme = scheme }))
  must_end s (err e) p = (ended crashed, noted s failed p)
  must_end s panic p = (ended crashed, noted s panicked p)

  -- `utilruntime.Must(add(scheme))`
  unfoldable pub must : (R.Scheme → Outcome R.Scheme) → Go R (Unit {0})
  must add p = must_end (registered add) (add p.scheme) p

  abbrev pub asked_end :
      {A : Type 0} → Step R → Outcome A → Process R → Ending (Outcome A) × Process R
  asked_end s (ok a) p = (going (ok a), noted s succeeded p)
  asked_end s (err e) p = (going (err e), noted s failed p)
  asked_end s panic p = (ended crashed, noted s panicked p)

  -- A call whose error the caller looks at.
  unfoldable pub asked : {A : Type 0} → Step R → M P.Outside A → Go R (Outcome A)
  asked s m p = let (o, w) = m p.outside in asked_end s o (record p { outside = w })

  -- `ctrl.GetConfigOrDie` without the exit.
  unfoldable pub get_config : Go R (Outcome R.Config)
  unfolding asked
  get_config = asked config_read R.get_config

  -- `ctrl.NewManager`
  unfoldable pub new_manager : R.Config → Options → Go R (Outcome R.Manager)
  unfolding asked
  new_manager config options p =
      asked (manager_created options) (R.new_manager config p.scheme options) p

  unfoldable pub complete :
      R.Manager → Kind → List R.Predicate → BootstrapReconciler P → Go R (Outcome (Unit {0}))
  unfolding asked
  complete manager kind predicates r =
      asked (controller_completed kind predicates r) (R.complete manager kind predicates r)

  unfoldable pub add_healthz_check : R.Manager → String → R.Checker → Go R (Outcome (Unit {0}))
  unfolding asked
  add_healthz_check manager name c =
      asked (healthz_added name c) (R.add_healthz_check manager name c)

  unfoldable pub add_readyz_check : R.Manager → String → R.Checker → Go R (Outcome (Unit {0}))
  unfolding asked
  add_readyz_check manager name c = asked (readyz_added name c) (R.add_readyz_check manager name c)

  unfoldable pub start : R.Manager → Go R (Outcome (Unit {0}))
  unfolding asked
  start manager = asked manager_started (R.start manager)

  abbrev pub exit_on_error : {A : Type 0} → Outcome A → Go R A
  exit_on_error (ok a) p = (going a, p)
  exit_on_error (err e) p = (ended (exited 1), p)
  exit_on_error panic p = (ended crashed, p)

  -- `if err != nil { setupLog.Error(err, ...); os.Exit(1) }`
  unfoldable pub or_exit : {A : Type 0} → Go R (Outcome A) → Go R A
  unfolding ◌>>=◌
  or_exit m = m >>= exit_on_error

  abbrev pub parse_end : List Declared → ℕ ⊎ R.Parsed → Go R R.Parsed
  parse_end flags (inl n) p = (ended (exited n), noted (flags_parsed flags) (refused n) p)
  parse_end flags (inr parsed) p = (going parsed, noted (flags_parsed flags) succeeded p)

  -- `flag.Parse()`
  unfoldable pub parse_flags : List Declared → List String → Go R R.Parsed
  parse_flags flags args = parse_end flags (R.parse flags args)
