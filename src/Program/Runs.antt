-- ===== src/Program/Runs.antt =====
-- Runs of the program along a plan of steps.
use crd_bootstrap.Base.{ℕ, List, [], ◌∷◌, ◌++◌, ◌≡◌, refl, ◌∙◌, ap, Outcome, ok, err, panic, M}
use mathlib.Core.List.{append_assoc}
use crd_bootstrap.Platform.{Platform}
use crd_bootstrap.Program.{Options, Runtime}
use crd_bootstrap.Program.Steps.{
  Step, Came, Ending, Process, Go, go_on, must, must_end, or_exit, asked, asked_end, exit_on_error,
  ◌>>=◌, going, ended, Exit, exited, crashed, succeeded, failed, panicked, refused, registered,
  manager_created, new_manager,
}

module _ {P : Platform} {R : Runtime P} where
  pub data Registers : Step R → Type 0 where
    registers : (add : R.Scheme → Outcome R.Scheme) → Registers (registered add)

  -- How the program ends after a step that has not succeeded: a failed registration panics, every
  -- other failed step is status 1, and arguments that are refused end it with their own status.
  pub data Stops (s : Step R) : Came → Exit → Type 0 where
    panics : Stops s panicked crashed
    refuses : (n : ℕ) → Stops s (refused n) (exited n)
    musts : Registers s → Stops s failed crashed
    exits : (Registers s → ⊥) → Stops s failed (exited 1)

  -- The steps of a plan are made in order, up to the first one that does not succeed; a value is
  -- there after all of them.
  pub data Runs {A : Type 0} : List (Step R) → List (Step R × Came) → Ending A → Type 0 where
    finished : (a : A) → Runs [] [] (going a)
    stopped :
        {s : Step R} {c : Came} {x : Exit} (rest : List (Step R))
        → Stops s c x
        → Runs (s ∷ rest) ((s, c) ∷ []) (ended x)
    next :
        {s : Step R} {rest : List (Step R)} {trace : List (Step R × Came)} {e : Ending A}
        → Runs rest trace e
        → Runs (s ∷ rest) ((s, succeeded) ∷ trace) e

  -- The steps made are those of the plan, after what was done before.
  pub data IsRun {A : Type 0} (plan : List (Step R)) (p : Process R)
      : Ending A × Process R → Type 0 where
    is_run :
        {trace : List (Step R × Came)} {e : Ending A} {q : Process R}
        → Runs plan trace e
        → q.steps ≡ p.steps ++ trace
        → IsRun plan p (e, q)

  abbrev pub Follows : {A : Type 0} → List (Step R) → Go R A → Type 0
  Follows plan m = (p : Process R) → IsRun plan p (m p)

  module _ {A B : Type 0} where
    Runs-stop :
        {plan : List (Step R)} (more : List (Step R)) {t : List (Step R × Came)} {x : Exit}
        → Runs {A = A} plan t (ended x)
        → Runs {A = B} (plan ++ more) t (ended x)
    Runs-stop more (stopped rest s) = stopped _ s
    Runs-stop more (next r) = next (Runs-stop more r)

    Runs-on :
        {plan more : List (Step R)} {t u : List (Step R × Came)} {a : A} {e : Ending B}
        → Runs plan t (going a)
        → Runs more u e
        → Runs (plan ++ more) (t ++ u) e
    Runs-on (finished _) q = q
    Runs-on (next r) q = next (Runs-on r q)

    pub IsRun-on :
        {plan more : List (Step R)} {t : List (Step R × Came)} {a : A} {p q : Process R}
        {r : Ending B × Process R}
        → Runs plan t (going a)
        → q.steps ≡ p.steps ++ t
        → IsRun more q r
        → IsRun (plan ++ more) p r
    IsRun-on {t = t} {p = p} r h (is_run {trace = u} r' h') =
        is_run (Runs-on r r') (h' ∙ ap (λ l. l ++ u) h ∙ append_assoc p.steps t u)

    -- A run that goes on goes on with another plan.
    pub go_on-IsRun :
        {plan more : List (Step R)} {p : Process R} {f : A → Go R B} {r : Ending A × Process R}
        → IsRun plan p r
        → ((a : A) → Follows more (f a))
        → IsRun (plan ++ more) p (go_on f r)
    go_on-IsRun (is_run {e = ended x} r h) k = is_run (Runs-stop _ r) h
    go_on-IsRun (is_run {e = going a} {q = q} r h) k = IsRun-on r h (k a q)

    pub IsRun-then :
        {plan more : List (Step R)} {m : Go R A} {f : A → Go R B}
        → Follows plan m
        → ((a : A) → Follows more (f a))
        → Follows (plan ++ more) (m >>= f)
    unfolding ◌>>=◌
    IsRun-then h k p = go_on-IsRun (h p) k

  -- Every step by itself.
  pub must-IsRun : (add : R.Scheme → Outcome R.Scheme) → Follows (registered add ∷ []) (must add)
  unfolding must
  must-IsRun add p =
      elim (add p.scheme) as (λ o. IsRun (registered add ∷ []) p (must_end (registered add) o p)) [
        | ok scheme ↦ is_run (next (finished tt)) refl
        | err e ↦ is_run (stopped [] (musts (registers add))) refl
        | panic ↦ is_run (stopped [] panics) refl
      ]

  asked_end-IsRun :
      {A : Type 0} (s : Step R) (o : Outcome A) (p : Process R) (w : P.Outside)
      → (Registers s → ⊥)
      → IsRun (s ∷ []) p (go_on exit_on_error (asked_end s o (record p { outside = w })))
  asked_end-IsRun s (ok a) p w n = is_run (next (finished a)) refl
  asked_end-IsRun s (err e) p w n = is_run (stopped [] (exits n)) refl
  asked_end-IsRun s panic p w n = is_run (stopped [] panics) refl

  pub or_exit-IsRun :
      {A : Type 0} (s : Step R) (m : M P.Outside A)
      → (Registers s → ⊥)
      → Follows (s ∷ []) (or_exit (asked s m))
  unfolding or_exit asked ◌>>=◌
  or_exit-IsRun s m n p = asked_end-IsRun s (m p.outside).0 p (m p.outside).1 n

  pub manager-IsRun :
      (config : R.Config) (o : Options)
      → Follows (manager_created o ∷ []) (or_exit (new_manager config o))
  unfolding or_exit new_manager asked ◌>>=◌
  manager-IsRun config o p =
      let (r, w) = R.new_manager config p.scheme o p.outside in
      asked_end-IsRun (manager_created o) r p w (λ n. elim n [ ])
