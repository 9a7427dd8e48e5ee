-- ===== src/Tests/Startups.antt =====
-- Tests of the start of the program, and an example of the theorem on it.
use crd_bootstrap.Base.{
  ℕ, inl, inr, String, ◌≡◌, refl, false, [], ◌∷◌, ok, err, List, if◌then◌else◌,
}
use crd_bootstrap.Base.{Error, eqb, ◌==◌}
use crd_bootstrap.Program.{Runtime, Kind}
use crd_bootstrap.Program.Steps.{Process, exited, ended, going, ◌>>=◌}
use crd_bootstrap.Program.Main.{run_program}
use crd_bootstrap.Program.Runs.{IsRun}
use crd_bootstrap.Program.Startup.{startup_plan, run_program-IsRun}
use crd_bootstrap.Tests.{plain_semver, local, sort_by}

abbrev account_of : List String → String
account_of [] = ""
account_of (a ∷ rest) = a

-- The arguments are a service account, or refused; a scheme is the list of the kinds it knows; in
-- the state 7 no check can be added.
abbrev runtime : Runtime local
runtime = record {
  Scheme = List Kind;
  add_client_go = λ s. ok s;
  add_core = λ s. ok s;
  add_extensions = λ s. ok s;
  add_known_types = λ v kinds s. ok kinds;
  add_to_group_version = λ v s. ok s;
  run_builder = λ adds s. elim adds [ [] ↦ ok s | add ∷ rest ↦ add s ];
  Parsed = String;
  parse = λ flags args. if account_of args == "-help" then inl 2 else inr (account_of args);
  text_of = λ account name. if name == "default-service-account" then account else "";
  truth_of = λ account name. false;
  Config = Unit;
  get_config = λ s. (ok tt, s);
  Manager = Unit;
  new_manager = λ config scheme options s. (ok tt, s);
  Predicate = Unit;
  generation_changed = tt;
  complete = λ m kind ps r s. (ok tt, s);
  Checker = Unit;
  ping = tt;
  add_healthz_check = λ m name c s. (ok tt, s);
  add_readyz_check =
      λ m name c s. (if eqb s 7 then err (Error.foreign "no more checks") else ok tt, s);
  start = λ m s. (ok tt, s);
}

abbrev process : ℕ → Process runtime
process s = record { scheme = []; outside = s; steps = [] }

returns : (run_program runtime plain_semver sort_by ("a" ∷ []) (process 0)).0 ≡ going tt
unfolding run_program ◌>>=◌
returns = refl

-- A check that fails is the last step.
exits : (run_program runtime plain_semver sort_by ("a" ∷ []) (process 7)).0 ≡ ended (exited 1)
unfolding run_program ◌>>=◌
exits = refl

refuses : (run_program runtime plain_semver sort_by ("-help" ∷ []) (process 0)).0 ≡ ended (exited 2)
unfolding run_program ◌>>=◌
refuses = refl

run_program-IsRun_example :
    IsRun
      (startup_plan runtime plain_semver sort_by ("a" ∷ []))
      (process 7)
      (run_program runtime plain_semver sort_by ("a" ∷ []) (process 7))
run_program-IsRun_example = run_program-IsRun runtime plain_semver sort_by ("a" ∷ []) (process 7)
