-- ===== src/Program/Main.antt =====
-- cmd/main.go, `init` and `main`.
use crd_bootstrap.Base.{String, Bool, List, [], ◌∷◌, Outcome, and_then}
use crd_bootstrap.Platform.{Semver, Platform}
use crd_bootstrap.Sources.Chain.{helm_provider}
use crd_bootstrap.Program.{
  Flags, BootstrapReconciler, Runtime, bootstrap, bootstrap_list, group_version, declared_flags,
  options,
}
use crd_bootstrap.Program.Steps.{
  Go, must, or_exit, parse_flags, ◌>>=◌, get_config, new_manager, complete, add_healthz_check,
  add_readyz_check, start,
}

module _ {P : Platform} (R : Runtime P) where
  unfoldable pub add_known_types : R.Scheme → Outcome R.Scheme
  add_known_types scheme =
      and_then (R.add_known_types group_version (bootstrap ∷ bootstrap_list ∷ []) scheme)
        (R.add_to_group_version group_version)

  -- `AddToScheme` of the API group.
  unfoldable pub add_to_scheme : R.Scheme → Outcome R.Scheme
  unfolding add_known_types
  add_to_scheme = R.run_builder (add_known_types ∷ [])

  unfoldable pub init : Go R (Unit {0})
  unfolding must add_to_scheme ◌>>=◌
  init = do
    _ ← must R.add_client_go
    _ ← must R.add_core
    _ ← must add_to_scheme
    must R.add_extensions

  unfoldable pub setup_with_manager : R.Manager → BootstrapReconciler P → Go R (Outcome (Unit {0}))
  unfolding complete
  setup_with_manager manager r = complete manager bootstrap (R.generation_changed ∷ []) r

  abbrev pub flags_of : R.Parsed → Flags
  flags_of parsed = record {
    metrics_addr = R.text_of parsed "metrics-bind-address";
    enable_leader_election = R.truth_of parsed "leader-elect";
    probe_addr = R.text_of parsed "health-probe-bind-address";
    default_service_account = R.text_of parsed "default-service-account";
  }

  module _ (S : Semver)
      (sort_slice : (S.Version → S.Version → Bool) → List S.Version → List S.Version) where
    abbrev pub reconciler : Flags → BootstrapReconciler P
    reconciler flags = record {
      source_provider = helm_provider S sort_slice;
      default_service_account = flags.default_service_account;
    }

    -- `main` after the flags.
    unfoldable pub run_manager : Flags → Go R (Unit {0})
    unfolding or_exit setup_with_manager get_config new_manager add_healthz_check add_readyz_check
        start ◌>>=◌
    run_manager flags = do
      config ← or_exit get_config
      manager ← or_exit (new_manager config (options flags))
      _ ← or_exit (setup_with_manager manager (reconciler flags))
      _ ← or_exit (add_healthz_check manager "healthz" R.ping)
      _ ← or_exit (add_readyz_check manager "readyz" R.ping)
      or_exit (start manager)

    unfoldable pub main : List String → Go R (Unit {0})
    unfolding parse_flags run_manager ◌>>=◌
    main args = do parsed ← parse_flags declared_flags args; run_manager (flags_of parsed)

    -- The program: the package is initialised before `main` is called.
    unfoldable pub run_program : List String → Go R (Unit {0})
    unfolding init main ◌>>=◌
    run_program args = do _ ← init; main args
