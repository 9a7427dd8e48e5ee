-- ===== src/Program/Startup.antt =====
-- In which order the program starts, and how it ends.
use crd_bootstrap.Base.{
  ℕ, Bool, ◌⊎◌, inl, inr, String, List, [], ◌∷◌, ◌++◌, refl, Outcome, and_then,
}
use crd_bootstrap.Platform.{Semver, Platform}
use crd_bootstrap.Sources.Chain.{helm_provider}
use crd_bootstrap.Program.{
  Flags, BootstrapReconciler, Runtime, bootstrap, bootstrap_list, declared_flags, options,
}
use crd_bootstrap.Program.Steps.{
  Step, Process, go_on, parse_flags, parse_end, ◌>>=◌, registered, flags_parsed, config_read,
  manager_created, controller_completed, healthz_added, readyz_added, manager_started, get_config,
  complete, add_healthz_check, add_readyz_check, start,
}
use crd_bootstrap.Program.Main.{
  init, main, run_manager, run_program, setup_with_manager, flags_of, reconciler, add_to_scheme,
  add_known_types,
}
use crd_bootstrap.Program.Runs.{
  IsRun, Follows, IsRun-then, IsRun-on, must-IsRun, or_exit-IsRun, manager-IsRun, is_run, stopped,
  next, finished, refuses,
}

module _ {P : Platform} (R : Runtime P) where
  -- What a scheme is given for Bootstraps: their two kinds, under the group and version.
  abbrev pub own_kinds : R.Scheme → Outcome R.Scheme
  own_kinds scheme =
      and_then
        (R.add_known_types (record { group = "delivery.crd-bootstrap"; version = "v1alpha1" })
          (bootstrap ∷ bootstrap_list ∷ []) scheme)
        (R.add_to_group_version (record { group = "delivery.crd-bootstrap"; version = "v1alpha1" }))

  abbrev pub registrations : List (Step R)
  registrations =
      registered R.add_client_go
      ∷ registered R.add_core
      ∷ registered (R.run_builder (own_kinds ∷ []))
      ∷ registered R.add_extensions
      ∷ []

  init-IsRun : Follows registrations (init R)
  unfolding init add_to_scheme add_known_types
  init-IsRun = IsRun-then (must-IsRun R.add_client_go) λ _.
      IsRun-then (must-IsRun R.add_core) λ _.
        IsRun-then (must-IsRun (R.run_builder (own_kinds ∷ []))) λ _. must-IsRun R.add_extensions

  module _ (S : Semver)
      (sort_slice : (S.Version → S.Version → Bool) → List S.Version → List S.Version) where
    -- What is to be done with the flags, in order.
    abbrev pub manager_plan : Flags → List (Step R)
    manager_plan flags =
        config_read
        ∷ manager_created (record {
          metrics_bind_address = flags.metrics_addr;
          webhook_port = 9443;
          health_probe_bind_address = flags.probe_addr;
          leader_election = flags.enable_leader_election;
          leader_election_id = "02be0adc.crd-bootstrap";
        })
        ∷ controller_completed bootstrap (R.generation_changed ∷ []) (record {
          source_provider = helm_provider S sort_slice;
          default_service_account = flags.default_service_account;
        })
        ∷ healthz_added "healthz" R.ping
        ∷ readyz_added "readyz" R.ping
        ∷ manager_started
        ∷ []

    -- No more is to be done when the arguments are refused.
    abbrev pub flag_plan : ℕ ⊎ R.Parsed → List (Step R)
    flag_plan (inl n) = []
    flag_plan (inr parsed) = manager_plan (record {
      metrics_addr = R.text_of parsed "metrics-bind-address";
      enable_leader_election = R.truth_of parsed "leader-elect";
      probe_addr = R.text_of parsed "health-probe-bind-address";
      default_service_account = R.text_of parsed "default-service-account";
    })

    abbrev pub startup_plan : List String → List (Step R)
    startup_plan args =
        registrations ++ flags_parsed declared_flags ∷ flag_plan (R.parse declared_flags args)

    run_manager-IsRun :
        (flags : Flags) → Follows (manager_plan flags) (run_manager R S sort_slice flags)
    unfolding run_manager get_config setup_with_manager complete add_healthz_check add_readyz_check
        start
    run_manager-IsRun flags =
        let r : BootstrapReconciler P = reconciler R S sort_slice flags in
        IsRun-then (or_exit-IsRun config_read R.get_config (λ n. elim n [ ])) λ config.
          IsRun-then (manager-IsRun config (options flags)) λ manager.
            IsRun-then
              (or_exit-IsRun (controller_completed bootstrap (R.generation_changed ∷ []) r)
                (R.complete manager bootstrap (R.generation_changed ∷ []) r) (λ n. elim n [ ]))
              λ _.
                IsRun-then
                  (or_exit-IsRun (healthz_added "healthz" R.ping)
                    (R.add_healthz_check manager "healthz" R.ping) (λ n. elim n [ ]))
                  λ _.
                    IsRun-then
                      (or_exit-IsRun (readyz_added "readyz" R.ping)
                        (R.add_readyz_check manager "readyz" R.ping) (λ n. elim n [ ]))
                      λ _. or_exit-IsRun manager_started (R.start manager) (λ n. elim n [ ])

    main-IsRun :
        (args : List String) (p : Process R)
        → IsRun
            (flags_parsed declared_flags ∷ flag_plan (R.parse declared_flags args))
            p
            (main R S sort_slice args p)
    unfolding main parse_flags ◌>>=◌
    main-IsRun args p =
        elim (R.parse declared_flags args)
          as (λ o. IsRun (flags_parsed declared_flags ∷ flag_plan o) p (
            go_on (λ parsed. run_manager R S sort_slice (flags_of R parsed))
              (parse_end declared_flags o p))) [
                | inl n ↦ is_run (stopped [] (refuses n)) refl
                | inr parsed ↦
                    IsRun-on (next (finished parsed)) refl (run_manager-IsRun (flags_of R parsed) _)
              ]

    -- From any state, the program puts into its scheme, in this order, client-go, core, its own group
    -- and version with the kinds Bootstrap and BootstrapList, and the API extensions, parses its flags, and then, unless the arguments are refused, reads the configuration, makes
    -- the manager with the addresses and the leader election of the flags, completes the controller
    -- for Bootstraps, with the generation predicate, over the chain of sources that starts with Helm
    -- and with the service account of the flags, adds the two checks, and starts the manager, each
    -- step once and in this order, up to the first that does not succeed. It returns exactly when all
    -- of them have succeeded; a failed registration and a panic crash it, refused arguments end it
    -- with their status, and any other failure with status 1.
    pub run_program-IsRun :
        (args : List String) (p : Process R)
        → IsRun (startup_plan args) p (run_program R S sort_slice args p)
    unfolding run_program
    run_program-IsRun args = IsRun-then init-IsRun λ _. main-IsRun args
