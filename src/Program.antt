-- ===== src/Program.antt =====
-- cmd/main.go with SetupWithManager of internal/controller/bootstrap_controller.go and
-- api/v1alpha1/groupversion_info.go: from the arguments to the running manager.
pub mod Steps
pub mod Main
pub mod Runs
pub mod Startup
use crd_bootstrap.Base.{ℕ, ◌⊎◌, String, Bool, false, List, [], ◌∷◌, Outcome, M}
use crd_bootstrap.Platform.{Platform}
use crd_bootstrap.Sources.{Contract}

pub record GroupVersion : Type 0 where
  pub group : String
  pub version : String

abbrev pub group_version : GroupVersion
group_version = record { group = "delivery.crd-bootstrap"; version = "v1alpha1" }

-- The types of the API group.
pub data Kind : Type 0 where
  bootstrap : Kind
  bootstrap_list : Kind

-- What `flag.StringVar` and `flag.BoolVar` declare: a name and a default.
pub data Declared : Type 0 where
  text : String → String → Declared
  truth : String → Bool → Declared

pub record Flags : Type 0 where
  pub metrics_addr : String
  pub enable_leader_election : Bool
  pub probe_addr : String
  pub default_service_account : String

-- `ctrl.Options`, as far as they are set; the scheme is the program's.
pub record Options : Type 0 where
  pub metrics_bind_address : String
  pub webhook_port : ℕ
  pub health_probe_bind_address : String
  pub leader_election : Bool
  pub leader_election_id : String

-- The flags of `main`.
abbrev pub declared_flags : List Declared
declared_flags =
    text "metrics-bind-address" ":8080"
    ∷ text "health-probe-bind-address" ":8081"
    ∷ truth "leader-elect" false
    ∷ text "default-service-account" ""
    ∷ []

abbrev pub options : Flags → Options
options flags = record {
  metrics_bind_address = flags.metrics_addr;
  webhook_port = 9443;
  health_probe_bind_address = flags.probe_addr;
  leader_election = flags.enable_leader_election;
  leader_election_id = "02be0adc.crd-bootstrap";
}

module _ (P : Platform) where
  -- `BootstrapReconciler`; its client and its scheme are the manager's.
  pub record BootstrapReconciler : Type 0 where
    pub source_provider : Contract P
    pub default_service_account : String

  -- apimachinery, client-go, controller-runtime and flag, as far as they are used to start.
  pub record Runtime : Type 1 where
    pub Scheme : Type 0
    -- `AddToScheme` of client-go, of core/v1 and of apiextensions/v1
    pub add_client_go : Scheme → Outcome Scheme
    pub add_core : Scheme → Outcome Scheme
    pub add_extensions : Scheme → Outcome Scheme
    pub add_known_types : GroupVersion → List Kind → Scheme → Outcome Scheme
    pub add_to_group_version : GroupVersion → Scheme → Outcome Scheme
    -- `runtime.SchemeBuilder.AddToScheme`
    pub run_builder : List (Scheme → Outcome Scheme) → Scheme → Outcome Scheme
    -- what the arguments, those for the flags of zap among them, give to the flag of a name, or the status with which they end the program
    pub Parsed : Type 0
    pub parse : List Declared → List String → ℕ ⊎ Parsed
    pub text_of : Parsed → String → String
    pub truth_of : Parsed → String → Bool
    pub Config : Type 0
    pub get_config : M P.Outside Config
    pub Manager : Type 0
    pub new_manager : Config → Scheme → Options → M P.Outside Manager
    -- `ctrl.NewControllerManagedBy(mgr).For(kind, predicates).Complete(r)`
    pub Predicate : Type 0
    pub generation_changed : Predicate
    pub complete : Manager → Kind → List Predicate → BootstrapReconciler → M P.Outside (Unit {0})
    pub Checker : Type 0
    pub ping : Checker
    pub add_healthz_check : Manager → String → Checker → M P.Outside (Unit {0})
    pub add_readyz_check : Manager → String → Checker → M P.Outside (Unit {0})
    pub start : Manager → M P.Outside (Unit {0})
