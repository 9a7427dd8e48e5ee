-- ===== src/Controller.antt =====
-- internal/controller: the interface of the cluster, the state of a run of `Reconcile`.
pub mod Advance
pub mod Bare
pub mod Objects
pub mod Reconcile
pub mod Delete
pub mod Keeps
pub mod Checks
pub mod Update
pub mod Apply
pub mod Safety
pub mod Progress
pub mod History
pub mod Counting
pub mod Failures
pub mod Convergence
pub mod Contents
pub mod Installs
pub mod Validation
pub mod Success
pub mod Liveness
pub mod Files
pub mod Cleanup
pub mod Dispatch
use crd_bootstrap.Base.{String, Bool, Option, List, Outcome, Error, M, ok}
use crd_bootstrap.Base.Dict.{Dict}
use crd_bootstrap.Api.{Bootstrap, Condition}
use crd_bootstrap.Platform.{Platform}
use crd_bootstrap.Platform.World.{World, outside}
use crd_bootstrap.Breaking.{OpenApi, CrdVersion}

-- A CRD as the Kubernetes API knows it.
pub record Crd (Schema : Type 0) : Type 0 where
  pub name : String
  -- `Spec.Names.Kind`
  pub kind : String
  pub versions : List (CrdVersion Schema)

-- What the impersonating client of `NewResourceManager` is made from.
pub record ManagerConfig : Type 0 where
  pub default_service_account : String
  pub service_account_name : String
  pub object_namespace : String
  -- the secret and the namespace of the spec's KubeConfig, if there is one
  pub kube_config : Option (Option String × String)

-- controller-runtime, fluxcd/pkg and apimachinery, as far as the controller uses them.
pub record Cluster (P : Platform) (O : OpenApi) : Type 1 where
  -- the client of the cluster that the controller runs in
  pub is_not_found : Error → Bool
  pub get_bootstrap : String → String → M P.Outside Bootstrap
  pub get_crd : String → M P.Outside (Crd O.Schema)
  pub list_crds : String → String → M P.Outside (List String)
  pub delete_crd : String → M P.Outside (Unit {0})
  -- `SerialPatcher`: from the object at its creation to the object at the call
  pub patch : Bootstrap → Bootstrap → M P.Outside (Unit {0})
  pub contains_finalizer : String → List String → Bool
  pub add_finalizer : String → List String → List String
  pub remove_finalizer : String → List String → List String
  -- `conditions.MarkTrue` and `MarkFalse` for the type "Ready": status, reason, message
  pub mark_ready : Bool → String → String → List Condition → List Condition
  -- unstructured objects
  pub Object : Type 0
  pub read_objects : String → Outcome (List Object)
  pub get_kind : Object → String
  pub get_name : Object → String
  pub get_labels : Object → Dict String
  pub set_labels : Dict String → Object → Object
  pub marshal_object : Object → Outcome String
  pub unmarshal_crd : String → Outcome (Crd O.Schema)
  -- validation of templates, over the unversioned form of a CRD
  pub InternalSchema : Type 0
  pub unmarshal_internal : String → Outcome (Crd InternalSchema)
  pub Validator : Type 0
  pub new_schema_validator : Option InternalSchema → Outcome Validator
  pub validate : Validator → Option String → Outcome (Unit {0})
  -- server-side apply
  pub Manager : Type 0
  pub new_manager : ManagerConfig → M P.Outside Manager
  pub apply_all_staged : Manager → List Object → M P.Outside (Unit {0})
  pub wait : Manager → List Object → M P.Outside (Unit {0})
  -- how an error reads
  pub show_error : Error → String

module _ {P : Platform} {O : OpenApi} where
  -- A write to a cluster that a run has asked for.
  pub data Call (C : Cluster P O) : Type 0 where
    applied : C.Manager → List C.Object → Call C
    deleted : String → Call C
    patched : Bootstrap → Call C

  -- A run: the world, the object that the pointer `obj` leads to, and the writes so far, the
  -- last one first.
  pub record Run (C : Cluster P O) : Type 0 where
    pub world : World P
    pub obj : Bootstrap
    pub calls : List (Call C)

  module _ {C : Cluster P O} where
    -- A call of a function of another package.
    unfoldable pub within : {A : Type 0} → M (World P) A → M (Run C) A
    within m r = let (o, w) = m r.world in (o, record r { world = w })

    abbrev pub api : {A : Type 0} → M P.Outside A → M (Run C) A
    api m = within (outside m)

    unfoldable pub note : Call C → M (Run C) (Unit {0})
    note c r = (ok tt, record r { calls = List.◌∷◌ c r.calls })

    unfoldable pub get_obj : M (Run C) Bootstrap
    get_obj r = (ok r.obj, r)

    unfoldable pub set_obj : (Bootstrap → Bootstrap) → M (Run C) (Unit {0})
    set_obj f r = (ok tt, record r { obj = f r.obj })
