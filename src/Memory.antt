-- ===== src/Memory.antt =====
-- The Bootstrap resource as it lies in memory: the structs of api/v1alpha1/bootstrap_types.go, in
-- which a pointer, a map and a slice are an address or nil.
pub mod Copy
pub mod Resource
pub mod Shows
pub mod Carry
pub mod Extends
pub mod Copies
pub mod Copied
pub mod Objects
pub mod Separate
use crd_bootstrap.Base.{
  ℕ, zero, suc, String, Bool, Option, none, some, List, [], ◌∷◌, ◌++◌, M, ok, panic, length,
}
use crd_bootstrap.Base.Dict.{Dict}
use crd_bootstrap.Api
use crd_bootstrap.Api.{Condition, LocalObjectReference, Version}

abbrev pub Ptr : Type 0
Ptr = Option ℕ

pub record Github : Type 0 where
  pub base_url : String
  pub base_api_url : String
  pub owner : String
  pub repo : String
  pub secret_ref : Ptr
  pub manifest : String

pub record Gitlab : Type 0 where
  pub base_api_url : String
  pub owner : String
  pub repo : String
  pub secret_ref : Ptr
  pub manifest : String

pub record Helm : Type 0 where
  pub chart_reference : String
  pub chart_name : String
  pub secret_ref : Ptr

pub record Url : Type 0 where
  pub url : String
  pub secret_ref : Ptr

pub record Source : Type 0 where
  pub github : Ptr
  pub gitlab : Ptr
  pub helm : Ptr
  pub config_map : Ptr
  pub url : Ptr

pub record KubeConfig : Type 0 where
  pub service_account : String
  pub secret_ref : Ptr
  pub namespace : String

pub record BootstrapSpec : Type 0 where
  pub interval : ℕ
  pub source : Ptr
  pub version : Version
  pub template : Ptr
  pub continue_on_validation_error : Bool
  pub prune : Bool
  pub ignore_breaking_changes : Bool
  pub kube_config : Ptr

pub record BootstrapStatus : Type 0 where
  pub observed_generation : ℕ
  pub conditions : Ptr
  pub last_applied_crd_names : Ptr
  pub last_attempted_revision : String
  pub last_applied_revision : String
  pub breaking_changes : Ptr

-- `metav1.ObjectMeta`, as a value: its own deep copy is not the program's.
pub record ObjectMeta : Type 0 where
  pub name : String
  pub namespace : String
  pub generation : ℕ
  pub finalizers : List String
  pub deletion_timestamp : Option String

pub record Bootstrap : Type 0 where
  pub metadata : ObjectMeta
  pub spec : BootstrapSpec
  pub status : BootstrapStatus

-- `metav1.ListMeta` is not used.
pub record BootstrapList : Type 0 where
  pub items : Ptr

-- What an address can hold. A template's entry and the reference to a secret of a KubeConfig are of
-- other modules' types, and kept as texts.
pub data Cell : Type 0 where
  reference : LocalObjectReference → Cell
  github : Github → Cell
  gitlab : Gitlab → Cell
  helm : Helm → Cell
  config_map : Api.ConfigMap → Cell
  url : Url → Cell
  source : Source → Cell
  json : String → Cell
  entries : Dict Ptr → Cell
  kube_reference : String → Cell
  kube_config : KubeConfig → Cell
  version : Version → Cell
  spec : BootstrapSpec → Cell
  conditions : List Condition → Cell
  counts : Dict ℕ → Cell
  names : List String → Cell
  status : BootstrapStatus → Cell
  bootstrap : Bootstrap → Cell
  bootstraps : List Bootstrap → Cell
  bootstrap_list : BootstrapList → Cell

-- The cells that have been allocated, in order; an address is a position.
abbrev pub Heap : Type 0
Heap = List Cell

unfoldable pub cell_at : ℕ → Heap → Option Cell
cell_at a [] = none
cell_at zero (c ∷ h) = some c
cell_at (suc a) (c ∷ h) = cell_at a h

-- A write to an address.
unfoldable pub set_cell : ℕ → Cell → Heap → Heap
set_cell a c [] = []
set_cell zero c (d ∷ h) = c ∷ h
set_cell (suc a) c (d ∷ h) = d ∷ set_cell a c h

-- `*p`
unfoldable pub load : ℕ → M Heap Cell
unfolding cell_at
load a h = (elim (cell_at a h) [ none ↦ panic | some c ↦ ok c ], h)

-- A new address, which holds the cell.
unfoldable pub new : Cell → M Heap ℕ
new c h = (ok (length h), h ++ c ∷ [])
