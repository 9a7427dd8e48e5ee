-- ===== src/Api.antt =====
-- The Bootstrap resource: api/v1alpha1/bootstrap_types.go. An optional pointer is an `Option`.
-- A Go slice or map without entries and a nil one are told apart only for the template and for the
-- map of applied names, where the controller tests for nil.
use crd_bootstrap.Base.{ℕ, String, Bool, Option, List}
use crd_bootstrap.Base.Dict.{Dict}

abbrev pub owner_label_key : String
owner_label_key = "delivery.crd-bootstrap.owned"

abbrev pub username_key : String
username_key = "username"

abbrev pub password_key : String
password_key = "password"

abbrev pub docker_json_config_key : String
docker_json_config_key = ".dockerconfigjson"

-- `v1.LocalObjectReference`: the name of an object in the same namespace.
pub record LocalObjectReference : Type 0 where
  pub name : String

-- The referenced secret of another module's type is kept as its serialised text.
pub record KubeConfig : Type 0 where
  pub service_account : String
  pub secret_ref : Option String
  pub namespace : String

pub record Github : Type 0 where
  pub base_url : String
  pub base_api_url : String
  pub owner : String
  pub repo : String
  pub secret_ref : Option LocalObjectReference
  pub manifest : String

pub record Gitlab : Type 0 where
  pub base_api_url : String
  pub owner : String
  pub repo : String
  pub secret_ref : Option LocalObjectReference
  pub manifest : String

pub record Helm : Type 0 where
  pub chart_reference : String
  pub chart_name : String
  pub secret_ref : Option LocalObjectReference

pub record ConfigMap : Type 0 where
  pub name : String
  pub namespace : String

pub record Url : Type 0 where
  pub url : String
  pub secret_ref : Option LocalObjectReference

pub record Source : Type 0 where
  pub github : Option Github
  pub gitlab : Option Gitlab
  pub helm : Option Helm
  pub config_map : Option ConfigMap
  pub url : Option Url

pub record Version : Type 0 where
  pub semver : String
  pub digest : String

-- A duration is its nanoseconds as a 64-bit word, only ever copied; a template entry is raw JSON.
pub record BootstrapSpec : Type 0 where
  pub interval : ℕ
  pub source : Option Source
  pub version : Version
  pub template : Option (Dict (Option String))
  pub continue_on_validation_error : Bool
  pub prune : Bool
  pub ignore_breaking_changes : Bool
  pub kube_config : Option KubeConfig

-- `metav1.Condition`, without the times and the generation that the library stamps.
pub record Condition : Type 0 where
  pub kind : String
  pub status : Bool
  pub reason : String
  pub message : String

-- A count of applications is a Go `int`, kept as its 64-bit word.
pub record BootstrapStatus : Type 0 where
  pub observed_generation : ℕ
  pub conditions : List Condition
  pub last_applied_crd_names : Option (Dict ℕ)
  pub last_attempted_revision : String
  pub last_applied_revision : String
  pub breaking_changes : List String

-- The resource, with the fields of its metadata that the program reads or writes.
pub record Bootstrap : Type 0 where
  pub name : String
  pub namespace : String
  pub generation : ℕ
  pub finalizers : List String
  pub deletion_timestamp : Option String
  pub spec : BootstrapSpec
  pub status : BootstrapStatus

unfoldable pub get_conditions : Bootstrap → List Condition
get_conditions b = b.status.conditions

unfoldable pub set_conditions : List Condition → Bootstrap → Bootstrap
set_conditions cs b = record b { status = record b.status { conditions = cs } }

unfoldable pub get_requeue_after : Bootstrap → ℕ
get_requeue_after b = b.spec.interval
