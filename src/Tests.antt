-- ===== src/Tests.antt =====
-- A concrete platform and cluster for the tests and for the examples of the theorems.
pub mod Sources
pub mod Controller
pub mod Charts
pub mod Outcomes
pub mod Releases
pub mod Versions
pub mod Copies
pub mod Startups
pub mod Installs
pub mod Sorting
use mathlib.Core.Bool.{not}
use crd_bootstrap.Base.{
  ℕ, String, ◌<>◌, ◌≢◌, refl, Bool, true, false, Option, none, some, List, [], ◌∷◌, select, Outcome,
  ok, err, Error, msg, ◌==◌, ◌||◌, eqb, ltb, if◌then◌else◌, arith,
}
use crd_bootstrap.Base.Dict.{Dict}
use crd_bootstrap.Base.FilePath.{FilePath, dir, file}
use crd_bootstrap.Api.{Bootstrap, Condition, Source}
use crd_bootstrap.Platform.{Semver, IsOrdered, Platform, Body, Response}
use crd_bootstrap.Platform.World.{World}
use crd_bootstrap.Breaking.{OpenApi, Change}
use crd_bootstrap.Controller.{Crd, ManagerConfig, Cluster}

-- Versions are one number; a constraint is the least version that it allows.
abbrev pub parse : String → Outcome ℕ
parse s =
    if s == "1"
    then ok 1
    else (if s == "2"
        then ok 2
        else (if s == "3"
            then ok 3
            else (if s == "4" then ok 4 else err (msg "no version" (s ∷ [])))))

abbrev pub plain_semver : Semver
plain_semver = record {
  Version = ℕ;
  Constraint = ℕ;
  new_version = parse;
  new_constraint = parse;
  check = λ least v. not (ltb v least);
  equal = eqb;
  greater_than = λ v w. ltb w v;
  original = λ v. if eqb v 1 then "1" else (if eqb v 2 then "2" else "3");
}

-- Insertion sort.
abbrev pub insert_by : (ℕ → ℕ → Bool) → ℕ → List ℕ → List ℕ
insert_by less v [] = v ∷ []
insert_by less v (w ∷ vs) = if less v w then v ∷ w ∷ vs else w ∷ insert_by less v vs

abbrev pub sort_by : (ℕ → ℕ → Bool) → List ℕ → List ℕ
sort_by less [] = []
sort_by less (v ∷ vs) = insert_by less v (sort_by less vs)

pub plain_semver-IsOrdered : IsOrdered plain_semver
plain_semver-IsOrdered = record {
  equal_refl = λ v. ground arith;
  irreflexive = λ v. ground arith;
  total = λ v w differs not_above. ground arith;
  transitive = λ u v w above below. ground arith;
  no_empty = λ v e. cc;
}

abbrev pub crds_url : String
crds_url = "https://example.com/crds.yaml"

-- The outside is one number: 7 is a cluster that does not answer questions about CRDs.
abbrev pub local : Platform
local = record {
  Outside = ℕ;
  Client = ℕ;
  with_timeout = λ d c. d;
  oauth_client = λ token. 0;
  new_request = λ url. ok tt;
  http_do = λ c url s. (
    if url == crds_url
          || url == "https://example.com/index.yaml"
          || url == "https://example.com/o/r/releases/download/2/crds.yaml"
        then ok (record {
          status_code = 200;
          status = "200 OK";
          body = record { received = "crds"; read_error = none; close_error = none };
        })
        else err (Error.foreign "no such host"),
    s,
  );
  decode_tag = λ b. ok b.received;
  decode_links = λ s. ok [];
  sha256_hex = λ s. "sha256 of " <> s;
  join_url = λ base part. ok (base <> "/" <> part);
  decode_index = λ s. ok (("chart", "1" ∷ "3" ∷ "2" ∷ []) ∷ []);
  is_oci = λ s. s == "oci://example.com/chart";
  Repository = String;
  new_repository = λ s. ok s;
  host = λ r. "example.com";
  with_credentials = λ user password r. r;
  tags = λ r s. (ok ("1" ∷ "3" ∷ "2" ∷ []), s);
  load_docker_config = λ s. ok [];
  save_docker_config = λ p auths s. (ok "{}", s);
  RegistryClient = FilePath;
  new_registry_client = λ p s. (ok p, s);
  download_to = λ d chart version place s.
      (ok ("chart.tgz" ∷ place, ("chart.tgz" ∷ place, file "archive") ∷ []), s);
  expand_file = λ place archive n s. (
    ok (
        ("chart" ∷ place, dir)
        ∷ ("crds" ∷ "chart" ∷ place, dir)
        ∷ ("b.yaml" ∷ "crds" ∷ "chart" ∷ place, file "b")
        ∷ ("a.yaml" ∷ "crds" ∷ "chart" ∷ place, file "a")
        ∷ ("values.yaml" ∷ "chart" ∷ place, file "v")
        ∷ []),
    s,
  );
  temp_file = λ pattern s. (ok (pattern ∷ "tmp" ∷ []), s);
  get_secret = λ name namespace s. (err (Error.foreign "not found"), s);
  get_config_map = λ name namespace s.
      (ok (("version", "2") ∷ ("crd.yaml", "kind: CustomResourceDefinition") ∷ []), s);
  temp_dir = λ pattern s. (ok (pattern ∷ "tmp" ∷ []), s);
  os_call = λ c s. (ok tt, s);
}

abbrev pub start : ℕ → World local
start s = record { outside = s; client = 0; files = [] }

-- A schema is a text; two texts differ by one breaking change.
abbrev pub texts : OpenApi
texts = record {
  Schema = String;
  deep_equal = λ a b. a == b;
  marshal = λ s. ok s;
  quote = λ s. s;
  Document = String;
  Model = String;
  Changes = List Change;
  new_document = λ s. ok s;
  build_v3_model = λ s. ok s;
  compare_documents = λ a b.
      if a == b
      then none
      else some (record { property = "Root"; original = ""; new = ""; breaking = true } ∷ []);
  total_breaking_changes = λ cs. 1;
  get_all_changes = λ cs. cs;
}

pub record Manifest : Type 0 where
  pub kind : String
  pub name : String
  pub labels : Dict String

abbrev pub installed_crd : String → Crd String
installed_crd name = record { name = name; kind = "Foo"; versions = [] }

abbrev pub add_once : String → List String → List String
add_once f [] = f ∷ []
add_once f (g ∷ gs) = g ∷ (if f == g then gs else add_once f gs)

-- Every cluster has the CRD "foos"; a manifest is read as it and a deployment.
abbrev pub small : Cluster local texts
small = record {
  is_not_found = λ e. false;
  get_bootstrap = λ name namespace s. (err (Error.foreign "not found"), s);
  get_crd =
      λ name s. (if eqb s 7 then err (Error.foreign "unreachable") else ok (installed_crd name), s);
  list_crds = λ key value s. (ok ("foos" ∷ "bars" ∷ []), s);
  delete_crd = λ name s. (ok tt, s);
  patch = λ before after s. (ok tt, s);
  contains_finalizer = λ f fs. true;
  add_finalizer = add_once;
  remove_finalizer = λ f fs. select (λ g. not (f == g)) fs;
  mark_ready = λ b reason message cs.
      record { kind = "Ready"; status = b; reason = reason; message = message } ∷ [];
  Object = Manifest;
  read_objects = λ s. ok (
      record { kind = "CustomResourceDefinition"; name = "foos"; labels = ("a", "b") ∷ [] }
      ∷ record { kind = "Deployment"; name = "app"; labels = [] }
      ∷ []);
  get_kind = λ o. o.kind;
  get_name = λ o. o.name;
  get_labels = λ o. o.labels;
  set_labels = λ l o. record o { labels = l };
  marshal_object = λ o. ok o.name;
  unmarshal_crd = λ s. ok (installed_crd s);
  InternalSchema = String;
  unmarshal_internal = λ s. ok (record { name = s; kind = "Foo"; versions = [] });
  Validator = Unit;
  new_schema_validator = λ s. ok tt;
  validate = λ v o. ok tt;
  Manager = ManagerConfig;
  new_manager = λ c s. (ok c, s);
  apply_all_staged = λ m os s. (ok tt, s);
  wait = λ m os s. (ok tt, s);
  show_error = λ e. "error";
}

abbrev pub no_source : Source
no_source = record { github = none; gitlab = none; helm = none; config_map = none; url = none }

-- A Bootstrap with a source, a digest, the revision that is applied, and whether to prune.
abbrev pub bootstrap : Source → String → String → Bool → Bootstrap
bootstrap source digest applied prune = record {
  name = "boot";
  namespace = "default";
  generation = 4;
  finalizers = "delivery.crd-bootstrap" ∷ [];
  deletion_timestamp = none;
  spec = record {
    interval = 60;
    source = some source;
    version = record { semver = "1"; digest = digest };
    template = none;
    continue_on_validation_error = false;
    prune = prune;
    ignore_breaking_changes = false;
    kube_config = none;
  };
  status = record {
    observed_generation = 3;
    conditions = [];
    last_applied_crd_names = some (("foos", 5) ∷ []);
    last_attempted_revision = "";
    last_applied_revision = applied;
    breaking_changes = [];
  };
}
