-- ===== src/Controller/Objects.antt =====
-- Reading, labelling, counting and checking the objects of an update: internal/controller/apply.go,
-- and `detectBreakingChanges` and `validateObjects` of bootstrap_controller.go.
use crd_bootstrap.Base.{
  ℕ, ◌+◌, ◌%◌, ◌^◌, String, Option, none, some, List, [], ◌∷◌, ◌++◌, map, select, ◌==◌,
  if◌then◌else◌, Outcome, ok, err, panic, M, pure, gets, fail, crash, from, deref, wrapping,
  attempt, deferring, msg, wrap, map_err, and_then, ◌>>=◌, ◌>>◌,
}
use crd_bootstrap.Base.Dict.{Dict, lookup, insert}
use crd_bootstrap.Base.FilePath.{FilePath}
use crd_bootstrap.Api.{Bootstrap, owner_label_key}
use crd_bootstrap.Platform.{Platform, lstat}
use crd_bootstrap.Platform.World.{World, Node, dir, file, find_node, outside}
use crd_bootstrap.Platform.Os.{call, open_path, read_all, close_file}
use crd_bootstrap.Breaking.{OpenApi, CrdVersion, detect_breaking_changes}
use crd_bootstrap.Controller.{Crd, ManagerConfig, Cluster, Run, api, get_obj, set_obj}

abbrev pub crd_kind : String
crd_kind = "CustomResourceDefinition"

-- `fi.IsDir() || !fi.Mode().IsRegular()`
abbrev expect_file : FilePath → Option Node → Outcome (Unit {0})
expect_file path (some (file _)) = ok tt
expect_file path (some dir) = err (msg "expected to be a file" path)
expect_file path none = err (msg "no such file" path)

-- `applied[name]++`, over 64-bit words.
unfoldable pub increment : String → Dict ℕ → Dict ℕ
unfolding lookup insert
increment name applied =
    insert name (elim (lookup name applied) [ none ↦ 1 | some n ↦ (n + 1) % 2 ^ 64 ]) applied

unfoldable pub increment_all : List String → Dict ℕ → Dict ℕ
unfolding increment
increment_all [] applied = applied
increment_all (name ∷ names) applied = increment_all names (increment name applied)

abbrev pub set_names : Dict ℕ → Bootstrap → Bootstrap
set_names names obj = record obj {
  status = record obj.status { last_applied_crd_names = some names };
}

module _ {P : Platform} {O : OpenApi} (C : Cluster P O) where
  unfoldable pub read_objects : FilePath → M (World P) (List C.Object)
  unfolding select find_node open_path read_all close_file
  read_objects path = do
    call (lstat path)
    node ← gets (λ w. find_node path w.files)
    from (expect_file path node)
    open_path path
    deferring (close_file path) do
      content ← read_all path
      objects ← from (C.read_objects content)
      pure (select (λ o. C.get_kind o == crd_kind) objects)

  -- `o.SetLabels(...)`: the owner's name is the only label afterwards.
  unfoldable pub label : String → C.Object → C.Object
  label owner o = C.set_labels ((owner_label_key, owner) ∷ []) o

  -- The map of applied names after the objects are counted. The local `applied` is the status's
  -- own map unless that is nil, so the status changes with it.
  unfoldable pub count_names : Option (Dict ℕ) → List String → M (Run C) (Dict ℕ)
  unfolding increment_all
  count_names none names = pure (increment_all names [])
  count_names (some applied) names = do
    set_obj (set_names (increment_all names applied))
    pure (increment_all names applied)

  unfoldable pub count_applied : List C.Object → M (Run C) (Dict ℕ)
  unfolding count_names
  count_applied objects = do
    obj ← get_obj
    count_names obj.status.last_applied_crd_names (map C.get_name objects)

  -- A CRD that is not installed has no breaking changes.
  unfoldable pub compare_installed :
      String → Crd O.Schema → Outcome (Crd O.Schema) → M (World P) (List String)
  unfolding detect_breaking_changes
  compare_installed name new_crd (err e) =
      if C.is_not_found e then pure [] else fail (wrap "fetching existing CRD" (name ∷ []) e)
  compare_installed name new_crd (ok old_crd) =
      wrapping "detecting breaking changes" (name ∷ [])
        (from (detect_breaking_changes O old_crd.versions new_crd.versions))
  compare_installed name new_crd panic = crash

  -- One object against the CRD of its name in the cluster, if there is one.
  unfoldable pub detect_object : C.Object → M (World P) (List String)
  unfolding compare_installed
  detect_object o = do
    content ← wrapping "marshaling object" (C.get_name o ∷ []) (from (C.marshal_object o))
    new_crd ← wrapping "unmarshaling CRD" (C.get_name o ∷ []) (from (C.unmarshal_crd content))
    found ← attempt (outside (C.get_crd new_crd.name))
    compare_installed (C.get_name o) new_crd found

  unfoldable pub detect_changes : List C.Object → List String → M (World P) (List String)
  unfolding detect_object
  detect_changes [] all_breaking = pure all_breaking
  detect_changes (o ∷ objects) all_breaking = do
    changes ← detect_object o
    detect_changes objects (all_breaking ++ changes)

  unfoldable pub check_template : String → C.Validator → Option (Option String) → Outcome (Unit {0})
  check_template kind eval none = ok tt
  check_template kind eval (some value) =
      map_err (wrap "failed to validate kind" (kind ∷ [])) (C.validate eval value)

  -- The loop over the versions of one CRD in `validateObjects`.
  unfoldable pub validate_versions :
      Dict (Option String) → String → List (CrdVersion C.InternalSchema) → Outcome (Unit {0})
  unfolding lookup check_template
  validate_versions template kind [] = ok tt
  validate_versions template kind (v ∷ vs) = and_then (deref v.schema) λ schema.
      and_then (C.new_schema_validator schema.open_api_v3_schema) λ eval.
        and_then (check_template kind eval (lookup kind template))
          λ _. validate_versions template kind vs

  unfoldable pub validate_template : Dict (Option String) → List C.Object → Outcome (Unit {0})
  unfolding validate_versions
  validate_template template [] = ok tt
  validate_template template (o ∷ objects) = and_then (C.marshal_object o) λ content.
      and_then
        (map_err (λ _. msg "failed to unmarshal into custom resource definition" [])
          (C.unmarshal_internal content))
        λ crd.
          and_then (validate_versions template crd.kind crd.versions)
            λ _. validate_template template objects

  unfoldable pub validate_objects : Bootstrap → List C.Object → Outcome (Unit {0})
  unfolding validate_template
  validate_objects obj objects = elim obj.spec.template [
    | none ↦ ok tt
    | some template ↦ validate_template template objects
  ]

  unfoldable pub manager_config : String → Bootstrap → ManagerConfig
  manager_config default_service_account obj = record {
    default_service_account = default_service_account;
    service_account_name = elim obj.spec.kube_config [ none ↦ "" | some k ↦ k.service_account ];
    object_namespace = obj.namespace;
    kube_config = elim obj.spec.kube_config [
      | none ↦ none
      | some k ↦ some (k.secret_ref, k.namespace)
    ];
  }

  unfoldable pub new_resource_manager : String → Bootstrap → M (Run C) C.Manager
  unfolding manager_config
  new_resource_manager default_service_account obj =
      wrapping "failed to build kube client" []
        (api (C.new_manager (manager_config default_service_account obj)))
