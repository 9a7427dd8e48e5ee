-- ===== src/Breaking.antt =====
-- pkg/breaking/detector.go: the schemas of an installed CRD against those of its update.
pub mod Compatible
use crd_bootstrap.Base.{
  ℕ, String, ◌<>◌, Bool, Option, none, some, List, [], ◌∷◌, ◌++◌, map, select, ◌&&◌, ◌==◌, eqb,
  if◌then◌else◌, Outcome, ok, wrap, map_err, and_then,
}
use crd_bootstrap.Base.Dict.{Dict, lookup, insert}

-- A change that the comparison reports.
pub record Change : Type 0 where
  pub property : String
  pub original : String
  pub new : String
  pub breaking : Bool

-- Schemas (`JSONSchemaProps`) and what the detector uses of encoding/json, reflect, strconv and
-- github.com/pb33f/libopenapi. A comparison without changes returns nil.
pub record OpenApi : Type 1 where
  pub Schema : Type 0
  pub deep_equal : Schema → Schema → Bool
  pub marshal : Schema → Outcome String
  pub quote : String → String
  pub Document : Type 0
  pub Model : Type 0
  pub Changes : Type 0
  pub new_document : String → Outcome Document
  pub build_v3_model : Document → Outcome Model
  pub compare_documents : Model → Model → Option Changes
  pub total_breaking_changes : Changes → ℕ
  pub get_all_changes : Changes → List Change

-- `CustomResourceValidation`, whose one field may be nil.
pub record Validation (Schema : Type 0) : Type 0 where
  pub open_api_v3_schema : Option Schema

pub record CrdVersion (Schema : Type 0) : Type 0 where
  pub name : String
  pub schema : Option (Validation Schema)

abbrev schema_envelope : String
schema_envelope =
    "openapi: \"3.0.0\"\ninfo:\n  title: crd-schema\n  version: \"1.0.0\"\npaths: {}\ncomponents:\n  schemas:\n    Root:\n      "

module _ (O : OpenApi) where
  unfoldable pub schema_to_open_api_doc : O.Schema → Outcome O.Document
  schema_to_open_api_doc schema =
      and_then (map_err (wrap "marshaling schema to JSON" []) (O.marshal schema))
        λ json. O.new_document (schema_envelope <> json)

  unfoldable pub describe : Change → String
  describe c =
      if c.original == "" && c.new == ""
      then c.property
      else c.property <> ": " <> O.quote c.original <> " -> " <> O.quote c.new

  -- What is reported of the result of a comparison.
  unfoldable pub descriptions : Option O.Changes → List String
  unfolding select describe
  descriptions none = []
  descriptions (some changes) =
      if eqb (O.total_breaking_changes changes) 0
      then []
      else map describe (select (λ c. c.breaking) (O.get_all_changes changes))

  unfoldable pub compare_schemas : O.Schema → O.Schema → Outcome (List String)
  unfolding schema_to_open_api_doc descriptions
  compare_schemas old new =
      and_then (map_err (wrap "building old schema document" []) (schema_to_open_api_doc old))
        λ old_doc.
          and_then (map_err (wrap "building new schema document" []) (schema_to_open_api_doc new))
            λ new_doc.
              and_then (map_err (wrap "building old V3 model" []) (O.build_v3_model old_doc))
                λ old_model.
                  and_then (map_err (wrap "building new V3 model" []) (O.build_v3_model new_doc))
                    λ new_model. ok (descriptions (O.compare_documents old_model new_model))

  -- `v.Schema != nil && v.Schema.OpenAPIV3Schema != nil`, and that schema.
  unfoldable pub schema_of : CrdVersion O.Schema → Option O.Schema
  schema_of v = elim v.schema [ none ↦ none | some s ↦ s.open_api_v3_schema ]

  -- The map from version names to schemas of the new CRD.
  unfoldable pub collect_versions : List (CrdVersion O.Schema) → Dict O.Schema → Dict O.Schema
  unfolding schema_of insert
  collect_versions [] m = m
  collect_versions (v ∷ vs) m =
      collect_versions vs (elim (schema_of v) [ none ↦ m | some s ↦ insert v.name s m ])

  -- The changes of one version that both CRDs have.
  unfoldable pub version_changes : String → O.Schema → O.Schema → Outcome (List String)
  unfolding compare_schemas
  version_changes name old new =
      if O.deep_equal old new
      then ok []
      else and_then (map_err (wrap "comparing version" (name ∷ [])) (compare_schemas old new))
          λ changes. ok (map (λ c. "version " <> name <> ": " <> c) changes)

  -- One round of the loop over the old versions: what it appends.
  unfoldable pub check_version : Dict O.Schema → CrdVersion O.Schema → Outcome (List String)
  unfolding schema_of lookup version_changes
  check_version new_versions old_ver = elim (schema_of old_ver) [
    | none ↦ ok []
    | some old ↦ elim (lookup old_ver.name new_versions) [
      | none ↦ ok (("version " <> O.quote old_ver.name <> " removed") ∷ [])
      | some new ↦ version_changes old_ver.name old new
    ]
  ]

  unfoldable pub check_versions :
      Dict O.Schema → List (CrdVersion O.Schema) → List String → Outcome (List String)
  unfolding check_version
  check_versions new_versions [] breaking = ok breaking
  check_versions new_versions (v ∷ vs) breaking =
      and_then (check_version new_versions v)
        λ found. check_versions new_versions vs (breaking ++ found)

  -- Over the versions of the old and of the new CRD.
  unfoldable pub detect_breaking_changes :
      List (CrdVersion O.Schema) → List (CrdVersion O.Schema) → Outcome (List String)
  unfolding collect_versions check_versions
  detect_breaking_changes old new = check_versions (collect_versions new []) old []
