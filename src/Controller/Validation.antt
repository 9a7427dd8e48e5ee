-- ===== src/Controller/Validation.antt =====
-- Which objects `validateObjects` of bootstrap_controller.go accepts.
use mathlib.Core.Path.{subst}
use crd_bootstrap.Base.{
  String, ◌≡◌, ◌↔◌, refl, sym, ap, ◌∙◌, Option, none, some, List, [], ◌∷◌, All, ok, and_then-eq-ok,
  map_err, map_err-eq-ok, deref, wrap, msg,
}
use crd_bootstrap.Base.Dict.{Dict, lookup}
use crd_bootstrap.Api.{Bootstrap}
use crd_bootstrap.Platform.{Platform}
use crd_bootstrap.Breaking.{OpenApi, CrdVersion, Validation}
use crd_bootstrap.Controller.{Cluster, Crd}
use crd_bootstrap.Controller.Objects.{
  check_template, validate_versions, validate_template, validate_objects,
}

deref-eq-ok : {A : Type 0} (o : Option A) {a : A} → deref o ≡ ok a → o ≡ some a
deref-eq-ok none e = cc
deref-eq-ok (some b) e = cc

module _ {P : Platform} {O : OpenApi} (C : Cluster P O) where
  -- The schema accepts the value that the template has for the kind, if it has one.
  abbrev pub IsAccepted : C.Validator → Option (Option String) → Type 0
  IsAccepted eval none = Unit
  IsAccepted eval (some value) = C.validate eval value ≡ ok tt

  pub record IsValidVersion (template : Dict (Option String)) (kind : String)
      (v : CrdVersion C.InternalSchema) : Type 0 where
    pub schema : Validation C.InternalSchema
    pub present : v.schema ≡ some schema
    pub eval : C.Validator
    pub compiled : C.new_schema_validator schema.open_api_v3_schema ≡ ok eval
    pub accepted : IsAccepted eval (lookup kind template)

  -- A CRD each version of which has a schema that accepts the value of the CRD's kind.
  pub record IsValidObject (template : Dict (Option String)) (o : C.Object) : Type 0 where
    pub content : String
    pub crd : Crd C.InternalSchema
    pub marshaled : C.marshal_object o ≡ ok content
    pub read : C.unmarshal_internal content ≡ ok crd
    pub versions : All (IsValidVersion template crd.kind) crd.versions

  abbrev pub IsAdmitted : Option (Dict (Option String)) → List C.Object → Type 0
  IsAdmitted none objects = Unit
  IsAdmitted (some template) objects = All (IsValidObject template) objects

  check-IsAccepted :
      (kind : String) (eval : C.Validator) (o : Option (Option String))
      → (check_template C kind eval o ≡ ok tt) ↔ IsAccepted eval o
  unfolding check_template
  check-IsAccepted kind eval none = (λ e. tt, λ a. refl)
  check-IsAccepted kind eval (some value) =
      (λ e. map_err-eq-ok _ _ e, λ a. ap (map_err (wrap "failed to validate kind" (kind ∷ []))) a)

  version-step :
      (template : Dict (Option String)) (kind : String) (v : CrdVersion C.InternalSchema)
      (vs : List (CrdVersion C.InternalSchema))
      → validate_versions C template kind (v ∷ vs) ≡ ok tt
      → IsValidVersion template kind v × (validate_versions C template kind vs ≡ ok tt)
  unfolding validate_versions
  version-step template kind v vs e =
      let (schema, e1, f1) = and_then-eq-ok (deref v.schema) _ e in
      let (eval, e2, f2) = and_then-eq-ok (C.new_schema_validator schema.open_api_v3_schema) _ f1 in
      let (_, e3, f3) = and_then-eq-ok (check_template C kind eval (lookup kind template)) _ f2 in
      (
        record {
          schema = schema;
          present = deref-eq-ok v.schema e1;
          eval = eval;
          compiled = e2;
          accepted = (check-IsAccepted kind eval (lookup kind template)).0 e3;
        },
        f3,
      )

  version-valid :
      (template : Dict (Option String)) (kind : String) (v : CrdVersion C.InternalSchema)
      (vs : List (CrdVersion C.InternalSchema))
      → IsValidVersion template kind v
      → validate_versions C template kind (v ∷ vs) ≡ validate_versions C template kind vs
  unfolding validate_versions
  version-valid template kind v vs a =
      rw (a.present, a.compiled, (check-IsAccepted kind a.eval (lookup kind template)).1 a.accepted)
        refl

  versions-IsValid :
      (template : Dict (Option String)) (kind : String) (vs : List (CrdVersion C.InternalSchema))
      → (validate_versions C template kind vs ≡ ok tt) ↔ All (IsValidVersion template kind) vs
  unfolding validate_versions
  versions-IsValid template kind [] = (λ e. tt, λ a. refl)
  versions-IsValid template kind (v ∷ vs) =
      let rest = versions-IsValid template kind vs in
      (
        λ e. let (a, f) = version-step template kind v vs e in (a, rest.0 f),
        λ a. version-valid template kind v vs a.0 ∙ rest.1 a.1,
      )

  object-step :
      (template : Dict (Option String)) (o : C.Object) (objects : List C.Object)
      → validate_template C template (o ∷ objects) ≡ ok tt
      → IsValidObject template o × (validate_template C template objects ≡ ok tt)
  unfolding validate_template
  object-step template o objects e =
      let (content, e1, f1) = and_then-eq-ok (C.marshal_object o) _ e in
      let (crd, e2, f2) =
        and_then-eq-ok
          (map_err (λ _. msg "failed to unmarshal into custom resource definition" [])
            (C.unmarshal_internal content))
          _ f1 in
      let (_, e3, f3) = and_then-eq-ok (validate_versions C template crd.kind crd.versions) _ f2 in
      (
        record {
          content = content;
          crd = crd;
          marshaled = e1;
          read = map_err-eq-ok _ (C.unmarshal_internal content) e2;
          versions = (versions-IsValid template crd.kind crd.versions).0 e3;
        },
        f3,
      )

  object-valid :
      (template : Dict (Option String)) (o : C.Object) (objects : List C.Object)
      → IsValidObject template o
      → validate_template C template (o ∷ objects) ≡ validate_template C template objects
  unfolding validate_template
  object-valid template o objects a =
      rw (a.marshaled, a.read, (versions-IsValid template a.crd.kind a.crd.versions).1 a.versions)
        refl

  template-IsValid :
      (template : Dict (Option String)) (objects : List C.Object)
      → (validate_template C template objects ≡ ok tt) ↔ All (IsValidObject template) objects
  unfolding validate_template
  template-IsValid template [] = (λ e. tt, λ a. refl)
  template-IsValid template (o ∷ objects) =
      let rest = template-IsValid template objects in
      (
        λ e. let (a, f) = object-step template o objects e in (a, rest.0 f),
        λ a. object-valid template o objects a.0 ∙ rest.1 a.1,
      )

  admitted :
      (obj : Bootstrap) (objects : List C.Object) (t : Option (Dict (Option String)))
      → obj.spec.template ≡ t
      → (validate_objects C obj objects ≡ ok tt) ↔ IsAdmitted t objects
  unfolding validate_objects
  admitted obj objects none e = (λ h. tt, λ a. rw e refl)
  admitted obj objects (some template) e =
      subst
        (λ x.
          (elim x [ none ↦ ok tt | some y ↦ validate_template C y objects ] ≡ ok tt)
          ↔ IsAdmitted (some template) objects)
        (sym e) (template-IsValid template objects)

  -- The validation accepts the objects exactly if the spec has no template, or each of them is a CRD
  -- that can be read, every version of which has a schema that can be compiled and that accepts the
  -- template's value for the kind of the CRD, if there is such a value.
  pub validate_objects-IsAdmitted :
      (obj : Bootstrap) (objects : List C.Object)
      → (validate_objects C obj objects ≡ ok tt) ↔ IsAdmitted obj.spec.template objects
  validate_objects-IsAdmitted obj objects = admitted obj objects obj.spec.template refl
