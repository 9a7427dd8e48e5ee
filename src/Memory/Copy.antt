-- ===== src/Memory/Copy.antt =====
-- api/v1alpha1/zz_generated.deepcopy.go. A struct that `*out = *in` copies is a value here; an
-- address is filled in one step when what it holds is copied, since nobody sees it before.
use crd_bootstrap.Base.{String, none, some, ◌≡◌, M, pure, crash, ◌>>=◌}
use crd_bootstrap.Api
use crd_bootstrap.Api.{Condition, Version}
use crd_bootstrap.Memory.{Ptr, Github, Gitlab, Helm, Url, Source, ObjectMeta, Cell, Heap, load, new}

-- The deep copies of other modules' types.
pub record Library : Type 0 where
  pub copy_object_meta : ObjectMeta → ObjectMeta
  pub copy_condition : Condition → Condition
  pub copy_json : String → String
  pub copy_kube_reference : String → String

-- What they promise: an equal value.
pub record IsCopying (L : Library) : Type 0 where
  pub object_meta : (m : ObjectMeta) → L.copy_object_meta m ≡ m
  pub condition : (c : Condition) → L.copy_condition c ≡ c
  pub json : (s : String) → L.copy_json s ≡ s
  pub kube_reference : (s : String) → L.copy_kube_reference s ≡ s

-- `if in != nil { *out = new(T); (*in).DeepCopyInto(*out) }`, for the copy of what is there.
unfoldable pub copy_pointer : (Cell → M Heap Cell) → Ptr → M Heap Ptr
unfolding load new
copy_pointer copy_into none = pure none
copy_pointer copy_into (some a) = do c ← load a; d ← copy_into c; b ← new d; pure (some b)

-- `**out = **in`, and the copy of a slice or a map of values.
unfoldable pub copy_value : Cell → M Heap Cell
copy_value c = pure c

unfoldable pub config_map_deep_copy_into : Api.ConfigMap → M Heap Api.ConfigMap
config_map_deep_copy_into m = pure m

unfoldable pub version_deep_copy_into : Version → M Heap Version
version_deep_copy_into v = pure v

unfoldable pub github_deep_copy_into : Github → M Heap Github
unfolding copy_pointer copy_value
github_deep_copy_into g = do
  secret_ref ← copy_pointer copy_value g.secret_ref
  pure (record g { secret_ref = secret_ref })

unfoldable pub gitlab_deep_copy_into : Gitlab → M Heap Gitlab
unfolding copy_pointer copy_value
gitlab_deep_copy_into g = do
  secret_ref ← copy_pointer copy_value g.secret_ref
  pure (record g { secret_ref = secret_ref })

unfoldable pub helm_deep_copy_into : Helm → M Heap Helm
unfolding copy_pointer copy_value
helm_deep_copy_into h = do
  secret_ref ← copy_pointer copy_value h.secret_ref
  pure (record h { secret_ref = secret_ref })

unfoldable pub url_deep_copy_into : Url → M Heap Url
unfolding copy_pointer copy_value
url_deep_copy_into u = do
  secret_ref ← copy_pointer copy_value u.secret_ref
  pure (record u { secret_ref = secret_ref })

-- The copies of what a pointer points to; Go's types leave no other case.
unfoldable pub copy_github : Cell → M Heap Cell
unfolding github_deep_copy_into
copy_github (Cell.github x) = do y ← github_deep_copy_into x; pure (Cell.github y)
copy_github _ = crash

unfoldable pub copy_gitlab : Cell → M Heap Cell
unfolding gitlab_deep_copy_into
copy_gitlab (Cell.gitlab x) = do y ← gitlab_deep_copy_into x; pure (Cell.gitlab y)
copy_gitlab _ = crash

unfoldable pub copy_helm : Cell → M Heap Cell
unfolding helm_deep_copy_into
copy_helm (Cell.helm x) = do y ← helm_deep_copy_into x; pure (Cell.helm y)
copy_helm _ = crash

unfoldable pub copy_url : Cell → M Heap Cell
unfolding url_deep_copy_into
copy_url (Cell.url x) = do y ← url_deep_copy_into x; pure (Cell.url y)
copy_url _ = crash

unfoldable pub copy_config_map : Cell → M Heap Cell
unfolding config_map_deep_copy_into
copy_config_map (Cell.config_map x) = do y ← config_map_deep_copy_into x; pure (Cell.config_map y)
copy_config_map _ = crash

unfoldable pub copy_version : Cell → M Heap Cell
unfolding version_deep_copy_into
copy_version (Cell.version x) = do y ← version_deep_copy_into x; pure (Cell.version y)
copy_version _ = crash

unfoldable pub source_deep_copy_into : Source → M Heap Source
unfolding copy_pointer copy_value copy_github copy_gitlab copy_helm copy_url
source_deep_copy_into s = do
  github ← copy_pointer copy_github s.github
  gitlab ← copy_pointer copy_gitlab s.gitlab
  helm ← copy_pointer copy_helm s.helm
  config_map ← copy_pointer copy_value s.config_map
  url ← copy_pointer copy_url s.url
  pure record { github = github; gitlab = gitlab; helm = helm; config_map = config_map; url = url }

unfoldable pub copy_source : Cell → M Heap Cell
unfolding source_deep_copy_into
copy_source (Cell.source x) = do y ← source_deep_copy_into x; pure (Cell.source y)
copy_source _ = crash
