-- ===== src/Memory/Objects.antt =====
-- api/v1alpha1/zz_generated.deepcopy.go: the methods that make a new value, `DeepCopy` of each
-- type, and those that the resource and the list have as a `runtime.Object`.
use crd_bootstrap.Base.{none, some, M, pure, crash, ◌>>=◌}
use crd_bootstrap.Memory.{Ptr, Heap}
use crd_bootstrap.Memory.Copy.{
  Library, copy_pointer, copy_github, copy_gitlab, copy_helm, copy_url, copy_config_map,
  copy_version, copy_source,
}
use crd_bootstrap.Memory.Resource.{
  copy_kube_config, copy_spec, copy_status, copy_bootstrap, copy_list,
}

-- An interface is nil, or has a type and a pointer, which can be nil too.
pub data Object : Type 0 where
  nil : Object
  bootstrap : Ptr → Object
  bootstrap_list : Ptr → Object

unfoldable pub github_deep_copy : Ptr → M Heap Ptr
unfolding copy_pointer copy_github
github_deep_copy p = copy_pointer copy_github p

unfoldable pub gitlab_deep_copy : Ptr → M Heap Ptr
unfolding copy_pointer copy_gitlab
gitlab_deep_copy p = copy_pointer copy_gitlab p

unfoldable pub helm_deep_copy : Ptr → M Heap Ptr
unfolding copy_pointer copy_helm
helm_deep_copy p = copy_pointer copy_helm p

unfoldable pub url_deep_copy : Ptr → M Heap Ptr
unfolding copy_pointer copy_url
url_deep_copy p = copy_pointer copy_url p

unfoldable pub config_map_deep_copy : Ptr → M Heap Ptr
unfolding copy_pointer copy_config_map
config_map_deep_copy p = copy_pointer copy_config_map p

unfoldable pub version_deep_copy : Ptr → M Heap Ptr
unfolding copy_pointer copy_version
version_deep_copy p = copy_pointer copy_version p

unfoldable pub source_deep_copy : Ptr → M Heap Ptr
unfolding copy_pointer copy_source
source_deep_copy p = copy_pointer copy_source p

unfoldable pub kube_config_deep_copy : Library → Ptr → M Heap Ptr
unfolding copy_pointer copy_kube_config
kube_config_deep_copy L p = copy_pointer (copy_kube_config L) p

unfoldable pub spec_deep_copy : Library → Ptr → M Heap Ptr
unfolding copy_pointer copy_spec
spec_deep_copy L p = copy_pointer (copy_spec L) p

unfoldable pub status_deep_copy : Library → Ptr → M Heap Ptr
unfolding copy_pointer copy_status
status_deep_copy L p = copy_pointer (copy_status L) p

unfoldable pub bootstrap_deep_copy : Library → Ptr → M Heap Ptr
unfolding copy_pointer copy_bootstrap
bootstrap_deep_copy L p = copy_pointer (copy_bootstrap L) p

unfoldable pub list_deep_copy : Library → Ptr → M Heap Ptr
unfolding copy_pointer copy_list
list_deep_copy L p = copy_pointer (copy_list L) p

-- `if c := in.DeepCopy(); c != nil { return c }; return nil`: a nil result is a nil interface, and
-- not an interface with a nil pointer.
unfoldable pub returned : (Ptr → Object) → Ptr → Object
returned of_type none = nil
returned of_type (some a) = of_type (some a)

unfoldable pub bootstrap_deep_copy_object : Library → Ptr → M Heap Object
unfolding bootstrap_deep_copy returned
bootstrap_deep_copy_object L p = do c ← bootstrap_deep_copy L p; pure (returned bootstrap c)

unfoldable pub list_deep_copy_object : Library → Ptr → M Heap Object
unfolding list_deep_copy returned
list_deep_copy_object L p = do c ← list_deep_copy L p; pure (returned bootstrap_list c)

-- `obj.DeepCopyObject()`, which Go finds by the type in the interface.
unfoldable pub deep_copy_object : Library → Object → M Heap Object
unfolding bootstrap_deep_copy_object list_deep_copy_object
deep_copy_object L nil = crash
deep_copy_object L (bootstrap p) = bootstrap_deep_copy_object L p
deep_copy_object L (bootstrap_list p) = list_deep_copy_object L p
