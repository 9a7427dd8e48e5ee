-- ===== src/Memory/Resource.antt =====
-- api/v1alpha1/zz_generated.deepcopy.go: the copies of the resource and of its parts.
use crd_bootstrap.Base.{List, [], ◌∷◌, map, M, pure, crash, ◌>>=◌}
use crd_bootstrap.Base.Dict.{Dict}
use crd_bootstrap.Memory.{
  Ptr, KubeConfig, BootstrapSpec, BootstrapStatus, Bootstrap, BootstrapList, Cell, Heap,
}
use crd_bootstrap.Memory.Copy.{Library, copy_pointer, copy_value, copy_source}

unfoldable pub copy_kube_reference : Library → Cell → M Heap Cell
copy_kube_reference L (Cell.kube_reference r) = pure (Cell.kube_reference (L.copy_kube_reference r))
copy_kube_reference L _ = crash

unfoldable pub kube_config_deep_copy_into : Library → KubeConfig → M Heap KubeConfig
unfolding copy_pointer copy_kube_reference
kube_config_deep_copy_into L k = do
  secret_ref ← copy_pointer (copy_kube_reference L) k.secret_ref
  pure (record k { secret_ref = secret_ref })

unfoldable pub copy_kube_config : Library → Cell → M Heap Cell
unfolding kube_config_deep_copy_into
copy_kube_config L (Cell.kube_config k) = do
  k' ← kube_config_deep_copy_into L k
  pure (Cell.kube_config k')
copy_kube_config L _ = crash

unfoldable pub copy_json : Library → Cell → M Heap Cell
copy_json L (Cell.json s) = pure (Cell.json (L.copy_json s))
copy_json L _ = crash

-- `for key, val := range *in`: a nil entry stays nil.
unfoldable pub copy_each_entry : Library → Dict Ptr → M Heap (Dict Ptr)
unfolding copy_pointer copy_json
copy_each_entry L [] = pure []
copy_each_entry L ((key, p) ∷ rest) = do
  q ← copy_pointer (copy_json L) p
  rest' ← copy_each_entry L rest
  pure ((key, q) ∷ rest')

unfoldable pub copy_entries : Library → Cell → M Heap Cell
unfolding copy_each_entry
copy_entries L (Cell.entries d) = do d' ← copy_each_entry L d; pure (Cell.entries d')
copy_entries L _ = crash

unfoldable pub spec_deep_copy_into : Library → BootstrapSpec → M Heap BootstrapSpec
unfolding copy_pointer copy_source copy_entries copy_kube_config
spec_deep_copy_into L s = do
  source ← copy_pointer copy_source s.source
  template ← copy_pointer (copy_entries L) s.template
  kube_config ← copy_pointer (copy_kube_config L) s.kube_config
  pure (record s { source = source; template = template; kube_config = kube_config })

unfoldable pub copy_conditions : Library → Cell → M Heap Cell
copy_conditions L (Cell.conditions cs) = pure (Cell.conditions (map L.copy_condition cs))
copy_conditions L _ = crash

unfoldable pub status_deep_copy_into : Library → BootstrapStatus → M Heap BootstrapStatus
unfolding copy_pointer copy_value copy_conditions
status_deep_copy_into L s = do
  conditions ← copy_pointer (copy_conditions L) s.conditions
  names ← copy_pointer copy_value s.last_applied_crd_names
  changes ← copy_pointer copy_value s.breaking_changes
  pure (record s {
    conditions = conditions;
    last_applied_crd_names = names;
    breaking_changes = changes;
  })

unfoldable pub bootstrap_deep_copy_into : Library → Bootstrap → M Heap Bootstrap
unfolding spec_deep_copy_into status_deep_copy_into
bootstrap_deep_copy_into L b = do
  spec ← spec_deep_copy_into L b.spec
  status ← status_deep_copy_into L b.status
  pure record { metadata = L.copy_object_meta b.metadata; spec = spec; status = status }

unfoldable pub copy_each_item : Library → List Bootstrap → M Heap (List Bootstrap)
unfolding bootstrap_deep_copy_into
copy_each_item L [] = pure []
copy_each_item L (b ∷ rest) = do
  b' ← bootstrap_deep_copy_into L b
  rest' ← copy_each_item L rest
  pure (b' ∷ rest')

unfoldable pub copy_items : Library → Cell → M Heap Cell
unfolding copy_each_item
copy_items L (Cell.bootstraps bs) = do bs' ← copy_each_item L bs; pure (Cell.bootstraps bs')
copy_items L _ = crash

unfoldable pub list_deep_copy_into : Library → BootstrapList → M Heap BootstrapList
unfolding copy_pointer copy_items
list_deep_copy_into L l = do
  items ← copy_pointer (copy_items L) l.items
  pure record { items = items }

unfoldable pub copy_spec : Library → Cell → M Heap Cell
unfolding spec_deep_copy_into
copy_spec L (Cell.spec x) = do y ← spec_deep_copy_into L x; pure (Cell.spec y)
copy_spec L _ = crash

unfoldable pub copy_status : Library → Cell → M Heap Cell
unfolding status_deep_copy_into
copy_status L (Cell.status x) = do y ← status_deep_copy_into L x; pure (Cell.status y)
copy_status L _ = crash

unfoldable pub copy_bootstrap : Library → Cell → M Heap Cell
unfolding bootstrap_deep_copy_into
copy_bootstrap L (Cell.bootstrap x) = do y ← bootstrap_deep_copy_into L x; pure (Cell.bootstrap y)
copy_bootstrap L _ = crash

unfoldable pub copy_list : Library → Cell → M Heap Cell
unfolding list_deep_copy_into
copy_list L (Cell.bootstrap_list x) = do y ← list_deep_copy_into L x; pure (Cell.bootstrap_list y)
copy_list L _ = crash
