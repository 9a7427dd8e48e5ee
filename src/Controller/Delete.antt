-- ===== src/Controller/Delete.antt =====
-- `reconcileDelete` of internal/controller/bootstrap_controller.go.
pub mod Release
pub mod Done
use crd_bootstrap.Base.{String, Bool, true, false, List, [], ◌∷◌, M, pure, wrapping, ◌>>=◌, ◌>>◌}
use crd_bootstrap.Api.{Bootstrap, owner_label_key}
use crd_bootstrap.Platform.{Platform}
use crd_bootstrap.Breaking.{OpenApi}
use crd_bootstrap.Controller.{Cluster, Run, deleted, patched, api, note, get_obj, set_obj}

abbrev pub finalizer : String
finalizer = "delivery.crd-bootstrap"

module _ {P : Platform} {O : OpenApi} (C : Cluster P O) where
  -- `patchHelper.Patch(ctx, obj)`, for a helper made from `before`.
  abbrev pub patch_from : Bootstrap → M (Run C) (Unit {0})
  patch_from before = do obj ← get_obj; note (patched obj); api (C.patch before obj)

  abbrev pub release : Bootstrap → Bootstrap
  release obj = record obj { finalizers = C.remove_finalizer finalizer obj.finalizers }

  unfoldable pub delete_items : List String → M (Run C) (Unit {0})
  delete_items [] = pure tt
  delete_items (item ∷ items) = do
    note (deleted item)
    wrapping "failed to delete object with name" (item ∷ []) (api (C.delete_crd item))
    delete_items items

  unfoldable pub prune_owned : Bootstrap → M (Run C) (Unit {0})
  unfolding delete_items
  prune_owned before = do
    items ← wrapping "failed to list owned CRDS" [] (api (C.list_crds owner_label_key before.name))
    delete_items items
    set_obj release
    patch_from before

  -- Without pruning the CRDs stay.
  unfoldable pub delete_by : Bool → Bootstrap → M (Run C) (Unit {0})
  unfolding prune_owned
  delete_by true before = prune_owned before
  delete_by false before = do set_obj release; patch_from before

  unfoldable pub reconcile_delete : M (Run C) (Unit {0})
  unfolding delete_by
  reconcile_delete = do before ← get_obj; delete_by before.spec.prune before
