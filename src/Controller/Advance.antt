-- ===== src/Controller/Advance.antt =====
-- How a run comes to record a revision: by a whole update, one step after the other.
pub mod Stages
use crd_bootstrap.Base.{
  ℕ, String, ◌≡◌, refl, ap, Bool, true, false, Option, none, some, List, [], ◌∷◌, ◌⊎◌, inl, inr, M,
  ◌∙◌, Outcome, ok, err, panic, ◌>>=◌, ◌>>◌, resume, caught, map, map_err, map_err-eq-ok, wrap,
  wrapping, deferring,
}
use crd_bootstrap.Base.Dict.{Dict}
use crd_bootstrap.Base.FilePath.{FilePath}
use crd_bootstrap.Api.{Bootstrap}
use crd_bootstrap.Platform.{Platform}
use crd_bootstrap.Platform.World.{World, outside}
use crd_bootstrap.Platform.Os.{mkdir_temp, remove_tree}
use crd_bootstrap.Breaking.{OpenApi}
use crd_bootstrap.Sources.{Contract}
use crd_bootstrap.Controller.{
  Cluster, Run, Call, applied, patched, within, api, note, get_obj, set_obj,
}
use crd_bootstrap.Controller.Objects.{
  read_objects, label, detect_changes, count_names, count_applied, manager_config,
  new_resource_manager,
}
use crd_bootstrap.Controller.Checks.{gate_breaking_lem, gate_validation_lem}
use crd_bootstrap.Controller.Reconcile.{
  add_finalizer, mark, fail_marked, marking, finish, set_attempted, set_breaking, set_applied,
  apply_objects, apply_checked, check_and_apply, install_from, install, proceed, update_object,
  patch_observed, reconcile_live,
}

-- A computation that returns goes on in the state that it leaves.
pub known {ℓ κ} :
    {S : Type ℓ} {A : Type κ} (m : M S A) (s : S) {a : A} → (m s).0 ≡ ok a → m s ≡ (ok a, (m s).1)
known m s e = ap (λ o. (o, (m s).1)) e

module _ {P : Platform} {O : OpenApi} (C : Cluster P O) where
  abbrev pub recorded : Run C → String
  recorded r = r.obj.status.last_applied_revision

  -- The objects are applied and then waited for, with success, and the revision is recorded.
  pub record IsApplied (sm : C.Manager) (objects : List C.Object) (revision : String)
      (start : P.Outside) (before after : List (Call C)) (found : String) : Type 0 where
    pub applied_at : P.Outside
    pub waited_at : P.Outside
    pub applies : C.apply_all_staged sm objects start ≡ (ok tt, applied_at)
    pub waits : C.wait sm objects applied_at ≡ (ok tt, waited_at)
    pub calls : after ≡ applied sm objects ∷ before
    pub records : found ≡ revision

  -- The CRDs of a file are read, labelled, compared and applied, by a manager made for the object.
  pub record IsInstalled (account : String) (obj : Bootstrap) (location : FilePath)
      (revision : String) (v : World P) (before after : List (Call C)) (found : String)
      : Type 0 where
    pub sm : C.Manager
    pub managed_at : P.Outside
    pub manages : C.new_manager (manager_config C account obj) v.outside ≡ (ok sm, managed_at)
    pub crds : List C.Object
    pub w : World P
    pub reads : read_objects C location (record v { outside = managed_at }) ≡ (ok crds, w)
    pub changes : List String
    pub x : World P
    pub detects : detect_changes C (map (label C obj.name) crds) [] w ≡ (ok changes, x)
    pub applies : IsApplied sm (map (label C obj.name) crds) revision x.outside before after found

  -- The source has an update, which is fetched to a new directory and installed from there.
  pub record IsUpdated (source_provider : Contract P) (account : String) (obj : Bootstrap)
      (start : World P) (before after : List (Call C)) (found : String) : Type 0 where
    pub revision : String
    pub u : World P
    pub finds : source_provider.has_update obj start ≡ (ok (true, revision), u)
    pub temp : FilePath
    pub y : World P
    pub makes : mkdir_temp "crd" u ≡ (ok temp, y)
    pub location : FilePath
    pub v : World P
    pub fetches :
        source_provider.fetch_crd temp (set_attempted revision obj) revision y ≡ (ok location, v)
    pub installs :
        IsInstalled account (set_attempted revision obj) location revision v before after found
