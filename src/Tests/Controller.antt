-- ===== src/Tests/Controller.antt =====
-- Tests of the controller, and examples of its theorems.
use crd_bootstrap.Base.{
  ◌≡◌, refl, true, none, some, List, [], ◌∷◌, ◌⊎◌, inl, inr, ok, wrap, Error, ◌>>=◌,
}
use crd_bootstrap.Base.FilePath.{join_path, same_path, under}
use crd_bootstrap.Api.{Source}
use crd_bootstrap.Platform.World.{dir, outside, edit_files}
use crd_bootstrap.Sources.{Contract}
use crd_bootstrap.Sources.ConfigMap
use crd_bootstrap.Sources.Chain.{HasVersions, helm_provider, helm_provider-IsForward}
use crd_bootstrap.Sources.Helm
use crd_bootstrap.Sources.Decide.Order.{IsLater}
use crd_bootstrap.Controller.{
  ManagerConfig, Run, Call, patched, deleted, within, get_obj, set_obj, note,
}
use crd_bootstrap.Controller.Reconcile.{
  reconcile, install, reconcile_live, check_and_apply, marking, fail_marked,
}
use crd_bootstrap.Controller.Delete.{finalizer, reconcile_delete}
use crd_bootstrap.Controller.Delete.Release.{IsKept, IsReleased, reconcile_delete-IsReleased}
use crd_bootstrap.Controller.Checks.{IsLabelled}
use crd_bootstrap.Controller.Safety.{IsGuarded, reconcile_live-IsGuarded}
use crd_bootstrap.Controller.Progress.{
  IsAdvanced, reconcile_live-IsAdvanced, reconcile_live-patched,
}
use crd_bootstrap.Controller.History.{here, next, reconciled, Reach-IsLater}
use crd_bootstrap.Controller.Cleanup.{install-IsCleaned}
use crd_bootstrap.Controller.Dispatch.{IsHandled, reconcile-IsHandled}
use crd_bootstrap.Controller.Counting.{counted, check_and_apply-counted}
use crd_bootstrap.Controller.{Cluster}
use crd_bootstrap.Tests.{
  sort_by, texts, plain_semver, plain_semver-IsOrdered, local, start, small, Manifest, no_source,
  bootstrap,
}

opened : Unit {0}
unfolding reconcile_live install reconcile_delete Helm.has_update Helm.Chart.fetch_crd
    ConfigMap.has_update ConfigMap.fetch_crd outside edit_files join_path same_path under within
    get_obj set_obj note ◌>>=◌ marking fail_marked
opened = tt

small-IsLabelled : IsLabelled small
small-IsLabelled = record { labels = λ l o. refl; kind = λ l o. refl }

abbrev pub from_config_map : Source
from_config_map = record no_source {
  config_map = some (record { name = "crds"; namespace = "default" });
}

abbrev pub provider : Contract local
provider = helm_provider plain_semver sort_by

abbrev pub run : Run small
run = record { world = start 0; obj = bootstrap from_config_map "" "1" true; calls = [] }

abbrev pub ran : Run small
ran = (reconcile_live small provider "account" run).1

-- The update is applied, and the status says so.
reconcile_live_tests :
    ((reconcile_live small provider "account" run).0 ≡ ok (record { requeue_after = 60 }))
    × (ran.obj.status.last_applied_revision ≡ "2")
    × (ran.obj.status.last_applied_crd_names ≡ some (("foos", 6) ∷ []))
    × (ran.obj.status.observed_generation ≡ 4)
unfolding opened
reconcile_live_tests = (refl, refl, refl, refl)

reconcile_live-IsGuarded_example :
    (ran.calls ≡ patched ran.obj ∷ []) ⊎ IsGuarded {C = small} "boot" (patched ran.obj ∷ []) ran
reconcile_live-IsGuarded_example =
    reconcile_live-IsGuarded small small-IsLabelled provider "account" run refl

reconcile_live-IsAdvanced_example :
    (ran.obj.status.last_applied_revision ≡ "1") ⊎ IsAdvanced small provider "account" run ran
reconcile_live-IsAdvanced_example = reconcile_live-IsAdvanced small provider "account" run

reconcile_live-patched_example :
    (calls : List (Call small)) × (ran.calls ≡ patched ran.obj ∷ calls)
    × (ran.obj.finalizers ≡ small.add_finalizer finalizer run.obj.finalizers)
    × (ran.obj.status.observed_generation ≡ run.obj.generation)
    × (ran.obj.name ≡ run.obj.name)
    × (ran.obj.namespace ≡ run.obj.namespace)
    × (ran.obj.spec ≡ run.obj.spec)
reconcile_live-patched_example =
    reconcile_live-patched small small-IsLabelled provider "account" run

Reach-IsLater_example : IsLater plain_semver "1" ran.obj.status.last_applied_revision
Reach-IsLater_example =
    Reach-IsLater small provider "account" HasVersions plain_semver plain_semver-IsOrdered
      (helm_provider-IsForward plain_semver sort_by) {a = run.obj} {b = ran.obj}
      (next here (reconciled run from_config_map refl refl (inr (inl (λ e. cc))) refl))

abbrev released : Run small
released = (reconcile_delete small run).1

reconcile_delete_tests :
    (released.calls ≡ patched released.obj ∷ deleted "bars" ∷ deleted "foos" ∷ [])
    × (released.obj.finalizers ≡ [])
unfolding opened
reconcile_delete_tests = (refl, refl)

reconcile_delete-IsReleased_example : IsKept small run released ⊎ IsReleased small run released
reconcile_delete-IsReleased_example = reconcile_delete-IsReleased small run refl

abbrev pub foos : List Manifest
foos = record { kind = "CustomResourceDefinition"; name = "foos"; labels = [] } ∷ []

-- The cluster does not answer.
abbrev pub cut_off : Run small
cut_off = record run { world = start 7 }

abbrev manager : ManagerConfig
manager = record {
  default_service_account = "";
  service_account_name = "";
  object_namespace = "";
  kube_config = none;
}

check_and_apply-counted_example :
    (check_and_apply small manager foos "2" cut_off).1.obj.status.last_applied_crd_names
    ≡ counted small (some (("foos", 5) ∷ [])) ("foos" ∷ [])
unfolding opened
check_and_apply-counted_example =
    check_and_apply-counted small manager foos "2"
      (wrap "fetching existing CRD" ("foos" ∷ []) (Error.foreign "unreachable")) cut_off refl

install-IsCleaned_example : (install small provider "account" "2" run).1.world.files ≡ []
unfolding opened
install-IsCleaned_example =
    install-IsCleaned small provider "account" "2" run ("crd" ∷ "tmp" ∷ []) 0 refl (λ w. refl)

-- For a revision that the config map does not have the directory stays.
install_tests :
    (install small provider "account" "3" run).1.world.files ≡ ("crd" ∷ "tmp" ∷ [], dir) ∷ []
unfolding opened
install_tests = refl

-- A cluster that holds the object of the run.
abbrev holding : Cluster local texts
holding = record small { get_bootstrap = λ name namespace s. (ok run.obj, s) }

abbrev idle : Run holding
idle = record { world = start 0; obj = run.obj; calls = [] }

reconcile-IsHandled_example :
    IsHandled holding (ok run.obj) (reconcile holding provider "account" "boot" "default" idle).1
unfolding opened
reconcile-IsHandled_example =
    reconcile-IsHandled holding (record { labels = λ l o. refl; kind = λ l o. refl }) provider
      "account" "boot" "default" idle refl
