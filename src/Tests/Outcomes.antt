-- ===== src/Tests/Outcomes.antt =====
-- Examples of the theorems on how a run of the controller ends.
use crd_bootstrap.Base.{
  String, ◌↔◌, Option, Error, err, wrap, select, none, ℕ, some, ◌≡◌, refl, [], ◌∷◌, ◌⊎◌, inl, inr,
  ok, ◌>>=◌,
}
use crd_bootstrap.Base.FilePath.{join_path, same_path, under}
use crd_bootstrap.Platform.World.{outside, edit_files}
use crd_bootstrap.Sources.ConfigMap
use crd_bootstrap.Sources.Helm
use crd_bootstrap.Controller.{Run, within, get_obj, set_obj, note}
use crd_bootstrap.Controller.Reconcile.{
  ReconcileResult, reconcile_live, add_finalizer, marking, fail_marked,
}
use crd_bootstrap.Base.Dict.{Dict, lookup}
use crd_bootstrap.Api.{Bootstrap}
use crd_bootstrap.Controller.{Cluster}
use crd_bootstrap.Controller.Validation.{IsAdmitted, validate_objects-IsAdmitted}
use crd_bootstrap.Controller.Contents.{fetch_selected-read}
use crd_bootstrap.Controller.Objects.{count_applied, increment_all, validate_objects, read_objects}
use crd_bootstrap.Controller.Counting.Words.{IsCounted, count_applied-IsCounted}
use crd_bootstrap.Sources.{Contract}
use crd_bootstrap.Controller.Convergence.{IsIdle, reconcile_live-converges}
use crd_bootstrap.Controller.Delete.{reconcile_delete}
use crd_bootstrap.Controller.Delete.Done.{IsDone, reconcile_delete-IsDone}
use crd_bootstrap.Controller.Failures.{reconcile_live-IsUnready}
use crd_bootstrap.Controller.Failures.Rules.{IsUnready, IsUnanswered}
use crd_bootstrap.Controller.Success.{IsSettled, reconcile_live-Follows}
use crd_bootstrap.Controller.Liveness.{reconcile_live-IsSettled}
use crd_bootstrap.Controller.Liveness.Checked.{HasPatched}
use crd_bootstrap.Tests.{plain_semver-IsOrdered, small, start, local, texts, plain_semver}
use crd_bootstrap.Tests.Controller.{from_config_map, provider, foos, run, ran, cut_off}

opened : Unit {0}
unfolding reconcile_live Helm.has_update Helm.Chart.fetch_crd ConfigMap.has_update
    ConfigMap.fetch_crd outside edit_files join_path same_path under within get_obj set_obj note
    ◌>>=◌ marking fail_marked
opened = tt

abbrev stuck : Run small
stuck = (reconcile_live small provider "account" cut_off).1

reconcile_live-IsUnready_example :
    IsUnready small stuck
    ⊎ IsUnanswered small
        (provider.has_update (add_finalizer small cut_off.obj) cut_off.world).0
        cut_off
        stuck
unfolding opened
reconcile_live-IsUnready_example =
    reconcile_live-IsUnready small provider "account" cut_off _ (λ p s. refl) (λ a b s. refl) refl

reconcile_live-Follows_example : IsSettled small "2" (record { requeue_after = 60 }) ran
unfolding opened
reconcile_live-Follows_example =
    reconcile_live-Follows small provider "account" run (record { requeue_after = 60 }) refl

reconcile_live-IsSettled_example :
    (result : ReconcileResult) × ((reconcile_live small provider "account" run).0 ≡ ok result)
    × IsSettled small "2" result ran
    × HasPatched small
        (record {
          default_service_account = "account";
          service_account_name = "";
          object_namespace = "default";
          kube_config = none;
        })
        (record {
          kind = "CustomResourceDefinition";
          name = "foos";
          labels = ("delivery.crd-bootstrap.owned", "boot") ∷ [];
        }
          ∷ [])
        run
        ran
unfolding opened
reconcile_live-IsSettled_example =
    reconcile_live-IsSettled small provider "account" run "2" ("crd" ∷ "tmp" ∷ [])
      ("crd.yaml" ∷ "crd" ∷ "tmp" ∷ []) _ _ _ _ _ _ _ _ _ _ _ refl refl refl (inl refl) (inl refl)
      refl refl refl refl (λ s. refl) refl (λ a b s. refl)

count_applied-IsCounted_example :
    (all : Dict ℕ) × ((count_applied small foos run).0 ≡ ok all)
    × IsCounted (some (("foos", 5) ∷ [])) ("foos" ∷ []) all
count_applied-IsCounted_example = count_applied-IsCounted small foos run

-- A count that is the greatest word goes back to 0.
increment_tests :
    increment_all ("foos" ∷ []) (("foos", 18446744073709551615) ∷ []) ≡ ("foos", 0) ∷ []
unfolding increment_all
increment_tests = refl

-- One version with a schema, which refuses a raw null.
abbrev strict : Cluster local texts
strict = record small {
  unmarshal_internal = λ s. ok (record {
    name = s;
    kind = "Foo";
    versions = record { name = "v1"; schema = some (record { open_api_v3_schema = some s }) } ∷ [];
  });
  validate = λ v o. elim o [ none ↦ err (Error.foreign "null") | some _ ↦ ok tt ];
}

abbrev with_template : Option String → Bootstrap
with_template value = record run.obj {
  spec = record run.obj.spec { template = some (("Foo", value) ∷ []) };
}

validate_objects_tests :
    (validate_objects strict (with_template (some "{}")) foos ≡ ok tt)
    × (validate_objects strict (with_template none) foos
        ≡ err (wrap "failed to validate kind" ("Foo" ∷ []) (Error.foreign "null")))
unfolding validate_objects
validate_objects_tests = (refl, refl)

validate_objects-IsAdmitted_example :
    (validate_objects strict (with_template (some "{}")) foos ≡ ok tt)
    ↔ IsAdmitted strict (some (("Foo", some "{}") ∷ [])) foos
validate_objects-IsAdmitted_example =
    validate_objects-IsAdmitted strict (with_template (some "{}")) foos

fetch_selected-read_example :
    ((ConfigMap.fetch_selected plain_semver {P = local} none
          (some (record { name = "crds"; namespace = "default" }))
          ("tmp" ∷ [])
          run.obj
          "2"
        >>= read_objects small)
      (start 0)).0
    ≡ ok
        (record { kind = "CustomResourceDefinition"; name = "foos"; labels = ("a", "b") ∷ [] } ∷ [])
unfolding lookup select
fetch_selected-read_example =
    fetch_selected-read small (λ c s. refl) plain_semver none
      (record { name = "crds"; namespace = "default" }) ("tmp" ∷ []) run.obj "2"
      "kind: CustomResourceDefinition" _ _ (start 0) 0 refl refl refl refl

-- The config map source by itself, and a second run after the first.
abbrev only_config_map : Contract local
only_config_map = ConfigMap.new_source plain_semver none

abbrev again : Run small
again = record {
  world = start 0;
  obj = (reconcile_live small only_config_map "account" run).1.obj;
  calls = [];
}

reconcile_live-converges_example :
    IsIdle small again (reconcile_live small only_config_map "account" again)
unfolding opened
reconcile_live-converges_example =
    reconcile_live-converges small plain_semver plain_semver-IsOrdered none "account"
      from_config_map (record { name = "crds"; namespace = "default" }) run again "2"
      (record { requeue_after = 60 }) refl refl refl refl refl refl refl (λ a b s. refl)

reconcile_delete-IsDone_example :
    IsDone small ("foos" ∷ "bars" ∷ []) run (reconcile_delete small run)
reconcile_delete-IsDone_example =
    reconcile_delete-IsDone small run ("foos" ∷ "bars" ∷ []) 0 (λ a b u. refl)
      (inr (refl, refl, (refl, (refl, tt))))
