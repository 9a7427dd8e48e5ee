-- ===== src/Tests/Installs.antt =====
-- An example of the theorem on a whole first update.
use crd_bootstrap.Base.{eqb, if◌then◌else◌, refl, true, some, List, [], ◌∷◌, ok, err, Error}
use crd_bootstrap.Api
use crd_bootstrap.Controller.{Cluster, Run}
use crd_bootstrap.Controller.Reconcile.{reconcile_live}
use crd_bootstrap.Controller.Installs.{IsHealthy}
use crd_bootstrap.Sources.Chain.{helm_provider}
use crd_bootstrap.Tests.{
  sort_by, texts, plain_semver, local, start, small, Manifest, no_source, bootstrap, installed_crd,
}

-- No CRD is installed in the state 0; an apply leads to the state 1, in which all are.
abbrev bare : Cluster local texts
bare = record small {
  is_not_found = λ e. true;
  get_crd =
      λ name s. (if eqb s 0 then err (Error.foreign "not found") else ok (installed_crd name), s);
  apply_all_staged = λ m os s. (ok tt, 1);
}

abbrev healthy : IsHealthy bare
healthy = record {
  calls = λ c s. refl;
  temp = "crd" ∷ "tmp" ∷ [];
  makes = λ s. refl;
  manager = λ k. k;
  manages = λ k s. refl;
  applies = λ m os s. refl;
  waits = λ m os s. refl;
  patches = λ a b s. refl;
}

abbrev crds : Api.ConfigMap
crds = record { name = "crds"; namespace = "default" }

abbrev source : Api.Source
source = record no_source { config_map = some crds }

abbrev offered : List Manifest
offered =
    record { kind = "CustomResourceDefinition"; name = "foos"; labels = ("a", "b") ∷ [] }
    ∷ record { kind = "Deployment"; name = "app"; labels = [] }
    ∷ []

abbrev run : Run bare
run = record { world = start 0; obj = bootstrap source "" "1" true; calls = [] }

abbrev after : Run bare
after = (reconcile_live bare (helm_provider plain_semver sort_by) "account" run).1
