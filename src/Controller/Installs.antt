-- ===== src/Controller/Installs.antt =====
-- The first update from a config map, by the whole chain of sources and the whole run.
use crd_bootstrap.Base.{String, List, ◌≡◌, Bool, none, some, ok, map, select, ◌==◌}
use crd_bootstrap.Base.Dict.{Dict, lookup}
use crd_bootstrap.Base.FilePath.{FilePath}
use crd_bootstrap.Api
use crd_bootstrap.Api.{Bootstrap}
use crd_bootstrap.Platform.{Semver, Platform, OsCall}
use crd_bootstrap.Platform.World.{World, outside}
use crd_bootstrap.Breaking.{OpenApi}
use crd_bootstrap.Sources.{Contract}
use crd_bootstrap.Sources.ConfigMap
use crd_bootstrap.Sources.ConfigMap.{version_key, crd_key}
use crd_bootstrap.Sources.Chain.{helm_provider}
use crd_bootstrap.Controller.{Cluster, Run, ManagerConfig}
use crd_bootstrap.Controller.Objects.{crd_kind, read_objects, label}
use crd_bootstrap.Controller.Reconcile.{add_finalizer}

module _ {P : Platform} {O : OpenApi} (C : Cluster P O) where
  -- No call of the system and no request to the cluster fails.
  pub record IsHealthy : Type 0 where
    pub calls : (c : OsCall) (s : P.Outside) → (P.os_call c s).0 ≡ ok tt
    pub temp : FilePath
    pub makes : (s : P.Outside) → (P.temp_dir "crd" s).0 ≡ ok temp
    pub manager : ManagerConfig → C.Manager
    pub manages : (k : ManagerConfig) (s : P.Outside) → (C.new_manager k s).0 ≡ ok (manager k)
    pub applies :
        (m : C.Manager) (objects : List C.Object) (s : P.Outside)
        → (C.apply_all_staged m objects s).0 ≡ ok tt
    pub waits :
        (m : C.Manager) (objects : List C.Object) (s : P.Outside) → (C.wait m objects s).0 ≡ ok tt
    pub patches : (a b : Bootstrap) (s : P.Outside) → (C.patch a b s).0 ≡ ok tt

  -- A config map that stays as it is, with a version and with objects.
  pub record Offers (c : Api.ConfigMap) (version : String) (objects : List C.Object) : Type 0 where
    pub contents : Dict String
    pub text : String
    pub got : (s : P.Outside) → (P.get_config_map c.name c.namespace s).0 ≡ ok contents
    pub versioned : lookup version_key contents ≡ some version
    pub filled : lookup crd_key contents ≡ some text
    pub read : C.read_objects text ≡ ok objects

  module _ (S : Semver)
      (sort_slice : (S.Version → S.Version → Bool) → List S.Version → List S.Version)
      (account : String) (source : Api.Source) (c : Api.ConfigMap) (version : String)
      (objects : List C.Object) (r : Run C) where
    abbrev provider : Contract P
    provider = helm_provider S sort_slice

    abbrev start : Bootstrap
    start = add_finalizer C r.obj

    abbrev alone_provider : Contract P
    alone_provider = ConfigMap.new_source S none

    updated : World P → World P
    updated w = record w { outside = (P.get_config_map c.name c.namespace w.outside).1 }

    abbrev labelled : List C.Object
    labelled = map (label C r.obj.name) (select (λ o. C.get_kind o == crd_kind) objects)
