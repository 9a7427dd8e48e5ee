-- ===== src/Sources/Helm/Update.antt =====
-- What an update of the Helm source is.
use crd_bootstrap.Base.{String, ◌≡◌, List, ok}
use crd_bootstrap.Api
use crd_bootstrap.Api.{Bootstrap}
use crd_bootstrap.Platform.{Semver, Platform}
use crd_bootstrap.Platform.World.{World}
use crd_bootstrap.Sources.Helm.Listing.{IsListed}
use crd_bootstrap.Sources.Helm.Latest.{IsLatest}

module _ (S : Semver) {P : Platform} where
  -- An update to the latest of the versions that are listed.
  pub record IsSelected (h : Api.Helm) (obj : Bootstrap) (w : World P) (revision : String)
      : Type 0 where
    pub versions : List String
    pub listed : IsListed obj.namespace h w versions
    pub constraint : S.Constraint
    pub wanted : S.new_constraint obj.spec.version.semver ≡ ok constraint
    pub latest : IsLatest S constraint versions revision
