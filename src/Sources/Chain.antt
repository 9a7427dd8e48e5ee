-- ===== src/Sources/Chain.antt =====
-- The chain of sources that cmd/main.go builds.
pub mod Links
pub mod Choice
use crd_bootstrap.Base.{Bool, List, ◌≢◌, none, some, ◌⊎◌}
use crd_bootstrap.Api
use crd_bootstrap.Platform.{Semver, Platform}
use crd_bootstrap.Sources.{Contract}
use crd_bootstrap.Sources.ConfigMap
use crd_bootstrap.Sources.Github
use crd_bootstrap.Sources.Gitlab
use crd_bootstrap.Sources.Helm
use crd_bootstrap.Sources.Url
use crd_bootstrap.Sources.Forward.{
  IsForward, ConfigMap-IsForward, Github-IsForward, Gitlab-IsForward, Helm-IsForward,
}

-- The URL source has digests, no versions.
abbrev HasNoVersions : Api.Source → Type 0
HasNoVersions source = ⊥

abbrev HasPlainVersions : Api.Source → Type 0
HasPlainVersions source =
    (source.config_map ≢ none)
    ⊎ ((source.gitlab ≢ none) ⊎ ((source.github ≢ none) ⊎ HasNoVersions source))

-- One of the sources of the chain that have versions is given.
abbrev pub HasVersions : Api.Source → Type 0
HasVersions source = (source.helm ≢ none) ⊎ HasPlainVersions source

module _ (S : Semver) {P : Platform} where
  abbrev pub url_provider : Contract P
  url_provider = Url.new_source none

  abbrev pub github_provider : Contract P
  github_provider = Github.new_source S (some url_provider)

  abbrev pub gitlab_provider : Contract P
  gitlab_provider = Gitlab.new_source S (some github_provider)

  abbrev pub config_map_provider : Contract P
  config_map_provider = ConfigMap.new_source S (some gitlab_provider)

  url_provider-IsForward : IsForward S HasNoVersions url_provider
  url_provider-IsForward = record { newer = λ source obj e v. absurd v }

  config_map_provider-IsForward : IsForward S HasPlainVersions config_map_provider
  config_map_provider-IsForward = ConfigMap-IsForward S _ (some gitlab_provider) (
      Gitlab-IsForward S _ (some github_provider)
        (Github-IsForward S _ (some url_provider) url_provider-IsForward))

module _ (S : Semver)
    (sort_slice : (S.Version → S.Version → Bool) → List S.Version → List S.Version)
    {P : Platform} where
  abbrev pub helm_provider : Contract P
  helm_provider = Helm.Chart.new_source S sort_slice (some (config_map_provider S))

  -- If the spec has a Helm, a config map, a GitLab or a GitHub source, then every update that the
  -- chain reports for the object, whichever of its sources answers, has a version that satisfies
  -- the constraint and is greater than the applied revision, if there is one.
  pub helm_provider-IsForward : IsForward S HasVersions helm_provider
  helm_provider-IsForward =
      Helm-IsForward S sort_slice _ (some (config_map_provider S)) (config_map_provider-IsForward S)
