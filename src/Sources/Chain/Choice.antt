-- ===== src/Sources/Chain/Choice.antt =====
-- Which source of the chain answers for an object.
use mathlib.Core.Path.{subst}
use crd_bootstrap.Base.{List, Bool, ◌≡◌, refl, sym, ap, ◌∙◌, Option, none, some, from_deref}
use crd_bootstrap.Api
use crd_bootstrap.Api.{Bootstrap}
use crd_bootstrap.Platform.{Semver, Platform}
use crd_bootstrap.Sources.{Contract, fetch_next, has_update_next}
use crd_bootstrap.Sources.ConfigMap
use crd_bootstrap.Sources.Github
use crd_bootstrap.Sources.Gitlab
use crd_bootstrap.Sources.Helm
use crd_bootstrap.Sources.Url
use crd_bootstrap.Sources.Chain.{
  url_provider, github_provider, gitlab_provider, config_map_provider, helm_provider,
}
use crd_bootstrap.Sources.Chain.Links.{Agree, Agree-trans, refusing, Selects, Selects-of}

-- The sources that a spec can have.
pub data Kind : Type 0 where
  helm_kind : Kind
  config_map_kind : Kind
  gitlab_kind : Kind
  github_kind : Kind
  url_kind : Kind

abbrev given : {A : Type 0} → Option A → Kind → Option Kind → Option Kind
given (some _) kind rest = some kind
given none kind rest = rest

-- The first that is given, in the order of the chain.
abbrev pub first_given : Api.Source → Option Kind
first_given source = given source.helm helm_kind (
    given source.config_map config_map_kind (
      given source.gitlab gitlab_kind
        (given source.github github_kind (given source.url url_kind none))))

module _ (S : Semver)
    (sort_slice : (S.Version → S.Version → Bool) → List S.Version → List S.Version)
    {P : Platform} where
  -- Each source by itself, and what is left where no source is given.
  abbrev pub alone : Option Kind → Contract P
  alone (some helm_kind) = Helm.Chart.new_source S sort_slice none
  alone (some config_map_kind) = ConfigMap.new_source S none
  alone (some gitlab_kind) = Gitlab.new_source S none
  alone (some github_kind) = Github.new_source S none
  alone (some url_kind) = Url.new_source none
  alone none =
      refusing "github isn't defined and there are no other sources configured"
        "url isn't defined and there are no other sources configured"

  Helm-Selects : Selects {P = P} (λ source. source.helm) (Helm.Chart.new_source S sort_slice)
  unfolding Helm.has_update Helm.has_update_selected Helm.Chart.fetch_crd Helm.Chart.fetch_selected
      fetch_next has_update_next
  Helm-Selects =
      Selects-of _ _ (Helm.has_update_selected S sort_slice) (Helm.Chart.fetch_selected)
        (λ next obj. refl) (λ next base obj revision. refl) (λ n obj. refl)
        (λ n base obj revision. refl) (λ n a obj. refl) (λ n a base obj revision. refl)

  ConfigMap-Selects : Selects {P = P} (λ source. source.config_map) (ConfigMap.new_source S)
  unfolding ConfigMap.has_update ConfigMap.has_update_selected ConfigMap.fetch_crd
      ConfigMap.fetch_selected fetch_next has_update_next
  ConfigMap-Selects =
      Selects-of _ _ (ConfigMap.has_update_selected S) (ConfigMap.fetch_selected S)
        (λ next obj. refl) (λ next base obj revision. refl) (λ n obj. refl)
        (λ n base obj revision. refl) (λ n a obj. refl) (λ n a base obj revision. refl)

  Gitlab-Selects : Selects {P = P} (λ source. source.gitlab) (Gitlab.new_source S)
  unfolding Gitlab.has_update Gitlab.has_update_selected Gitlab.fetch_crd Gitlab.fetch_selected
      fetch_next has_update_next
  Gitlab-Selects =
      Selects-of _ _ (Gitlab.has_update_selected S) (Gitlab.fetch_selected S) (λ next obj. refl)
        (λ next base obj revision. refl) (λ n obj. refl) (λ n base obj revision. refl)
        (λ n a obj. refl) (λ n a base obj revision. refl)

  Github-Selects : Selects {P = P} (λ source. source.github) (Github.new_source S)
  unfolding Github.has_update Github.has_update_selected Github.fetch_crd Github.fetch_selected
      fetch_next has_update_next
  Github-Selects =
      Selects-of _ _ (Github.has_update_selected S) (Github.fetch_selected S) (λ next obj. refl)
        (λ next base obj revision. refl) (λ n obj. refl) (λ n base obj revision. refl)
        (λ n a obj. refl) (λ n a base obj revision. refl)

  Selects-alone :
      {A : Type 0} {part : Api.Source → Option A} {make : Option (Contract P) → Contract P}
      → Selects part make
      → (source : Api.Source) (obj : Bootstrap) (n : Contract P) (kind : Kind) (rest : Option Kind)
      → obj.spec.source ≡ some source
      → alone (some kind) ≡ make none
      → Agree obj n (alone rest)
      → (o : Option A) → part source ≡ o
      → Agree obj (make (some n)) (alone (given o kind rest))
  Selects-alone s source obj n kind rest e by_itself r none h =
      Agree-trans (s.passes n source obj e h) r
  Selects-alone s source obj n kind rest e by_itself r (some a) h =
      subst (Agree obj _) (sym by_itself) (s.stands n source obj a e h)

  Url-alone :
      (source : Api.Source) (obj : Bootstrap)
      → obj.spec.source ≡ some source
      → (o : Option Api.Url) → source.url ≡ o
      → Agree obj (Url.new_source none) (alone (given o url_kind none))
  unfolding Url.has_update Url.has_update_selected Url.fetch_crd Url.fetch_selected fetch_next
      has_update_next
  Url-alone source obj e (some u) h = record { updates = refl; fetches = λ base revision. refl }
  Url-alone source obj e none h = record {
    updates = from_deref _ source _ e ∙ ap (λ o. Url.has_update_selected none o obj) h;
    fetches = λ base revision.
        from_deref _ source _ e ∙ ap (λ o. Url.fetch_selected none o base obj revision) h;
  }

  -- If the spec has a source, then the chain of the program, asked for an update or for the CRDs,
  -- does what the first source given by the spec does by itself, in the order Helm, config map,
  -- GitLab, GitHub, URL: the outcome and every effect are the same. If none is given, it fails and
  -- has no effect.
  pub helm_provider-Agree :
      (source : Api.Source) (obj : Bootstrap)
      → obj.spec.source ≡ some source
      → Agree obj (helm_provider S sort_slice) (alone (first_given source))
  helm_provider-Agree source obj e =
      Selects-alone Helm-Selects source obj (config_map_provider S) helm_kind _ e refl
        (Selects-alone ConfigMap-Selects source obj (gitlab_provider S) config_map_kind _ e refl
          (Selects-alone Gitlab-Selects source obj (github_provider S) gitlab_kind _ e refl
            (Selects-alone Github-Selects source obj (url_provider S) github_kind _ e refl
              (Url-alone source obj e source.url refl) source.github refl)
            source.gitlab refl)
          source.config_map refl)
        source.helm refl
