-- ===== src/Sources/Forward.antt =====
-- Sources whose updates are newer versions: the interface that the controller's history uses, and
-- that the sources with semantic versions fill.
use mathlib.Core.Path.{subst}
use crd_bootstrap.Base.{
  String, List, ◌≡◌, refl, sym, ap, ◌∙◌, ok, ◌≢◌, Bool, true, Option, none, some, ◌⊎◌, inl, inr, M,
  from, from_deref,
}
use crd_bootstrap.Base.Keeps.{Yields, Yields-bind, Yields-from, Yields-fail}
use crd_bootstrap.Api
use crd_bootstrap.Api.{Bootstrap}
use crd_bootstrap.Platform.{Semver, Platform}
use crd_bootstrap.Platform.World.{World}
use crd_bootstrap.Sources.{Contract, has_update_next}
use crd_bootstrap.Sources.Decide.{decide_update}
use crd_bootstrap.Sources.Decide.Forward.{IsNewer, decide_update-IsNewer}
use crd_bootstrap.Sources.ConfigMap
use crd_bootstrap.Sources.Github
use crd_bootstrap.Sources.Gitlab
use crd_bootstrap.Sources.Helm

module _ (S : Semver) {P : Platform} where
  -- An update that is reported is newer than what is applied.
  abbrev pub YieldsNewer : Bootstrap → M (World P) (Bool × String) → Type 0
  YieldsNewer obj m = Yields (λ a. a.0 ≡ true → IsNewer S obj a.1) m

  -- So for every object whose source part satisfies `V`.
  pub record IsForward (V : Api.Source → Type 0) (c : Contract P) : Type 0 where
    pub newer :
        (source : Api.Source) (obj : Bootstrap)
        → obj.spec.source ≡ some source
        → V source
        → YieldsNewer obj (c.has_update obj)

  abbrev pub IsForwardNext : (Api.Source → Type 0) → Option (Contract P) → Type 0
  IsForwardNext V none = Unit
  IsForwardNext V (some c) = IsForward V c

  decide-newer :
      (s t : String) (obj : Bootstrap) (latest : String)
      → YieldsNewer obj (from (decide_update S s t obj latest))
  decide-newer s t obj latest = Yields-from _ λ a e update.
      let (same, n) =
        decide_update-IsNewer S s t obj latest a.1 (e ∙ ap (λ b. ok (b, a.1)) update) in
      subst (IsNewer S obj) same n

  next-newer :
      (V : Api.Source → Type 0) (next : Option (Contract P))
      → IsForwardNext V next
      → (text : String) (source : Api.Source) (obj : Bootstrap) → obj.spec.source ≡ some source
      → V source
      → YieldsNewer obj (has_update_next text next obj)
  unfolding has_update_next
  next-newer V none f text source obj e v = Yields-fail _
  next-newer V (some c) f text source obj e v = f.newer source obj e v

  config_map-selected :
      (V : Api.Source → Type 0) (next : Option (Contract P))
      → IsForwardNext V next
      → (source : Api.Source) (obj : Bootstrap) → obj.spec.source ≡ some source
      → (c : Option Api.ConfigMap) → (c ≢ none) ⊎ V source
      → YieldsNewer obj (ConfigMap.has_update_selected S next c obj)
  unfolding ConfigMap.has_update_selected
  config_map-selected V next f source obj e none (inl h) = absurd (h refl)
  config_map-selected V next f source obj e none (inr v) = next-newer V next f _ source obj e v
  config_map-selected V next f source obj e (some c) v =
      Yields-bind _ λ contents. Yields-bind _ λ latest. decide-newer _ _ obj latest

  pub ConfigMap-IsForward :
      (V : Api.Source → Type 0) (next : Option (Contract P))
      → IsForwardNext V next
      → IsForward (λ source. (source.config_map ≢ none) ⊎ V source) (ConfigMap.new_source S next)
  unfolding ConfigMap.has_update
  ConfigMap-IsForward V next f = record {
    newer = λ source obj e v.
        subst (YieldsNewer obj) (sym (from_deref _ source _ e))
          (config_map-selected V next f source obj e source.config_map v);
  }

  github-selected :
      (V : Api.Source → Type 0) (next : Option (Contract P))
      → IsForwardNext V next
      → (source : Api.Source) (obj : Bootstrap) → obj.spec.source ≡ some source
      → (c : Option Api.Github) → (c ≢ none) ⊎ V source
      → YieldsNewer obj (Github.has_update_selected S next c obj)
  unfolding Github.has_update_selected
  github-selected V next f source obj e none (inl h) = absurd (h refl)
  github-selected V next f source obj e none (inr v) = next-newer V next f _ source obj e v
  github-selected V next f source obj e (some c) v =
      Yields-bind _ λ latest. decide-newer _ _ obj latest

  pub Github-IsForward :
      (V : Api.Source → Type 0) (next : Option (Contract P))
      → IsForwardNext V next
      → IsForward (λ source. (source.github ≢ none) ⊎ V source) (Github.new_source S next)
  unfolding Github.has_update
  Github-IsForward V next f = record {
    newer = λ source obj e v.
        subst (YieldsNewer obj) (sym (from_deref _ source _ e))
          (github-selected V next f source obj e source.github v);
  }

  gitlab-selected :
      (V : Api.Source → Type 0) (next : Option (Contract P))
      → IsForwardNext V next
      → (source : Api.Source) (obj : Bootstrap) → obj.spec.source ≡ some source
      → (c : Option Api.Gitlab) → (c ≢ none) ⊎ V source
      → YieldsNewer obj (Gitlab.has_update_selected S next c obj)
  unfolding Gitlab.has_update_selected
  gitlab-selected V next f source obj e none (inl h) = absurd (h refl)
  gitlab-selected V next f source obj e none (inr v) = next-newer V next f _ source obj e v
  gitlab-selected V next f source obj e (some c) v =
      Yields-bind _ λ latest. decide-newer _ _ obj latest

  pub Gitlab-IsForward :
      (V : Api.Source → Type 0) (next : Option (Contract P))
      → IsForwardNext V next
      → IsForward (λ source. (source.gitlab ≢ none) ⊎ V source) (Gitlab.new_source S next)
  unfolding Gitlab.has_update
  Gitlab-IsForward V next f = record {
    newer = λ source obj e v.
        subst (YieldsNewer obj) (sym (from_deref _ source _ e))
          (gitlab-selected V next f source obj e source.gitlab v);
  }

module _ (S : Semver)
    (sort_slice : (S.Version → S.Version → Bool) → List S.Version → List S.Version)
    {P : Platform} where
  helm-selected :
      (V : Api.Source → Type 0) (next : Option (Contract P))
      → IsForwardNext S V next
      → (source : Api.Source) (obj : Bootstrap) → obj.spec.source ≡ some source
      → (c : Option Api.Helm) → (c ≢ none) ⊎ V source
      → YieldsNewer S obj (Helm.has_update_selected S sort_slice next c obj)
  unfolding Helm.has_update_selected
  helm-selected V next f source obj e none (inl h) = absurd (h refl)
  helm-selected V next f source obj e none (inr v) = next-newer S V next f _ source obj e v
  helm-selected V next f source obj e (some c) v =
      Yields-bind _ λ versions.
        Yields-bind _ λ constrains. Yields-bind _ λ latest. decide-newer S _ _ obj latest

  pub Helm-IsForward :
      (V : Api.Source → Type 0) (next : Option (Contract P))
      → IsForwardNext S V next
      → IsForward S
          (λ source. (source.helm ≢ none) ⊎ V source)
          (Helm.Chart.new_source S sort_slice next)
  unfolding Helm.has_update
  Helm-IsForward V next f = record {
    newer = λ source obj e v.
        subst (YieldsNewer S obj) (sym (from_deref _ source _ e))
          (helm-selected V next f source obj e source.helm v);
  }
