-- ===== src/Memory/Carry.antt =====
-- A value that some cells show is shown by every store that has these cells.
use crd_bootstrap.Base.{ℕ, Option, List, String}
use crd_bootstrap.Base.Dict.{Dict}
use crd_bootstrap.Api
use crd_bootstrap.Memory.{Ptr, Bootstrap, BootstrapSpec, BootstrapStatus, Cell}
use crd_bootstrap.Memory.Shows.{
  Store, Points, Plain, ShowsGithub, ShowsGitlab, ShowsHelm, ShowsUrl, ShowsSource, ShowsKubeConfig,
  ShowsEach, ShowsEntries, ShowsSpec, ShowsStatus, ShowsBootstrap, ShowsObject, ShowsItems,
  ShowsSlice, ShowsList, nowhere, there, plain, github, gitlab, helm, url, source, kube_config,
  done, entry, entries, spec, status, bootstrap, object, none_left, item, slice, bootstrap_list,
}

-- Whatever the one has is in the other.
abbrev pub IsWithin : Store → Store → Type 0
IsWithin S T = (a : ℕ) (c : Cell) → S a c → T a c

-- What a relation to a value owes.
abbrev pub IsCarried : {A : Type 0} → (Store → Cell → A → Type 0) → Type 1
IsCarried {A} R = (S T : Store) → IsWithin S T → (c : Cell) (x : A) → R S c x → R T c x

module _ {A : Type 0} where
  pub Plain-IsCarried : (f : A → Cell) → IsCarried (Plain f)
  Plain-IsCarried f _ _ w _ _ (plain x) = plain x

  pub carry-Points :
      {R : Store → Cell → A → Type 0} {S T : Store}
      → IsCarried R
      → IsWithin S T
      → {p : Ptr} {v : Option A} → Points R S p v
      → Points R T p v
  carry-Points k w nowhere = nowhere
  carry-Points k w (there h r) = there (w _ _ h) (k _ _ w _ _ r)

pub github-IsCarried : IsCarried ShowsGithub
github-IsCarried _ _ w _ _ (github x p) = github x (carry-Points (Plain-IsCarried _) w p)

pub gitlab-IsCarried : IsCarried ShowsGitlab
gitlab-IsCarried _ _ w _ _ (gitlab x p) = gitlab x (carry-Points (Plain-IsCarried _) w p)

pub helm-IsCarried : IsCarried ShowsHelm
helm-IsCarried _ _ w _ _ (helm x p) = helm x (carry-Points (Plain-IsCarried _) w p)

pub url-IsCarried : IsCarried ShowsUrl
url-IsCarried _ _ w _ _ (url x p) = url x (carry-Points (Plain-IsCarried _) w p)

pub source-IsCarried : IsCarried ShowsSource
source-IsCarried _ _ w _ _ (source x g l h m u) =
    source x (carry-Points github-IsCarried w g) (carry-Points gitlab-IsCarried w l)
      (carry-Points helm-IsCarried w h) (carry-Points (Plain-IsCarried _) w m)
      (carry-Points url-IsCarried w u)

pub kube_config-IsCarried : IsCarried ShowsKubeConfig
kube_config-IsCarried _ _ w _ _ (kube_config x p) =
    kube_config x (carry-Points (Plain-IsCarried _) w p)

module _ {S T : Store} (w : IsWithin S T) where
  pub carry_each :
      {ps : Dict Ptr} {vs : Dict (Option String)} → ShowsEach S ps vs → ShowsEach T ps vs
  carry_each done = done
  carry_each (entry key p e) = entry key (carry-Points (Plain-IsCarried _) w p) (carry_each e)

pub entries-IsCarried : IsCarried ShowsEntries
entries-IsCarried _ _ w _ _ (entries e) = entries (carry_each w e)

module _ {S T : Store} (w : IsWithin S T) where
  pub carry_spec : {x : BootstrapSpec} {v : Api.BootstrapSpec} → ShowsSpec S x v → ShowsSpec T x v
  carry_spec (spec x o t k) =
      spec x (carry-Points source-IsCarried w o) (carry-Points entries-IsCarried w t)
        (carry-Points kube_config-IsCarried w k)

  pub carry_status :
      {x : BootstrapStatus} {v : Api.BootstrapStatus} → ShowsStatus S x v → ShowsStatus T x v
  carry_status (status x c n b) =
      status x (carry-Points (Plain-IsCarried _) w c) (carry-Points (Plain-IsCarried _) w n)
        (carry-Points (Plain-IsCarried _) w b)

  pub carry_bootstrap :
      {x : Bootstrap} {v : Api.Bootstrap} → ShowsBootstrap S x v → ShowsBootstrap T x v
  carry_bootstrap (bootstrap x s t) = bootstrap x (carry_spec s) (carry_status t)

  pub carry_items :
      {bs : List Bootstrap} {vs : List Api.Bootstrap} → ShowsItems S bs vs → ShowsItems T bs vs
  carry_items none_left = none_left
  carry_items (item b r) = item (carry_bootstrap b) (carry_items r)

pub object-IsCarried : IsCarried ShowsObject
object-IsCarried _ _ w _ _ (object b) = object (carry_bootstrap w b)

pub slice-IsCarried : IsCarried ShowsSlice
slice-IsCarried _ _ w _ _ (slice r) = slice (carry_items w r)

pub list-IsCarried : IsCarried ShowsList
list-IsCarried _ _ w _ _ (bootstrap_list l p) = bootstrap_list l (carry-Points slice-IsCarried w p)
