-- ===== src/Memory/Shows.antt =====
-- When what lies in memory is a value of the resource's model: the structs of
-- api/v1alpha1/bootstrap_types.go with their pointers followed.
use crd_bootstrap.Base.{ℕ, String, Option, none, some, List, [], ◌∷◌}
use crd_bootstrap.Base.Dict.{Dict}
use crd_bootstrap.Api
use crd_bootstrap.Memory.{
  Ptr, Github, Gitlab, Helm, Url, Source, KubeConfig, BootstrapSpec, BootstrapStatus, Bootstrap,
  BootstrapList, Cell,
}

-- Which cells may be used, at which addresses.
abbrev pub Store : Type 1
Store = ℕ → Cell → Type 0

-- nil is no value; else the pointer leads to a cell of the store that shows the value.
pub data Points {A : Type 0} (R : Store → Cell → A → Type 0) (S : Store)
    : Ptr → Option A → Type 0 where
  nowhere : Points R S none none
  there : {a : ℕ} {c : Cell} {x : A} → S a c → R S c x → Points R S (some a) (some x)

-- A cell whose content is the value itself.
pub data Plain {A : Type 0} (f : A → Cell) (S : Store) : Cell → A → Type 0 where
  plain : (x : A) → Plain f S (f x) x

abbrev pub Refers : Store → Ptr → Option Api.LocalObjectReference → Type 0
Refers = Points (Plain Cell.reference)

pub data ShowsGithub (S : Store) : Cell → Api.Github → Type 0 where
  github :
      (g : Github) {secret : Option Api.LocalObjectReference}
      → Refers S g.secret_ref secret
      → ShowsGithub S (Cell.github g) (record {
        base_url = g.base_url;
        base_api_url = g.base_api_url;
        owner = g.owner;
        repo = g.repo;
        secret_ref = secret;
        manifest = g.manifest;
      })

pub data ShowsGitlab (S : Store) : Cell → Api.Gitlab → Type 0 where
  gitlab :
      (g : Gitlab) {secret : Option Api.LocalObjectReference}
      → Refers S g.secret_ref secret
      → ShowsGitlab S (Cell.gitlab g) (record {
        base_api_url = g.base_api_url;
        owner = g.owner;
        repo = g.repo;
        secret_ref = secret;
        manifest = g.manifest;
      })

pub data ShowsHelm (S : Store) : Cell → Api.Helm → Type 0 where
  helm :
      (h : Helm) {secret : Option Api.LocalObjectReference}
      → Refers S h.secret_ref secret
      → ShowsHelm S (Cell.helm h) (record {
        chart_reference = h.chart_reference;
        chart_name = h.chart_name;
        secret_ref = secret;
      })

pub data ShowsUrl (S : Store) : Cell → Api.Url → Type 0 where
  url :
      (u : Url) {secret : Option Api.LocalObjectReference}
      → Refers S u.secret_ref secret
      → ShowsUrl S (Cell.url u) (record { url = u.url; secret_ref = secret })

pub data ShowsSource (S : Store) : Cell → Api.Source → Type 0 where
  source :
      (s : Source) {g : Option Api.Github} {l : Option Api.Gitlab} {h : Option Api.Helm}
      {m : Option Api.ConfigMap} {u : Option Api.Url}
      → Points ShowsGithub S s.github g
      → Points ShowsGitlab S s.gitlab l
      → Points ShowsHelm S s.helm h
      → Points (Plain Cell.config_map) S s.config_map m
      → Points ShowsUrl S s.url u
      → ShowsSource S
          (Cell.source s)
          (record { github = g; gitlab = l; helm = h; config_map = m; url = u })

pub data ShowsKubeConfig (S : Store) : Cell → Api.KubeConfig → Type 0 where
  kube_config :
      (k : KubeConfig) {secret : Option String}
      → Points (Plain Cell.kube_reference) S k.secret_ref secret
      → ShowsKubeConfig S (Cell.kube_config k) (record {
        service_account = k.service_account;
        secret_ref = secret;
        namespace = k.namespace;
      })

-- The entries of a map of pointers.
pub data ShowsEach (S : Store) : Dict Ptr → Dict (Option String) → Type 0 where
  done : ShowsEach S [] []
  entry :
      (key : String) {p : Ptr} {v : Option String} {ps : Dict Ptr} {vs : Dict (Option String)}
      → Points (Plain Cell.json) S p v
      → ShowsEach S ps vs
      → ShowsEach S ((key, p) ∷ ps) ((key, v) ∷ vs)

pub data ShowsEntries (S : Store) : Cell → Dict (Option String) → Type 0 where
  entries :
      {ps : Dict Ptr} {vs : Dict (Option String)}
      → ShowsEach S ps vs
      → ShowsEntries S (Cell.entries ps) vs

pub data ShowsSpec (S : Store) : BootstrapSpec → Api.BootstrapSpec → Type 0 where
  spec :
      (s : BootstrapSpec) {o : Option Api.Source} {t : Option (Dict (Option String))}
      {k : Option Api.KubeConfig}
      → Points ShowsSource S s.source o
      → Points ShowsEntries S s.template t
      → Points ShowsKubeConfig S s.kube_config k
      → ShowsSpec S s (record {
        interval = s.interval;
        source = o;
        version = s.version;
        template = t;
        continue_on_validation_error = s.continue_on_validation_error;
        prune = s.prune;
        ignore_breaking_changes = s.ignore_breaking_changes;
        kube_config = k;
      })

-- A nil slice is read as an empty one.
abbrev pub or_empty {ℓ} : {A : Type ℓ} → Option (List A) → List A
or_empty none = []
or_empty (some xs) = xs

pub data ShowsStatus (S : Store) : BootstrapStatus → Api.BootstrapStatus → Type 0 where
  status :
      (s : BootstrapStatus) {c : Option (List Api.Condition)} {n : Option (Dict ℕ)}
      {b : Option (List String)}
      → Points (Plain Cell.conditions) S s.conditions c
      → Points (Plain Cell.counts) S s.last_applied_crd_names n
      → Points (Plain Cell.names) S s.breaking_changes b
      → ShowsStatus S s (record {
        observed_generation = s.observed_generation;
        conditions = or_empty c;
        last_applied_crd_names = n;
        last_attempted_revision = s.last_attempted_revision;
        last_applied_revision = s.last_applied_revision;
        breaking_changes = or_empty b;
      })

pub data ShowsBootstrap (S : Store) : Bootstrap → Api.Bootstrap → Type 0 where
  bootstrap :
      (b : Bootstrap) {x : Api.BootstrapSpec} {y : Api.BootstrapStatus}
      → ShowsSpec S b.spec x
      → ShowsStatus S b.status y
      → ShowsBootstrap S b (record {
        name = b.metadata.name;
        namespace = b.metadata.namespace;
        generation = b.metadata.generation;
        finalizers = b.metadata.finalizers;
        deletion_timestamp = b.metadata.deletion_timestamp;
        spec = x;
        status = y;
      })

pub data ShowsObject (S : Store) : Cell → Api.Bootstrap → Type 0 where
  object :
      {b : Bootstrap} {v : Api.Bootstrap}
      → ShowsBootstrap S b v
      → ShowsObject S (Cell.bootstrap b) v

pub data ShowsItems (S : Store) : List Bootstrap → List Api.Bootstrap → Type 0 where
  none_left : ShowsItems S [] []
  item :
      {b : Bootstrap} {v : Api.Bootstrap} {bs : List Bootstrap} {vs : List Api.Bootstrap}
      → ShowsBootstrap S b v
      → ShowsItems S bs vs
      → ShowsItems S (b ∷ bs) (v ∷ vs)

pub data ShowsSlice (S : Store) : Cell → List Api.Bootstrap → Type 0 where
  slice :
      {bs : List Bootstrap} {vs : List Api.Bootstrap}
      → ShowsItems S bs vs
      → ShowsSlice S (Cell.bootstraps bs) vs

pub data ShowsList (S : Store) : Cell → List Api.Bootstrap → Type 0 where
  bootstrap_list :
      (l : BootstrapList) {vs : Option (List Api.Bootstrap)}
      → Points ShowsSlice S l.items vs
      → ShowsList S (Cell.bootstrap_list l) (or_empty vs)
