-- ===== src/Sources/Helm/Chart/Unexpanded.antt =====
-- Charts of repositories over HTTP, which are not expanded.
use mathlib.Core.Path.{subst}
use Prim.Native.String.{compare}
use Prim.Native.Nat.{Ordering}
use crd_bootstrap.Base.{
  suc, String, ◌≡◌, refl, sym, ap, ◌∙◌, Bool, true, false, Option, none, some, List, [], ◌∷◌, ok,
  pure, ◌>>=◌, if◌then◌else◌, ◌==◌, length, arith, Bool-cases, inl, inr,
}
use crd_bootstrap.Base.FilePath.{FilePath, base_name, join_path, same_path, under, dir, file}
use crd_bootstrap.Api
use crd_bootstrap.Platform.{Platform, OsCall, write, ChartDownloader}
use crd_bootstrap.Platform.World.{
  World, Files, find_node, erase_node, put_node, put_nodes, outside, edit_files,
}
use crd_bootstrap.Platform.Files.{same_path_sound, same_path_refl, find-put}
use crd_bootstrap.Platform.Walk.{child_name, names_in, insert_name}
use crd_bootstrap.Platform.Walk.Trees.{leaf, branch, end, kid, HasTree, texts}
use crd_bootstrap.Platform.Walk.Put.{find-put_ne}
use crd_bootstrap.Platform.Walk.Runs.{answer}
use crd_bootstrap.Sources.Helm.Chart.{download_chart, expand_oci, bundle_chart}
use crd_bootstrap.Sources.Helm.Bundle.Steps.{bundle}
use crd_bootstrap.Sources.Helm.Chart.Fetch.{IsFile, bundle_chart-IsFile}

same_path-child : (p : FilePath) (a : String) → same_path p (a ∷ p) ≡ false
same_path-child p a = elim (Bool-cases (same_path p (a ∷ p))) [
  | inl same ↦
      let e : length p ≡ suc (length p) = ap length (same_path_sound p (a ∷ p) same) in
      absurd (omega arith)
  | inr other ↦ other
]

insert_name-cons : (name : String) (names : List String) → insert_name name names ≡ [] → ⊥
unfolding insert_name
insert_name-cons name [] e = cc
insert_name-cons name (other ∷ names) e = placed (compare name other) e
  where
    placed :
        (o : Ordering)
        → (elim o as (λ _. List String) [
          | Ordering.gt ↦ other ∷ insert_name name names
          | _ ↦ name ∷ other ∷ names
        ])
          ≡ []
        → ⊥
    placed Ordering.gt h = cc
    placed Ordering.lt h = cc
    placed Ordering.eq h = cc

names_in-erase_nil :
    (d q : FilePath) (fs : Files) → names_in d fs ≡ [] → names_in d (erase_node q fs) ≡ []
unfolding names_in erase_node
names_in-erase_nil d q [] e = refl
names_in-erase_nil d q ((r, n) ∷ fs) e =
    step (child_name d r) e (names_in-erase_nil d q fs) (same_path q r) refl
  where
    step :
        (o : Option String)
        → (elim o [ none ↦ names_in d fs | some name ↦ insert_name name (names_in d fs) ]) ≡ []
        → (names_in d fs ≡ [] → names_in d (erase_node q fs) ≡ [])
        → (b : Bool) → child_name d r ≡ o
        → names_in d (if b then erase_node q fs else (r, n) ∷ erase_node q fs) ≡ []
    step none h ih true c = ih h
    step none h ih false c =
        ap
          (λ x. elim x [
            | none ↦ names_in d (erase_node q fs)
            | some name ↦ insert_name name (names_in d (erase_node q fs))
          ])
          c
        ∙ ih h
    step (some name) h ih b c = absurd (insert_name-cons name _ h)

child_name-child : (p : FilePath) (name : String) → child_name p (name ∷ p) ≡ some name
unfolding child_name
child_name-child p name = rw (same_path_refl p) refl

-- An empty directory with one file put into it.
HasTree-one :
    (p : FilePath) (name s : String) (fs : Files)
    → find_node p fs ≡ some dir
    → names_in p fs ≡ []
    → HasTree (put_node (name ∷ p) (file s) fs) p (branch (kid name (leaf s) end))
unfolding HasTree names_in put_node insert_name
HasTree-one p name s fs found empty = (
  find-put_ne p (name ∷ p) (file s) fs (same_path-child p name) ∙ found,
  ap
        (λ o. elim o [
          | none ↦ names_in p (erase_node (name ∷ p) fs)
          | some a ↦ insert_name a (names_in p (erase_node (name ∷ p) fs))
        ])
        (child_name-child p name)
      ∙ ap (insert_name name) (names_in-erase_nil p (name ∷ p) fs empty),
  (find-put (name ∷ p) (file s) fs, tt),
)

pub answer-none : (c : OsCall) → answer none c ≡ ok tt
answer-none (write p) = refl
answer-none c = refl

bundle-archive :
    (place name archive : String)
    → (place == "crds") ≡ false
    → bundle place (branch (kid name (leaf archive) end)) ≡ ""
unfolding texts
bundle-archive place name archive other = rw other refl

module _ {P : Platform} where
  -- The world after the download.
  abbrev left : FilePath → String → World P → P.Outside → World P
  left path archive w s = record w { outside = s; files = put_node path (file archive) w.files }

  downloaded :
      (reference : String) (download : ChartDownloader P.RegistryClient) (temp_helm path : FilePath)
      (revision archive : String) (w : World P) (s : P.Outside)
      → P.download_to download reference revision temp_helm w.outside
        ≡ (ok (path, (path, file archive) ∷ []), s)
      → download_chart download reference revision temp_helm w ≡ (ok path, left path archive w s)
  unfolding download_chart outside put_nodes edit_files ◌>>=◌ pure
  downloaded reference download temp_helm path revision archive w s got = rw got refl

  not_expanded :
      (h : Api.Helm) (place archive : FilePath) (w : World P)
      → P.is_oci h.chart_reference ≡ false
      → expand_oci h place archive w ≡ (ok tt, w)
  unfolding expand_oci pure
  not_expanded h place archive w plain = rw plain refl

  -- If the reference of a chart is not that of an OCI registry, its folder is empty, the download
  -- leaves one file there, and no call of the system fails, then the Helm source returns the path of
  -- a bundle that is empty, whatever the chart holds: the file is not expanded. The folder is not
  -- called `crds`, and the bundle is not at or below it.
  pub bundle_chart-unexpanded :
      ((c : OsCall) (s : P.Outside) → (P.os_call c s).0 ≡ ok tt)
      → (h : Api.Helm) (download : ChartDownloader P.RegistryClient) (base temp_helm : FilePath)
        (revision name archive : String) (w : World P) (s : P.Outside)
      → under temp_helm (join_path base "crds.yaml") ≡ false
      → (base_name temp_helm == "crds") ≡ false
      → P.is_oci h.chart_reference ≡ false
      → find_node temp_helm w.files ≡ some dir
      → names_in temp_helm w.files ≡ []
      → P.download_to download h.chart_reference revision temp_helm w.outside
        ≡ (ok (name ∷ temp_helm, (name ∷ temp_helm, file archive) ∷ []), s)
      → IsFile (join_path base "crds.yaml") "" (bundle_chart h download base revision temp_helm w)
  bundle_chart-unexpanded calm h download base temp_helm revision name archive w s u other plain
        found empty got =
      subst
        (λ text.
          IsFile (join_path base "crds.yaml") text
            (bundle_chart h download base revision temp_helm w))
        (bundle-archive (base_name temp_helm) name archive other)
        (bundle_chart-IsFile none (λ c o. calm c o ∙ sym (answer-none c)) h download base temp_helm
          (name ∷ temp_helm) revision (branch (kid name (leaf archive) end)) w after after u
          (downloaded h.chart_reference download temp_helm (name ∷ temp_helm) revision archive w s
            got)
          (not_expanded h temp_helm (name ∷ temp_helm) after plain)
          (HasTree-one temp_helm name archive w.files found empty))
    where
      after : World P
      after = left (name ∷ temp_helm) archive w s
