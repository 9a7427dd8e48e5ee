-- ===== src/Sources/Helm/Chart/Fetch.antt =====
-- What `FetchCRD` of the Helm source leaves in the files.
use crd_bootstrap.Base.{
  String, ◌≡◌, refl, sym, ap, ◌∙◌, false, Option, none, some, [], Outcome, Error, ok, err, panic,
  pure, deferring, ◌>>=◌, resume, wrap, map_err, bind-eq-ok, ok-injective,
}
use crd_bootstrap.Base.Keeps.{join_outcome-eq-ok}
use crd_bootstrap.Base.FilePath.{FilePath, base_name, join_path, under, file}
use crd_bootstrap.Api
use crd_bootstrap.Api.{Bootstrap}
use crd_bootstrap.Platform.{Platform, OsCall, ChartDownloader, remove_all}
use crd_bootstrap.Platform.World.{World, find_node, erase_tree}
use crd_bootstrap.Platform.Keeps.{remove_tree_lem}
use crd_bootstrap.Platform.Files.{erase_tree_idem}
use crd_bootstrap.Platform.Walk.Trees.{Tree, HasTree}
use crd_bootstrap.Platform.Walk.Runs.{answer}
use crd_bootstrap.Sources.{Contract}
use crd_bootstrap.Sources.Helm.Bundle.{create_crd_yaml}
use crd_bootstrap.Sources.Helm.Bundle.Steps.{bundle}
use crd_bootstrap.Sources.Helm.Bundle.Total.{IsBundled, create_crd_yaml-IsBundled}
use crd_bootstrap.Sources.Helm.Chart.{download_chart, expand_oci, bundle_chart, fetch_selected}

module _ {P : Platform} where
  -- A path was returned, and the file there holds the text.
  pub record IsFile (path : FilePath) (text : String) (p : Outcome FilePath × World P)
      : Type 0 where
    pub returned : p.0 ≡ ok path
    pub written : find_node path p.1.files ≡ some (file text)

  returned_lem :
      (base : FilePath) (text : String) (p : Outcome (Unit {0}) × World P)
      → IsBundled base text p
      → IsFile (join_path base "crds.yaml") text (
          resume
            (λ _. pure (join_path base "crds.yaml"))
            (map_err (wrap "failed to create crd yaml" []) p.0, p.1))
  unfolding pure
  returned_lem base text (ok u, w) b = record { returned = refl; written = b.written }
  returned_lem base text (err e, w) b = let h = b.returned in cc
  returned_lem base text (panic, w) b = let h = b.returned in cc

  -- If a chart is downloaded into its folder and, where that applies, expanded, and no call of the
  -- system fails, except perhaps every write, then the Helm source returns the path of the bundle,
  -- and the bundle holds the files below each directory called `crds` of the folder, or nothing if
  -- the writes fail.
  pub bundle_chart-IsFile :
      (failure : Option Error)
      → ((c : OsCall) (s : P.Outside) → (P.os_call c s).0 ≡ answer failure c)
      → (h : Api.Helm) (download : ChartDownloader P.RegistryClient)
        (base temp_helm output_path : FilePath) (revision : String) (t : Tree) (w v x : World P)
      → under temp_helm (join_path base "crds.yaml") ≡ false
      → download_chart download h.chart_reference revision temp_helm w ≡ (ok output_path, v)
      → expand_oci h temp_helm output_path v ≡ (ok tt, x)
      → HasTree x.files temp_helm t
      → IsFile
          (join_path base "crds.yaml")
          (elim failure [ none ↦ bundle (base_name temp_helm) t | some _ ↦ "" ])
          (bundle_chart h download base revision temp_helm w)
  unfolding bundle_chart ◌>>=◌
  bundle_chart-IsFile failure calm h download base temp_helm output_path revision t w v x u got
        expanded tree =
      rw (got, expanded)
        (returned_lem base _ (create_crd_yaml base temp_helm x)
          (create_crd_yaml-IsBundled failure calm base temp_helm t x u tree))

  -- If the Helm source returns a path, and the removal of a directory does not fail, then nothing is
  -- left at or below the folder of the chart: to remove it once more changes nothing.
  pub fetch_selected-files :
      (next : Option (Contract P)) (h : Api.Helm) (base path : FilePath) (obj : Bootstrap)
      (revision : String) (w : World P)
      → ((s : P.Outside) → (P.os_call (remove_all (join_path base "helm-temp")) s).0 ≡ ok tt)
      → (fetch_selected next (some h) base obj revision w).0 ≡ ok path
      → (path ≡ join_path base "crds.yaml")
        × (erase_tree
              (join_path base "helm-temp")
              (fetch_selected next (some h) base obj revision w).1.files
            ≡ (fetch_selected next (some h) base obj revision w).1.files)
  unfolding fetch_selected bundle_chart deferring pure
  fetch_selected-files next h base path obj revision w removes e =
      let (download, a1, e1, s1) = bind-eq-ok _ _ w path e in
      let (_, a2, e2, s2) = bind-eq-ok _ _ _ path e1 in
      let (_, a3, e3, s3) = bind-eq-ok _ _ _ path (join_outcome-eq-ok _ _ path e2) in
      let (_, a4, e4, s4) = bind-eq-ok _ _ _ path e3 in
      let (_, a5, e5, s5) = bind-eq-ok _ _ _ path e4 in
      let gone =
        ap (λ (v : World P). v.files) (s1 ∙ s2)
        ∙ remove_tree_lem (join_path base "helm-temp") _ (removes _) in
      (
        sym (ok-injective e5),
        ap (erase_tree (join_path base "helm-temp")) gone
            ∙ erase_tree_idem (join_path base "helm-temp") _
            ∙ sym gone,
      )
