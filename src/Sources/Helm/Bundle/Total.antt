-- ===== src/Sources/Helm/Bundle/Total.antt =====
-- What the bundle of a chart's CRDs holds.
use mathlib.Core.Path.{subst}
use text.Mathlib.TextLemmas.{nil-append}
use crd_bootstrap.Base.{
  String, ◌≡◌, refl, sym, ap, ◌∙◌, false, Option, none, some, [], Outcome, Error, ok, wrapping,
  deferring, ◌>>=◌, resume, wrap, map_err,
}
use crd_bootstrap.Base.FilePath.{FilePath, base_name, join_path, under}
use crd_bootstrap.Platform.{Platform, OsCall, create}
use crd_bootstrap.Platform.World.{
  World, Files, file, find_node, put_node, outside, edit_files, set_outside,
}
use crd_bootstrap.Platform.Os.{create_file, close_file}
use crd_bootstrap.Platform.Files.{find-put}
use crd_bootstrap.Platform.Walk.{walk}
use crd_bootstrap.Platform.Walk.Trees.{Tree, HasTree, find-append}
use crd_bootstrap.Platform.Walk.Runs.{answer, grow}
use crd_bootstrap.Platform.Walk.Put.{HasTree-put}
use crd_bootstrap.Sources.Helm.Bundle.{append_crds, create_crd_yaml}
use crd_bootstrap.Sources.Helm.Bundle.Steps.{bundle, Runs-bundle}

grown_lem :
    (q : FilePath) (s : String) (fs : Files) (f : Option Error)
    → find_node q (grow f q s (put_node q (file "") fs))
      ≡ some (file (elim f [ none ↦ s | some _ ↦ "" ]))
grown_lem q s fs none =
    find-append q s "" _ (find-put q (file "") fs) ∙ ap (λ x. some (file x)) (nil-append s)
grown_lem q s fs (some e) = find-put q (file "") fs

module _ {P : Platform} where
  -- What the bundle holds at the end.
  pub record IsBundled (base : FilePath) (text : String) (p : Outcome (Unit {0}) × World P)
      : Type 0 where
    pub returned : p.0 ≡ ok tt
    pub written : find_node (join_path base "crds.yaml") p.1.files ≡ some (file text)

abbrev ended : {P : Platform} → World P → Outcome (Unit {0}) × World P
ended v = (ok tt, v)

module _ {P : Platform} (failure : Option Error)
    (calm : (c : OsCall) (s : P.Outside) → (P.os_call c s).0 ≡ answer failure c) where
  created :
      (q : FilePath) (w : World P)
      → (v : World P) × (create_file q w ≡ ended v) × (v.files ≡ put_node q (file "") w.files)
  unfolding create_file ◌>>=◌ outside edit_files
  created q w = (
    record (set_outside w (P.os_call (create q) w.outside).1) {
      files = put_node q (file "") w.files;
    },
    ap
        (λ o.
          resume (λ _. edit_files (put_node q (file "")))
            (o, set_outside w (P.os_call (create q) w.outside).1))
        (calm (create q) w.outside),
    refl,
  )

  -- If a tree stands at the folder of the chart, the bundle is not at or below it, and no call of
  -- the system fails, except perhaps every write, then `createCrdYaml` returns without an error. The
  -- bundle holds the files below each directory called `crds`, in the order of the names, each after
  -- a line `---`: a file as often as there are such directories above it. If the writes fail, there
  -- is still no error, and the bundle is empty.
  pub create_crd_yaml-IsBundled :
      (base temp_helm : FilePath) (t : Tree) (w : World P)
      → under temp_helm (join_path base "crds.yaml") ≡ false
      → HasTree w.files temp_helm t
      → IsBundled base
          (elim failure [ none ↦ bundle (base_name temp_helm) t | some _ ↦ "" ])
          (create_crd_yaml base temp_helm w)
  unfolding create_crd_yaml ◌>>=◌
  create_crd_yaml-IsBundled base temp_helm t w u h =
      let q : FilePath = join_path base "crds.yaml" in
      let (v, made, same) = created q w in
      let h' : HasTree v.files temp_helm t =
        subst (λ fs. HasTree fs temp_helm t) (sym same)
          (HasTree-put q temp_helm (file "") w.files t u h) in
      let r = Runs-bundle failure q calm temp_helm t v u h' in
      let e : create_crd_yaml base temp_helm w ≡ ended r.after =
        ap
          (λ p.
            resume
              (λ _.
                deferring (close_file q)
                  (wrapping "failed to walk path" [] (walk temp_helm (append_crds q))))
              (map_err (wrap "failed to create crds bundle file" []) p.0, p.1))
          made
        ∙ r.ran in
      record {
        returned = ap (λ p. p.0) e;
        written =
            ap (λ p. find_node q p.1.files) e
            ∙ ap (find_node q) (r.files ∙ ap (grow failure q (bundle (base_name temp_helm) t)) same)
            ∙ grown_lem q (bundle (base_name temp_helm) t) w.files failure;
      }
