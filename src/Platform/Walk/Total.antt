-- ===== src/Platform/Walk/Total.antt =====
-- A walk of a tree adds the texts of the tree.
use mathlib.Core.Path.{subst}
use crd_bootstrap.Base.{
  ℕ, zero, suc, ◌≤◌, String, ◌≡◌, refl, sym, ap, ◌∙◌, false, Option, some, List, ◌∷◌, Outcome,
  Error, ok, pure, gets, from, or_fail, ◌>>=◌, arith,
}
use crd_bootstrap.Base.FilePath.{FilePath, base_name, under}
use crd_bootstrap.Platform.{Platform, OsCall, lstat, read_dir}
use crd_bootstrap.Platform.World.{World, Node, find_node}
use crd_bootstrap.Platform.Walk.{
  Visit, each, names_in, lstat_node, read_dir_names, visit_node, visit_name, walk_dir, walk,
}
use crd_bootstrap.Platform.Walk.Trees.{
  Tree, leaf, branch, Kids, end, kid, node_of, kid_names, height, height_kids, HasTree, HasKids,
  texts, texts_kids, HasTree-find, height-fuel, under-parent,
}
use crd_bootstrap.Platform.Walk.Runs.{
  answer, HasKids-grow, Runs, Runs-quiet, Runs-bind, Runs-after, Runs-call,
}

module _ {P : Platform} (failure : Option Error) (q : FilePath)
    (calm : (c : OsCall) (s : P.Outside) → (P.os_call c s).0 ≡ answer failure c) where
  pub Runs-gets :
      {A : Type 0} (f : World P → A) (w : World P) (a : A)
      → f w ≡ a
      → Runs failure q (gets f) w a ""
  unfolding ◌>>=◌
  Runs-gets f w a e = Runs-quiet w (ap (λ x. (ok x, w)) e) refl

  pub Runs-from :
      {A : Type 0} (o : Outcome A) (w : World P) (a : A) → o ≡ ok a → Runs failure q (from o) w a ""
  unfolding ◌>>=◌
  Runs-from o w a e = Runs-quiet w (ap (λ x. (x, w)) e) refl

  Runs-lstat_node :
      (p : FilePath) (w : World P) (n : Node)
      → find_node p w.files ≡ some n
      → Runs failure q (lstat_node p) w n ""
  unfolding lstat_node
  Runs-lstat_node p w n e = Runs-after _ (Runs-call (lstat p) (calm (lstat p)) w) λ v same.
      Runs-after _ (Runs-gets _ v _ refl) λ x again.
        Runs-from _ x n (ap (or_fail (Error.foreign "no such file")) (ap (find_node p) same ∙ e))

  Runs-read_dir_names :
      (p : FilePath) (w : World P) (names : List String)
      → names_in p w.files ≡ names
      → Runs failure q (read_dir_names p) w names ""
  unfolding read_dir_names
  Runs-read_dir_names p w names e =
      Runs-after _ (Runs-call (read_dir p) (calm (read_dir p)) w)
        λ v same. Runs-gets _ v names (ap (names_in p) same ∙ e)

  -- A callback that adds the text of each entry of a tree.
  module _ (fn : Visit P) (text_of : String → Tree → String)
      (adds : (p : FilePath) (t : Tree) (w : World P)
        → under p q ≡ false
        → HasTree w.files p t
        → Runs failure q (fn p (node_of t)) w tt (text_of (base_name p) t)) where
    mutual
      unfolding HasTree height texts walk_dir each visit_name base_name pure

      Runs-visit :
          (n : ℕ) (p : FilePath) (t : Tree) (w : World P)
          → under p q ≡ false
          → height t ≤ n
          → HasTree w.files p t
          → Runs failure q
              (visit_node (walk_dir n fn) fn p (node_of t))
              w
              tt
              (texts text_of (base_name p) t)
      Runs-visit n p (leaf s) w u l h = adds p (leaf s) w u h
      Runs-visit zero p (branch ks) w u l h = absurd (omega arith)
      Runs-visit (suc n) p (branch ks) w u l h =
          Runs-after _ (Runs-read_dir_names p w (kid_names ks) h.1) λ v same.
            let h' : HasTree v.files p (branch ks) =
              subst (λ fs. HasTree fs p (branch ks)) (sym same) h in
            Runs-bind _ (adds p (branch ks) v u h') λ x grown. Runs-each n p ks x u (omega arith) (
              subst (λ fs. HasKids fs p ks) (sym grown)
                (HasKids-grow failure q p _ v.files ks u h'.2))

      Runs-each :
          (n : ℕ) (p : FilePath) (ks : Kids) (w : World P)
          → under p q ≡ false
          → height_kids ks ≤ n
          → HasKids w.files p ks
          → Runs failure q
              (each (visit_name (walk_dir n fn) fn p) (kid_names ks))
              w
              tt
              (texts_kids text_of ks)
      Runs-each n p end w u l h = Runs-quiet w refl refl
      Runs-each n p (kid name t ks) w u l h =
          Runs-bind _
            (Runs-after _
              (Runs-lstat_node (name ∷ p) w (node_of t) (HasTree-find w.files (name ∷ p) t h.0))
              λ v same.
                Runs-visit n (name ∷ p) t v (under-parent p q name u) (omega arith)
                  (subst (λ fs. HasTree fs (name ∷ p) t) (sym same) h.0))
            λ x grown. Runs-each n p ks x u (omega arith) (
              subst (λ fs. HasKids fs p ks) (sym grown)
                (HasKids-grow failure q p _ w.files ks u h.1))

    pub Runs-walk :
        (p : FilePath) (t : Tree) (w : World P)
        → under p q ≡ false
        → HasTree w.files p t
        → Runs failure q (walk p fn) w tt (texts text_of (base_name p) t)
    unfolding walk
    Runs-walk p t w u h =
        Runs-after _ (Runs-lstat_node p w (node_of t) (HasTree-find w.files p t h)) λ v same.
          let h' : HasTree v.files p t = subst (λ fs. HasTree fs p t) (sym same) h in
          Runs-after _ (Runs-gets _ v _ refl) λ x again.
            Runs-visit _ p t x u (height-fuel v.files p t h')
              (subst (λ fs. HasTree fs p t) (sym again) h')
