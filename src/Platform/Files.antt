-- ===== src/Platform/Files.antt =====
-- Laws of paths and files.
use crd_bootstrap.Base.{
  String, ◌≡◌, refl, sym, ap, ◌∙◌, true, some, [], ◌∷◌, eq_iff, eq_refl, Bool-cases, inl, inr,
  arith,
}
use crd_bootstrap.Base.FilePath.{FilePath, same_path, under}
use crd_bootstrap.Platform.World.{Node, Files, find_node, erase_node, put_node, erase_tree}

pub same_path_refl : (p : FilePath) → same_path p p ≡ true
unfolding same_path
same_path_refl [] = refl
same_path_refl (a ∷ p) = ground (arith, eq_refl a, same_path_refl p)

pub same_path_sound : (p q : FilePath) → same_path p q ≡ true → p ≡ q
unfolding same_path
same_path_sound [] [] e = refl
same_path_sound [] (b ∷ q) e = cc
same_path_sound (a ∷ p) [] e = cc
same_path_sound (a ∷ p) (b ∷ q) e = ground (arith, eq_iff a b, same_path_sound p q)

pub find-put : (p : FilePath) (n : Node) (fs : Files) → find_node p (put_node p n fs) ≡ some n
unfolding find_node put_node
find-put p n fs = rw (same_path_refl p)

-- What lies at a path below `d` is no part of what is left when `d` is removed.
erase_tree-erase_node :
    (d p : FilePath) (fs : Files)
    → under d p ≡ true
    → erase_tree d (erase_node p fs) ≡ erase_tree d fs
unfolding erase_tree erase_node
erase_tree-erase_node d p [] u = refl
erase_tree-erase_node d p ((q, n) ∷ fs) u = elim (Bool-cases (same_path p q)) [
  | inl same ↦
      let below : under d q ≡ true = ap (under d) (sym (same_path_sound p q same)) ∙ u in
      rw (same, below) (erase_tree-erase_node d p fs u)
  | inr other ↦ rw (other, erase_tree-erase_node d p fs u)
]

pub erase_tree-put :
    (d p : FilePath) (n : Node) (fs : Files)
    → under d p ≡ true
    → erase_tree d (put_node p n fs) ≡ erase_tree d fs
unfolding erase_tree put_node
erase_tree-put d p n fs u = rw u (erase_tree-erase_node d p fs u)

pub under_refl : (d : FilePath) → under d d ≡ true
unfolding under
under_refl [] = refl
under_refl (a ∷ d) = rw (same_path_refl (a ∷ d))

pub under-child : (d : FilePath) (a : String) → under d (a ∷ d) ≡ true
unfolding under
under-child d a = ground (arith, under_refl d)

pub erase_tree_idem : (d : FilePath) (fs : Files) → erase_tree d (erase_tree d fs) ≡ erase_tree d fs
unfolding erase_tree
erase_tree_idem d [] = refl
erase_tree_idem d ((q, n) ∷ fs) = ground (arith, erase_tree_idem d fs)
