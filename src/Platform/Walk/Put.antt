-- ===== src/Platform/Walk/Put.antt =====
-- A tree stays where it is when an entry is put beside it.
use crd_bootstrap.Base.{◌≡◌, refl, sym, ap, ◌∙◌, false, none, some, [], ◌∷◌, inl, inr, Bool-cases}
use crd_bootstrap.Base.FilePath.{FilePath, same_path, under}
use crd_bootstrap.Platform.World.{Node, Files, find_node, erase_node, put_node}
use crd_bootstrap.Platform.Files.{same_path_sound}
use crd_bootstrap.Platform.Walk.{child_name, names_in, insert_name}
use crd_bootstrap.Platform.Walk.Trees.{
  Tree, leaf, branch, Kids, end, kid, HasTree, HasKids, under-parent, not_under-same,
  child_name-none,
}

find-erase :
    (p q : FilePath) (fs : Files)
    → same_path p q ≡ false
    → find_node p (erase_node q fs) ≡ find_node p fs
unfolding find_node erase_node
find-erase p q [] d = refl
find-erase p q ((r, n) ∷ fs) d = elim (Bool-cases (same_path q r)) [
  | inl hit ↦
      let miss : same_path p r ≡ false = ap (same_path p) (sym (same_path_sound q r hit)) ∙ d in
      rw (hit, miss) (find-erase p q fs d)
  | inr other ↦ rw other (elim (Bool-cases (same_path p r)) [
    | inl same ↦ rw same refl
    | inr differ ↦ rw differ (find-erase p q fs d)
  ])
]

names_in-hidden :
    (d q : FilePath) (n : Node) (fs : Files)
    → child_name d q ≡ none
    → names_in d ((q, n) ∷ fs) ≡ names_in d fs
unfolding names_in
names_in-hidden d q n fs c =
    ap (λ o. elim o [ none ↦ names_in d fs | some name ↦ insert_name name (names_in d fs) ]) c

names_in-erase :
    (d q : FilePath) (fs : Files)
    → child_name d q ≡ none
    → names_in d (erase_node q fs) ≡ names_in d fs
unfolding names_in erase_node
names_in-erase d q [] c = refl
names_in-erase d q ((r, n) ∷ fs) c = elim (Bool-cases (same_path q r)) [
  | inl hit ↦
      let gone : child_name d r ≡ none = ap (child_name d) (sym (same_path_sound q r hit)) ∙ c in
      rw hit (names_in-erase d q fs c ∙ sym (names_in-hidden d r n fs gone))
  | inr other ↦ rw other (
      ap (λ names. elim (child_name d r) [ none ↦ names | some name ↦ insert_name name names ])
        (names_in-erase d q fs c))
]

pub find-put_ne :
    (p q : FilePath) (n : Node) (fs : Files)
    → same_path p q ≡ false
    → find_node p (put_node q n fs) ≡ find_node p fs
unfolding find_node put_node
find-put_ne p q n fs d = rw d (find-erase p q fs d)

names_in-put :
    (d q : FilePath) (n : Node) (fs : Files)
    → child_name d q ≡ none
    → names_in d (put_node q n fs) ≡ names_in d fs
unfolding put_node
names_in-put d q n fs c = names_in-hidden d q n (erase_node q fs) c ∙ names_in-erase d q fs c

mutual
  unfolding HasTree

  pub HasTree-put :
      (q p : FilePath) (n : Node) (fs : Files) (t : Tree)
      → under p q ≡ false
      → HasTree fs p t
      → HasTree (put_node q n fs) p t
  HasTree-put q p n fs (leaf x) u h = find-put_ne p q n fs (not_under-same p q u) ∙ h
  HasTree-put q p n fs (branch ks) u h = (
    find-put_ne p q n fs (not_under-same p q u) ∙ h.0,
    names_in-put p q n fs (child_name-none p q u) ∙ h.1,
    HasKids-put q p n fs ks u h.2,
  )

  HasKids-put :
      (q p : FilePath) (n : Node) (fs : Files) (ks : Kids)
      → under p q ≡ false
      → HasKids fs p ks
      → HasKids (put_node q n fs) p ks
  HasKids-put q p n fs end u h = tt
  HasKids-put q p n fs (kid name t ks) u h =
      (HasTree-put q (name ∷ p) n fs t (under-parent p q name u) h.0, HasKids-put q p n fs ks u h.1)
