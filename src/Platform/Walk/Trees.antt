-- ===== src/Platform/Walk/Trees.antt =====
-- Directories as trees: what is at and below a path of the files, and texts made along a walk.
use text.Mathlib.TextLemmas.{append-nil, append_assoc}
use mathlib.Core.Option.{some-injective}
use crd_bootstrap.Base.{
  ℕ, suc, ◌+◌, ◌≤◌, String, ◌<>◌, ◌≡◌, refl, sym, ap, ◌∙◌, Bool, true, false, none, some, List, [],
  ◌∷◌, arith, length, max, inl, inr, Bool-cases, if◌then◌else◌,
}
use crd_bootstrap.Base.FilePath.{FilePath, same_path, under}
use crd_bootstrap.Platform.World.{Node, dir, file, Files, find_node, append_node, extend}
use crd_bootstrap.Platform.Files.{same_path_sound, same_path_refl, under_refl}
use crd_bootstrap.Platform.Walk.{child_name, names_in, depth, insert_name}

mutual
  pub data Tree : Type 0 where
    leaf : String → Tree
    branch : Kids → Tree

  pub data Kids : Type 0 where
    end : Kids
    kid : String → Tree → Kids → Kids

abbrev pub node_of : Tree → Node
node_of (leaf s) = file s
node_of (branch ks) = dir

abbrev pub kid_names : Kids → List String
kid_names end = []
kid_names (kid name t ks) = name ∷ kid_names ks

unfoldable mutual
  pub height : Tree → ℕ
  height (leaf s) = 0
  height (branch ks) = suc (height_kids ks)

  pub height_kids : Kids → ℕ
  height_kids end = 0
  height_kids (kid name t ks) = max (height t) (height_kids ks)

-- The tree is what stands at the path: the names in each directory are those of its children.
unfoldable mutual
  pub HasTree : Files → FilePath → Tree → Type 0
  HasTree fs p (leaf s) = find_node p fs ≡ some (file s)
  HasTree fs p (branch ks) =
      (find_node p fs ≡ some dir) × (names_in p fs ≡ kid_names ks) × HasKids fs p ks

  pub HasKids : Files → FilePath → Kids → Type 0
  HasKids fs p end = Unit
  HasKids fs p (kid name t ks) = HasTree fs (name ∷ p) t × HasKids fs p ks

-- The texts of a directory and of all that is below it, each directory before its children, and
-- these in order. The text of an entry comes from its name and its tree.
module _ (text_of : String → Tree → String) where
  unfoldable mutual
    pub texts : String → Tree → String
    texts name (leaf s) = text_of name (leaf s)
    texts name (branch ks) = text_of name (branch ks) <> texts_kids ks

    pub texts_kids : Kids → String
    texts_kids end = ""
    texts_kids (kid name t ks) = texts name t <> texts_kids ks

pub HasTree-find :
    (fs : Files) (p : FilePath) (t : Tree) → HasTree fs p t → find_node p fs ≡ some (node_of t)
unfolding HasTree
HasTree-find fs p (leaf s) h = h
HasTree-find fs p (branch ks) h = h.0

find-depth : (p : FilePath) (n : Node) (fs : Files) → find_node p fs ≡ some n → length p ≤ depth fs
unfolding find_node depth
find-depth p n [] e = cc
find-depth p n ((q, m) ∷ fs) e = elim (Bool-cases (same_path p q)) [
  | inl same ↦ let e' : p ≡ q = same_path_sound p q same in rw e' (omega arith)
  | inr other ↦ let h = find-depth p n fs (rw other at e) in omega (arith, h)
]

-- A tree is hardly higher than the deepest path allows.
mutual
  unfolding HasTree height

  height-depth :
      (fs : Files) (p : FilePath) (t : Tree) → HasTree fs p t → length p + height t ≤ suc (depth fs)
  height-depth fs p (leaf s) h = let found = find-depth p (file s) fs h in omega arith
  height-depth fs p (branch ks) h =
      let found = find-depth p dir fs h.0 in
      let below = height_kids-depth fs p ks found h.2 in omega arith

  height_kids-depth :
      (fs : Files) (p : FilePath) (ks : Kids)
      → length p ≤ depth fs
      → HasKids fs p ks
      → suc (length p) + height_kids ks ≤ suc (depth fs)
  height_kids-depth fs p end l h = omega arith
  height_kids-depth fs p (kid name t ks) l h =
      let here = height-depth fs (name ∷ p) t h.0 in
      let rest = height_kids-depth fs p ks l h.1 in omega arith

-- The height bounds the fuel that a walk takes.
pub height-fuel :
    (fs : Files) (p : FilePath) (t : Tree) → HasTree fs p t → height t ≤ suc (depth fs)
height-fuel fs p t h = let l = height-depth fs p t h in omega arith

-- Appending to a file changes no names, and nothing at another path.
pub find-append_ne :
    (p q : FilePath) (s : String) (fs : Files)
    → same_path p q ≡ false
    → find_node p (append_node q s fs) ≡ find_node p fs
unfolding find_node append_node
find-append_ne p q s [] d = refl
find-append_ne p q s ((r, n) ∷ fs) d = elim (Bool-cases (same_path p r)) [
  | inl same ↦
      let e : p ≡ r = same_path_sound p r same in
      elim (Bool-cases (same_path q r)) [
        | inl hit ↦
            let e' : q ≡ r = same_path_sound q r hit in
            absurd (distinct (ap (λ x. same_path p x) (e ∙ sym e')))
        | inr miss ↦ rw (same, miss) refl
      ]
  | inr other ↦ rw (other, find-append_ne p q s fs d)
]
  where
    distinct : same_path p p ≡ same_path p q → ⊥
    distinct h = let r = same_path_refl p in cc

pub find-append :
    (q : FilePath) (s t : String) (fs : Files)
    → find_node q fs ≡ some (file t)
    → find_node q (append_node q s fs) ≡ some (file (t <> s))
unfolding find_node append_node
find-append q s t [] e = cc
find-append q s t ((r, n) ∷ fs) e = elim (Bool-cases (same_path q r)) [
  | inl same ↦ rw same (ap (λ m. some (extend s m)) (some-injective _ _ (rw same at e)))
  | inr other ↦ rw other (find-append q s t fs (rw other at e))
]

pub names_in-append :
    (d q : FilePath) (s : String) (fs : Files) → names_in d (append_node q s fs) ≡ names_in d fs
unfolding names_in append_node
names_in-append d q s [] = refl
names_in-append d q s ((r, n) ∷ fs) =
    ap (λ names. elim (child_name d r) [ none ↦ names | some name ↦ insert_name name names ])
      (names_in-append d q s fs)

extend-nil : (b : Bool) (n : Node) → (if b then extend "" n else n) ≡ n
extend-nil true dir = refl
extend-nil true (file t) = ap file (append-nil t)
extend-nil false n = refl

extend-append :
    (c : Bool) (a b : String) (n : Node)
    → (if c then extend b (if c then extend a n else n) else (if c then extend a n else n))
      ≡ (if c then extend (a <> b) n else n)
extend-append true a b dir = refl
extend-append true a b (file t) = ap file (append_assoc t a b)
extend-append false a b n = refl

pub append_node-nil : (q : FilePath) (fs : Files) → append_node q "" fs ≡ fs
unfolding append_node
append_node-nil q [] = refl
append_node-nil q ((r, n) ∷ fs) =
    ap (λ m. (r, m) ∷ append_node q "" fs) (extend-nil (same_path q r) n)
    ∙ ap (λ l. (r, n) ∷ l) (append_node-nil q fs)

pub append_node-append :
    (q : FilePath) (a b : String) (fs : Files)
    → append_node q b (append_node q a fs) ≡ append_node q (a <> b) fs
unfolding append_node
append_node-append q a b [] = refl
append_node-append q a b ((r, n) ∷ fs) =
    ap (λ m. (r, m) ∷ append_node q b (append_node q a fs)) (extend-append (same_path q r) a b n)
    ∙ ap (λ l. (r, if same_path q r then extend (a <> b) n else n) ∷ l)
        (append_node-append q a b fs)

pub not_under-same : (p q : FilePath) → under p q ≡ false → same_path p q ≡ false
not_under-same p q u = elim (Bool-cases (same_path p q)) [
  | inl same ↦
      let at_p : under p q ≡ true = ap (under p) (sym (same_path_sound p q same)) ∙ under_refl p in
      cc
  | inr other ↦ other
]

-- A path that is not at or below another one.
pub under-parent : (p q : FilePath) (a : String) → under p q ≡ false → under (a ∷ p) q ≡ false
unfolding under same_path
under-parent p [] a u = refl
under-parent p (b ∷ q) a u = ground (arith, under-parent p q a, not_under-same p q)

pub child_name-none : (d q : FilePath) → under d q ≡ false → child_name d q ≡ none
unfolding child_name under
child_name-none d [] u = refl
child_name-none d (a ∷ q) u = ground (arith, not_under-same d q)
