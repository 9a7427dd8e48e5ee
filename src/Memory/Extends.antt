-- ===== src/Memory/Extends.antt =====
-- Heaps that only grow, and what a computation leaves that only allocates.
use crd_bootstrap.Base.{
  ℕ, zero, suc, ◌≤◌, ◌<◌, some, [], ◌∷◌, ◌++◌, ◌≡◌, ◌≢◌, refl, ap, arith, Outcome, ok, M, pure,
  resume, length,
}
use crd_bootstrap.Memory.{Cell, Heap, cell_at, set_cell}
use crd_bootstrap.Memory.Shows.{Store}
use crd_bootstrap.Memory.Carry.{IsWithin}

-- The cells of a heap at addresses from `k` on.
abbrev pub From : ℕ → Heap → Store
From k h = λ a c. (k ≤ a) × (cell_at a h ≡ some c)

-- Nothing that was allocated is lost or changed.
pub record Extends (h g : Heap) : Type 0 where
  pub longer : length h ≤ length g
  pub kept : (a : ℕ) (c : Cell) → cell_at a h ≡ some c → cell_at a g ≡ some c

pub Extends-refl : (h : Heap) → Extends h h
Extends-refl h = record { longer = omega arith; kept = λ a c e. e }

pub Extends-trans : {f g h : Heap} → Extends f g → Extends g h → Extends f h
Extends-trans p q = record {
  longer = omega (arith, p.longer, q.longer);
  kept = λ a c e. q.kept a c (p.kept a c e);
}

length-snoc : (h : Heap) (c : Cell) → length (h ++ c ∷ []) ≡ suc (length h)
length-snoc [] c = refl
length-snoc (d ∷ h) c = ap suc (length-snoc h c)

cell_at-snoc :
    (h : Heap) (a : ℕ) (c d : Cell) → cell_at a h ≡ some d → cell_at a (h ++ c ∷ []) ≡ some d
unfolding cell_at
cell_at-snoc [] a c d e = cc
cell_at-snoc (b ∷ h) zero c d e = e
cell_at-snoc (b ∷ h) (suc a) c d e = cell_at-snoc h a c d e

pub cell_at-length : (h : Heap) (c : Cell) → cell_at (length h) (h ++ c ∷ []) ≡ some c
unfolding cell_at
cell_at-length [] c = refl
cell_at-length (b ∷ h) c = cell_at-length h c

pub snoc-Extends : (h : Heap) (c : Cell) → Extends h (h ++ c ∷ [])
snoc-Extends h c = record {
  longer = omega (arith, length-snoc h c);
  kept = λ a d e. cell_at-snoc h a c d e;
}

pub Extends-IsWithin : (k : ℕ) {h g : Heap} → Extends h g → IsWithin (From k h) (From k g)
Extends-IsWithin k p a c (l, e) = (l, p.kept a c e)

pub cell_at-<-length : (h : Heap) (a : ℕ) {c : Cell} → cell_at a h ≡ some c → a < length h
unfolding cell_at
cell_at-<-length [] a e = cc
cell_at-<-length (b ∷ h) zero e = omega arith
cell_at-<-length (b ∷ h) (suc a) e = omega (arith, cell_at-<-length h a e)

pub cell_at-set_cell :
    (h : Heap) (a b : ℕ) (c : Cell) → a ≢ b → cell_at a (set_cell b c h) ≡ cell_at a h
unfolding cell_at set_cell
cell_at-set_cell [] a b c n = refl
cell_at-set_cell (d ∷ h) zero zero c n = absurd (n refl)
cell_at-set_cell (d ∷ h) zero (suc b) c n = refl
cell_at-set_cell (d ∷ h) (suc a) zero c n = refl
cell_at-set_cell (d ∷ h) (suc a) (suc b) c n = cell_at-set_cell h a b c (λ e. n (ap suc e))

-- A computation has returned a value, and only allocated.
pub data Gives {A : Type 0} (Q : Heap → A → Type 0) (h : Heap) : Outcome A × Heap → Type 0 where
  gives : {x : A} {g : Heap} → Extends h g → Q g x → Gives Q h (ok x, g)

widen :
    {B : Type 0} {R : Heap → B → Type 0} {h g : Heap}
    → Extends h g
    → {r : Outcome B × Heap} → Gives R g r
    → Gives R h r
widen p (gives q x) = gives (Extends-trans p q) x

module _ {A B : Type 0} {Q : Heap → A → Type 0} {R : Heap → B → Type 0} {h : Heap} where
  pub Gives-resume :
      {r : Outcome A × Heap} (f : A → M Heap B)
      → Gives Q h r
      → ((g : Heap) (x : A) → Extends h g → Q g x → Gives R g (f x g))
      → Gives R h (resume f r)
  Gives-resume f (gives p x) k = widen p (k _ _ p x)

  -- The last step of a copy, which puts the parts together.
  pub Gives-map :
      {r : Outcome A × Heap} (f : A → B)
      → Gives Q h r
      → ((g : Heap) (x : A) → Q g x → R g (f x))
      → Gives R h (resume (λ x. pure (f x)) r)
  unfolding pure
  Gives-map f (gives p x) k = gives p (k _ _ x)

pub Gives-also :
    {A : Type 0} {Q R : Heap → A → Type 0} {h : Heap} {r : Outcome A × Heap}
    → Gives Q h r
    → ((g : Heap) (x : A) → Extends h g → Q g x → R g x)
    → Gives R h r
Gives-also (gives p x) k = gives p (k _ _ p x)
