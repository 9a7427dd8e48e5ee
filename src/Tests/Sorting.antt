-- ===== src/Tests/Sorting.antt =====
-- The insertion sort of the examples sorts, as `sort.Slice` does.
use crd_bootstrap.Base.{
  ℕ, ◌≡◌, Bool, true, false, List, [], ◌∷◌, inl, inr, All, All-mono, ltb, arith, Bool-cases,
  if◌then◌else◌,
}
use crd_bootstrap.Sources.Helm.Latest.{IsInOrder, IsSorting}
use crd_bootstrap.Tests.{insert_by, sort_by}

abbrev above : ℕ → ℕ → Bool
above v w = ltb w v

module _ (Q : ℕ → Type 0) where
  insert_by-All : (v : ℕ) (l : List ℕ) → Q v → All Q l → All Q (insert_by above v l)
  insert_by-All v [] q all = (q, tt)
  insert_by-All v (w ∷ l) q (p, all) =
      let rest = insert_by-All v l q all in
      elim (above v w) as (λ c. All Q (if c then v ∷ w ∷ l else w ∷ insert_by above v l)) [
        | true ↦ (q, (p, all))
        | false ↦ (p, rest)
      ]

  insert_by-back : (v : ℕ) (l : List ℕ) → All Q (insert_by above v l) → Q v × All Q l
  insert_by-back v [] (q, _) = (q, tt)
  insert_by-back v (w ∷ l) all =
      let more = insert_by-back v l in
      (elim (above v w)
          as (λ c.
            All Q (if c then v ∷ w ∷ l else w ∷ insert_by above v l) → Q v × (Q w × All Q l)) [
              | true ↦ λ h. (h.0, h.1)
              | false ↦ λ h. ((more h.1).0, (h.0, (more h.1).1))
            ])
        all

  sort_by-All : (l : List ℕ) → All Q l → All Q (sort_by above l)
  sort_by-All [] all = tt
  sort_by-All (v ∷ l) (q, all) = insert_by-All v _ q (sort_by-All l all)

  sort_by-back : (l : List ℕ) → All Q (sort_by above l) → All Q l
  sort_by-back [] all = tt
  sort_by-back (v ∷ l) all = let (q, rest) = insert_by-back v _ all in (q, sort_by-back l rest)

insert_by-IsInOrder :
    (v : ℕ) (l : List ℕ) → IsInOrder above l → IsInOrder above (insert_by above v l)
insert_by-IsInOrder v [] s = (tt, tt)
insert_by-IsInOrder v (w ∷ l) (below, s) =
    let rest = insert_by-IsInOrder v l s in
    elim (Bool-cases (above v w)) [
      | inl before ↦
          rw before ((ground arith, All-mono _ _ l (λ b e. ground arith) below), (below, s))
      | inr after ↦ rw after (insert_by-All (λ b. above b w ≡ false) v l after below, rest)
    ]

sort_by-IsInOrder : (l : List ℕ) → IsInOrder above (sort_by above l)
sort_by-IsInOrder [] = tt
sort_by-IsInOrder (v ∷ l) = insert_by-IsInOrder v _ (sort_by-IsInOrder l)

pub sort_by-IsSorting : (l : List ℕ) → IsSorting above l (sort_by above l)
sort_by-IsSorting l = record {
  in_order = sort_by-IsInOrder l;
  kept = λ Q. sort_by-All Q l;
  back = λ Q. sort_by-back Q l;
}
