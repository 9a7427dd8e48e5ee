-- ===== src/Controller/Counting/Words.antt =====
-- The counts of applied CRDs as 64-bit words.
use mathlib.Core.Path.{subst}
use crd_bootstrap.Base.{
  ℕ, zero, suc, ◌+◌, ◌%◌, ◌^◌, ◌<◌, String, ◌≡◌, refl, ap, sym, ◌∙◌, true, false, Option, none,
  some, List, [], ◌∷◌, map, ok, ◌==◌, if◌then◌else◌, arith, eq_iff, ◌>>=◌, Bool-cases, inl, inr,
}
use crd_bootstrap.Base.Dict.{Dict, lookup, lookup-insert}
use crd_bootstrap.Platform.{Platform}
use crd_bootstrap.Breaking.{OpenApi}
use crd_bootstrap.Controller.{Cluster, Run, get_obj, set_obj}
use crd_bootstrap.Controller.Objects.{increment, increment_all, count_names, count_applied}

-- How often a name occurs.
unfoldable pub occurrences : String → List String → ℕ
occurrences name [] = 0
occurrences name (other ∷ names) =
    let rest = occurrences name names in if name == other then suc rest else rest

-- The count of a name that may be missing.
abbrev pub count_of : Option ℕ → ℕ
count_of none = 0
count_of (some n) = n

abbrev pub entries_of : Option (Dict ℕ) → Dict ℕ
entries_of none = []
entries_of (some entries) = entries

-- A word, unless it is missing.
abbrev after : ℕ → Option ℕ → Option ℕ
after zero before = before
after (suc k) before = some ((count_of before + suc k) % 2 ^ 64)

after-some : (k n : ℕ) → n < 2 ^ 64 → after k (some n) ≡ some ((n + k) % 2 ^ 64)
after-some zero n h = ap some (omega arith)
after-some (suc k) n h = refl

after-more :
    (k : ℕ) (before : Option ℕ)
    → after k (some ((count_of before + 1) % 2 ^ 64)) ≡ after (suc k) before
after-more k before =
    after-some k ((count_of before + 1) % 2 ^ 64) (omega arith) ∙ ap some (omega arith)

bump : Option ℕ → ℕ
unfolding increment
bump o = elim o [ none ↦ 1 | some n ↦ (n + 1) % 2 ^ 64 ]

bump-count_of : (o : Option ℕ) → bump o ≡ (count_of o + 1) % 2 ^ 64
unfolding bump
bump-count_of none = omega arith
bump-count_of (some n) = refl

lookup-increment :
    (name other : String) (applied : Dict ℕ)
    → lookup name (increment other applied) ≡ (
        if name == other
        then some ((count_of (lookup other applied) + 1) % 2 ^ 64)
        else lookup name applied)
unfolding increment bump
lookup-increment name other applied =
    lookup-insert other name (bump (lookup other applied)) applied
    ∙ ap (λ n. if name == other then some n else lookup name applied)
        (bump-count_of (lookup other applied))

-- One more of a name, and of another.
lookup-increment_same :
    (name other : String) (applied : Dict ℕ)
    → (name == other) ≡ true
    → lookup name (increment other applied) ≡ after 1 (lookup name applied)
lookup-increment_same name other applied same =
    lookup-increment name other applied
    ∙ ap (λ b. if b then after 1 (lookup other applied) else lookup name applied) same
    ∙ ap (λ n. after 1 (lookup n applied)) (sym ((eq_iff name other).0 same))

lookup-increment_other :
    (name other : String) (applied : Dict ℕ)
    → (name == other) ≡ false
    → lookup name (increment other applied) ≡ lookup name applied
lookup-increment_other name other applied different =
    lookup-increment name other applied
    ∙ ap (λ b. if b then after 1 (lookup other applied) else lookup name applied) different

lookup-increment_all :
    (name : String) (names : List String) (applied : Dict ℕ)
    → lookup name (increment_all names applied)
      ≡ after (occurrences name names) (lookup name applied)
unfolding increment_all occurrences
lookup-increment_all name [] applied = refl
lookup-increment_all name (other ∷ names) applied = elim (Bool-cases (name == other)) [
  | inl same ↦
      lookup-increment_all name names (increment other applied)
      ∙ ap (after (occurrences name names)) (lookup-increment_same name other applied same)
      ∙ after-more (occurrences name names) (lookup name applied)
      ∙ rw same refl
  | inr different ↦
      lookup-increment_all name names (increment other applied)
      ∙ ap (after (occurrences name names)) (lookup-increment_other name other applied different)
      ∙ rw different refl
]

after-IsWord :
    (k : ℕ) (before : Option ℕ) → count_of before < 2 ^ 64 → count_of (after k before) < 2 ^ 64
after-IsWord zero before h = h
after-IsWord (suc k) before h = omega arith

-- The count of each name after the objects were counted. A name that does not occur among them
-- keeps its entry, or has none.
pub record IsCounted (before : Option (Dict ℕ)) (names : List String) (all : Dict ℕ) : Type 0 where
  pub kept :
      (name : String)
      → occurrences name names ≡ 0
      → lookup name all ≡ lookup name (entries_of before)
  pub entry :
      (name : String) (k : ℕ)
      → occurrences name names ≡ suc k
      → lookup name all ≡ some ((count_of (lookup name (entries_of before)) + suc k) % 2 ^ 64)
  pub bound :
      (name : String)
      → count_of (lookup name (entries_of before)) < 2 ^ 64
      → count_of (lookup name all) < 2 ^ 64

increment_all-IsCounted :
    (before : Option (Dict ℕ)) (names : List String)
    → IsCounted before names (increment_all names (entries_of before))
increment_all-IsCounted before names = record {
  kept = λ name e.
      lookup-increment_all name names _ ∙ ap (λ k. after k (lookup name (entries_of before))) e;
  entry = λ name k e.
      lookup-increment_all name names _ ∙ ap (λ n. after n (lookup name (entries_of before))) e;
  bound = λ name h.
      subst (λ o. count_of o < 2 ^ 64) (sym (lookup-increment_all name names _))
        (after-IsWord (occurrences name names) _ h);
}

module _ {P : Platform} {O : OpenApi} (C : Cluster P O) where
  count_names-IsCounted :
      (before : Option (Dict ℕ)) (names : List String) (r : Run C)
      → (all : Dict ℕ) × ((count_names C before names r).0 ≡ ok all) × IsCounted before names all
  unfolding count_names ◌>>=◌ set_obj
  count_names-IsCounted none names r = (_, refl, increment_all-IsCounted none names)
  count_names-IsCounted (some applied) names r =
      (_, refl, increment_all-IsCounted (some applied) names)

  -- Counting the objects of an update always returns. The new count of a name is the old one, or 0,
  -- and the number of objects of that name, modulo 2 ^ 64; every other entry is kept; and counts that
  -- are words stay words.
  pub count_applied-IsCounted :
      (objects : List C.Object) (r : Run C)
      → (all : Dict ℕ) × ((count_applied C objects r).0 ≡ ok all)
        × IsCounted r.obj.status.last_applied_crd_names (map C.get_name objects) all
  unfolding count_applied ◌>>=◌ get_obj
  count_applied-IsCounted objects r =
      count_names-IsCounted r.obj.status.last_applied_crd_names (map C.get_name objects) r
