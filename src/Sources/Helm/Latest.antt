-- ===== src/Sources/Helm/Latest.antt =====
-- Which version `getLatestVersion` selects.
use mathlib.Core.Path.{subst}
use crd_bootstrap.Base.{
  String, ◌≡◌, refl, sym, ◌∙◌, Bool, true, false, List, [], ◌∷◌, ◌⊎◌, inl, inr, All, All-mono,
  Outcome, ok, err, panic, and_then, and_then-eq-ok, ok-injective, if◌then◌else◌, Bool-cases,
}
use crd_bootstrap.Platform.{Semver, IsOrdered}
use crd_bootstrap.Sources.Helm.{first_element, satisfying, get_latest_version}

abbrev In : {A : Type 0} → A → List A → Type 0
In a [] = ⊥
In a (b ∷ bs) = (a ≡ b) ⊎ In a bs

-- What a sorted list is: no element belongs before one that stands before it.
abbrev pub IsInOrder : {A : Type 0} → (A → A → Bool) → List A → Type 0
IsInOrder less [] = Unit
IsInOrder less (a ∷ more) = All (λ b. less b a ≡ false) more × IsInOrder less more

-- What `sort.Slice` promises of its result: the same elements, in order.
pub record IsSorting {A : Type 0} (less : A → A → Bool) (unsorted sorted : List A) : Type 1 where
  pub in_order : IsInOrder less sorted
  pub kept : (Q : A → Type 0) → All Q unsorted → All Q sorted
  pub back : (Q : A → Type 0) → All Q sorted → All Q unsorted

All-In : {A : Type 0} (Q : A → Type 0) (more : List A) {a : A} → All Q more → In a more → Q a
All-In Q [] all i = absurd i
All-In Q (b ∷ more) (q, all) (inl e) = subst Q (sym e) q
All-In Q (b ∷ more) (q, all) (inr i) = All-In Q more all i

module _ (S : Semver) (constraint : S.Constraint) where
  -- One of the texts is a version that satisfies the constraint, this one.
  abbrev pub IsCandidate : List String → S.Version → Type 0
  IsCandidate versions v =
      (name : String) × In name versions
      × (S.new_version name ≡ ok v)
      × (S.check constraint v ≡ true)

  abbrev IsTaken : List S.Version → String → Type 0
  IsTaken semvers name =
      (w : S.Version) → S.new_version name ≡ ok w → S.check constraint w ≡ true → In w semvers

  -- What the loop collects.
  pub record IsCollected (versions : List String) (semvers : List S.Version) : Type 0 where
    pub candidates : All (IsCandidate versions) semvers
    pub taken : All (IsTaken semvers) versions

  wider :
      (v : String) (versions : List String) (semvers : List S.Version)
      → All (IsCandidate versions) semvers
      → All (IsCandidate (v ∷ versions)) semvers
  wider v versions semvers all = All-mono _ _ semvers (λ w (name, i, e, c). (name, inr i, e, c)) all

  satisfying_lem :
      (versions : List String) (semvers : List S.Version)
      → satisfying S constraint versions ≡ ok semvers
      → IsCollected versions semvers
  unfolding satisfying
  satisfying_lem [] [] e = record { candidates = tt; taken = tt }
  satisfying_lem [] (w ∷ ws) e = cc
  satisfying_lem (v ∷ versions) semvers e =
      step (S.new_version v) refl e (λ ws. satisfying_lem versions ws)
    where
      step :
          (o : Outcome S.Version)
          → S.new_version v ≡ o
          → (elim o [
            | ok semv ↦
                and_then
                  (satisfying S constraint versions)
                  λ ws. ok (if S.check constraint semv then semv ∷ ws else ws)
            | err _ ↦ satisfying S constraint versions
            | panic ↦ panic
          ])
            ≡ ok semvers
          → ((ws : List S.Version)
              → satisfying S constraint versions ≡ ok ws
              → IsCollected versions ws)
          → IsCollected (v ∷ versions) semvers
      step panic h f ih = cc
      step (err x) h f ih = record {
        candidates = wider v versions semvers (ih semvers f).candidates;
        taken = (λ w p c. cc, (ih semvers f).taken);
      }
      step (ok semv) h f ih =
          let (ws, g, same) = and_then-eq-ok (satisfying S constraint versions) _ f in
          elim (Bool-cases (S.check constraint semv)) [
            | inl fits ↦
                subst (IsCollected (v ∷ versions)) (ok-injective (rw fits at same)) (record {
                  candidates = ((v, inl refl, h, fits), wider v versions ws (ih ws g).candidates);
                  taken = (
                    λ w p c. inl (ok-injective (sym p ∙ h)),
                    All-mono _ _ versions (λ name q w p c. inr (q w p c)) (ih ws g).taken,
                  );
                })
            | inr misses ↦
                subst (IsCollected (v ∷ versions)) (ok-injective (rw misses at same)) (record {
                  candidates = wider v versions ws (ih ws g).candidates;
                  taken = (
                    λ w p c. let here : w ≡ semv = ok-injective (sym p ∙ h) in cc,
                    (ih ws g).taken,
                  );
                })
          ]

  -- The selected version: shown as it was written, allowed, and with none above it that is allowed.
  pub record IsLatest (versions : List String) (text : String) : Type 0 where
    pub version : S.Version
    pub shown : S.original version ≡ text
    pub candidate : IsCandidate versions version
    pub highest :
        All
          (λ name.
            (w : S.Version)
            → S.new_version name ≡ ok w
            → S.check constraint w ≡ true
            → S.greater_than w version ≡ false)
          versions

module _ (S : Semver)
    (sort_slice : (S.Version → S.Version → Bool) → List S.Version → List S.Version)
    (order : IsOrdered S) where
  -- If versions are ordered, no text makes the parser panic, and the sort has put what satisfies the
  -- constraint in order, then either nothing satisfies the constraint, and `getLatestVersion` panics,
  -- or it returns the text of a version from the list that satisfies the constraint, such that no
  -- version from the list that satisfies it is greater.
  pub get_latest_version-IsLatest :
      (constraint : S.Constraint) (versions : List String) (semvers : List S.Version)
      → satisfying S constraint versions ≡ ok semvers
      → IsSorting S.greater_than semvers (sort_slice S.greater_than semvers)
      → ((semvers ≡ []) × (get_latest_version S sort_slice versions constraint ≡ panic))
        ⊎ ((text : String) × (get_latest_version S sort_slice versions constraint ≡ ok text)
            × IsLatest S constraint versions text)
  unfolding get_latest_version
  get_latest_version-IsLatest constraint versions semvers e sorting =
      rw e (chosen (sort_slice S.greater_than semvers) sorting)
    where
      collected : IsCollected S constraint versions semvers
      collected = satisfying_lem S constraint versions semvers e

      empty : (l : List S.Version) → All (λ _. ⊥) l → l ≡ []
      empty [] all = refl
      empty (v ∷ l) all = absurd all.0

      chosen :
          (sorted : List S.Version)
          → IsSorting S.greater_than semvers sorted
          → ((semvers ≡ [])
              × (and_then (first_element sorted) (λ semv. ok (S.original semv)) ≡ panic))
            ⊎ ((text : String) × (and_then (first_element sorted) (λ semv. ok (S.original semv))
                  ≡ ok text)
                × IsLatest S constraint versions text)
      chosen [] s = inl (empty semvers (s.back (λ _. ⊥) tt), refl)
      chosen (v ∷ more) s = inr (
        S.original v,
        refl,
        record {
          version = v;
          shown = refl;
          candidate = (s.kept (IsCandidate S constraint versions) collected.candidates).0;
          highest =
              All-mono _ _ versions
                (λ name taken w p c.
                  All-In (λ u. S.greater_than u v ≡ false) semvers
                    (s.back (λ u. S.greater_than u v ≡ false) (order.irreflexive v, s.in_order.0))
                    (taken w p c))
                collected.taken;
        },
      )
