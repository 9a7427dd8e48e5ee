-- ===== src/Controller/Keeps.antt =====
-- Rules for invariants of a run of `Reconcile`.
use crd_bootstrap.Base.{resume, caught, ◌>>=◌, ◌≡◌, String, Bool, ◌∷◌, M, Outcome, ok, err, panic}
use crd_bootstrap.Base.Keeps.{
  Yields, Leads, Keeps, Keeps-bind, Keeps-then, Keeps-pure, Keeps-fail, Keeps-crash, Keeps-attempt,
}
use crd_bootstrap.Api.{Bootstrap}
use crd_bootstrap.Platform.{Platform}
use crd_bootstrap.Platform.World.{World}
use crd_bootstrap.Breaking.{OpenApi}
use crd_bootstrap.Controller.{Cluster, Run, Call, within, note, get_obj, set_obj}
use crd_bootstrap.Controller.Reconcile.{mark, fail_marked, marking, finish}

module _ {P : Platform} {O : OpenApi} {C : Cluster P O} where
  -- An invariant that does not look at the conditions.
  abbrev pub Marks : (Run C → Type 0) → Type 0
  Marks I = (r : Run C) (b : Bool) (s t : String) → I r → I (record r { obj = mark C b s t r.obj })

  -- An invariant that looks neither at the world nor at the conditions.
  pub record IsStable (I : Run C → Type 0) : Type 0 where
    pub world : (r : Run C) (w : World P) → I r → I (record r { world = w })
    pub marks : Marks I

module _ {P : Platform} {O : OpenApi} {C : Cluster P O} {A : Type 0} where
  fail_marked-eq-ok :
      (s t : String) (o : Outcome A) (r : Run C) (a : A)
      → (fail_marked C s t o r).0 ≡ ok a
      → o ≡ ok a
  unfolding fail_marked ◌>>=◌ set_obj
  fail_marked-eq-ok s t (ok b) r a e = e
  fail_marked-eq-ok s t (err _) r a e = cc
  fail_marked-eq-ok s t panic r a e = cc

  marked-eq-ok :
      (s t : String) (p : Outcome A × Run C) (a : A)
      → (resume (fail_marked C s t) (caught p.0, p.1)).0 ≡ ok a
      → p.0 ≡ ok a
  marked-eq-ok s t (ok b, r) a e = fail_marked-eq-ok s t (ok b) r a e
  marked-eq-ok s t (err x, r) a e = fail_marked-eq-ok s t (err x) r a e
  marked-eq-ok s t (panic, r) a e = cc

  -- What `marking` returns is what the call under it returned.
  marking-eq-ok :
      (s t : String) (m : M (Run C) A) (r : Run C) (a : A)
      → (marking C s t m r).0 ≡ ok a
      → (m r).0 ≡ ok a
  unfolding marking ◌>>=◌
  marking-eq-ok s t m r a e = marked-eq-ok s t (m r) a e

module _ {P : Platform} {O : OpenApi} {C : Cluster P O} {A : Type 0} {R : A → Type 0} where
  pub Yields-within : {m : M (World P) A} → Yields R m → Yields R (within {C = C} m)
  unfolding within
  Yields-within h = record { of = λ r a e. h.of r.world a e }

  pub Yields-marking : (s t : String) {m : M (Run C) A} → Yields R m → Yields R (marking C s t m)
  Yields-marking s t {m} h = record { of = λ r a e. h.of r a (marking-eq-ok s t m r a e) }

module _ {P : Platform} {O : OpenApi} {C : Cluster P O} {Q J : Run C → Type 0} {B : Type 0} where
  pub Leads-get_obj :
      (f : Bootstrap → M (Run C) B)
      → ((r : Run C) → Q r → J (f r.obj r).1)
      → Leads Q J (get_obj >>= f)
  unfolding get_obj ◌>>=◌
  Leads-get_obj f h = record { to = h }

module _ {P : Platform} {O : OpenApi} {C : Cluster P O} {I : Run C → Type 0} where
  pub Keeps-set_obj :
      (f : Bootstrap → Bootstrap)
      → ((r : Run C) → I r → I (record r { obj = f r.obj }))
      → Keeps I (set_obj f)
  unfolding set_obj
  Keeps-set_obj f h = record { at = λ r i. h r i }

  pub Keeps-get_obj : Keeps I (get_obj {C = C})
  unfolding get_obj
  Keeps-get_obj = record { at = λ r i. i }

  pub Keeps-note :
      (c : Call C) → ((r : Run C) → I r → I (record r { calls = c ∷ r.calls })) → Keeps I (note c)
  unfolding note
  Keeps-note c h = record { at = λ r i. h r i }

  pub Keeps-within : {A : Type 0} → IsStable I → (m : M (World P) A) → Keeps I (within m)
  unfolding within
  Keeps-within stable m = record { at = λ r i. stable.world r (m r.world).1 i }

  pub Keeps-mark : Marks I → (b : Bool) (s t : String) → Keeps I (set_obj (mark C b s t))
  Keeps-mark marks b s t = Keeps-set_obj (mark C b s t) (λ r i. marks r b s t i)

  Keeps-fail_marked :
      {A : Type 0} → Marks I → (s t : String) (o : Outcome A) → Keeps I (fail_marked C s t o)
  unfolding fail_marked
  Keeps-fail_marked marks s t (ok a) = Keeps-pure a
  Keeps-fail_marked marks s t (err e) = Keeps-then (Keeps-mark marks _ _ _) (Keeps-fail _)
  Keeps-fail_marked marks s t panic = Keeps-crash

  pub Keeps-marking :
      {A : Type 0}
      → Marks I
      → (s t : String) {m : M (Run C) A} → Keeps I m
      → Keeps I (marking C s t m)
  unfolding marking
  Keeps-marking marks s t h = Keeps-bind (Keeps-attempt h) (Keeps-fail_marked marks s t)

  pub Keeps-finish : Marks I → Keeps I (finish C)
  unfolding finish
  Keeps-finish marks =
      Keeps-then (Keeps-mark marks _ _ _) (Keeps-bind Keeps-get_obj λ o. Keeps-pure _)
