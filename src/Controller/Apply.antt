-- ===== src/Controller/Apply.antt =====
-- The last steps of an update: the apply, the wait, and what they record.
use crd_bootstrap.Base.{ℕ, String, List, ◌∷◌, ◌>>=◌}
use crd_bootstrap.Base.Keeps.{Leads-then, Keeps-wrapping}
use crd_bootstrap.Base.Dict.{Dict}
use crd_bootstrap.Platform.{Platform}
use crd_bootstrap.Breaking.{OpenApi}
use crd_bootstrap.Controller.{Cluster, Run, applied, note, set_obj}
use crd_bootstrap.Controller.Keeps.{IsStable, Keeps-within, Keeps-marking, Keeps-finish}
use crd_bootstrap.Controller.Reconcile.{set_applied, apply_objects}

module _ {P : Platform} {O : OpenApi} {C : Cluster P O} where
  -- What holds after `apply_objects`: `Q` from the noted apply to the end, if it does not succeed.
  pub apply_objects_lem :
      {Q J : Run C → Type 0}
      → IsStable Q
      → IsStable J
      → ((r : Run C) → Q r → J r)
      → (sm : C.Manager) (objects : List C.Object) (names : Dict ℕ) (revision : String)
      → ((r : Run C) → Q r → J (record r { obj = set_applied names revision r.obj }))
      → (r : Run C) → Q (record r { calls = applied sm objects ∷ r.calls })
      → J (apply_objects C sm objects names revision r).1
  unfolding apply_objects note set_obj ◌>>=◌
  apply_objects_lem stable stable_after weaken sm objects names revision recorded r noted =
      (Leads-then weaken
          (Keeps-marking stable.marks _ _ (Keeps-wrapping _ _ (Keeps-within stable _)))
          (Leads-then weaken
            (Keeps-marking stable.marks _ _ (Keeps-wrapping _ _ (Keeps-within stable _)))
            (record { to = λ t q. (Keeps-finish stable_after.marks).at _ (recorded t q) }))).to
        _ noted
