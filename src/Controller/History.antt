-- ===== src/Controller/History.antt =====
-- The life of a Bootstrap as runs of the controller with anything in between that leaves the applied
-- revision alone.
use mathlib.Core.Path.{subst}
use crd_bootstrap.Base.{String, ◌≡◌, refl, sym, ap, some, inl, inr}
use crd_bootstrap.Api
use crd_bootstrap.Api.{Bootstrap}
use crd_bootstrap.Platform.{Semver, IsOrdered, Platform}
use crd_bootstrap.Breaking.{OpenApi}
use crd_bootstrap.Sources.{Contract}
use crd_bootstrap.Sources.Forward.{IsForward}
use crd_bootstrap.Sources.Decide.Order.{IsLater, IsLater-trans, IsNewer-IsLater}
use crd_bootstrap.Controller.{Cluster, Run}
use crd_bootstrap.Controller.Progress.{reconcile_live-IsAdvanced}
use crd_bootstrap.Controller.Reconcile.{add_finalizer, reconcile_live}

module _ {P : Platform} {O : OpenApi} (C : Cluster P O) (source_provider : Contract P)
    (default_service_account : String) (V : Api.Source → Type 0) where
  -- One step of the object: a run in any world, on a source that `V` allows; or an edit of the
  -- object by others, to the constraint and to the source too, that keeps the applied revision.
  pub data Step : Bootstrap → Bootstrap → Type 0 where
    reconciled :
        {a b : Bootstrap} (r : Run C) (source : Api.Source)
        → a ≡ r.obj
        → r.obj.spec.source ≡ some source
        → V source
        → b ≡ (reconcile_live C source_provider default_service_account r).1.obj
        → Step a b
    edited :
        {a b : Bootstrap}
        → a.status.last_applied_revision ≡ b.status.last_applied_revision
        → Step a b

  pub data Reach (a : Bootstrap) : Bootstrap → Type 0 where
    here : Reach a a
    next : {b c : Bootstrap} → Reach a b → Step b c → Reach a c

module _ {P : Platform} {O : OpenApi} (C : Cluster P O) (source_provider : Contract P)
    (default_service_account : String) (V : Api.Source → Type 0) (S : Semver) (order : IsOrdered S)
    (forward : IsForward S V source_provider) where
  abbrev IsLaterObject : Bootstrap → Bootstrap → Type 0
  IsLaterObject a b = IsLater S a.status.last_applied_revision b.status.last_applied_revision

  reconcile_live-later :
      (r : Run C) (source : Api.Source)
      → r.obj.spec.source ≡ some source
      → V source
      → IsLaterObject r.obj (reconcile_live C source_provider default_service_account r).1.obj
  reconcile_live-later r source e v =
      elim (reconcile_live-IsAdvanced C source_provider default_service_account r) [
        | inl same ↦ inl (sym same)
        | inr advanced ↦
            subst (IsLater S r.obj.status.last_applied_revision)
              (sym advanced.updates.installs.applies.records)
              (IsNewer-IsLater S order (add_finalizer C r.obj) _ (
                (forward.newer source (add_finalizer C r.obj) e v).of r.world _
                  (ap (λ p. p.0) advanced.updates.finds) refl))
      ]

  Step-later :
      {a b : Bootstrap} → Step C source_provider default_service_account V a b → IsLaterObject a b
  Step-later {b} (reconciled r source from_run e v to_run) =
      subst (λ x. IsLaterObject x b) (sym from_run)
        (subst (λ x. IsLaterObject r.obj x) (sym to_run) (reconcile_live-later r source e v))
  Step-later (edited e) = inl e

  -- The applied revision only rolls forward, if versions are ordered. Along any history of runs, on sources that report newer versions only, and of edits
  -- that keep the applied revision, it is at the end what it was, or it was empty at the start, or
  -- both are versions and the one at the end is greater.
  pub Reach-IsLater :
      {a b : Bootstrap}
      → Reach C source_provider default_service_account V a b
      → IsLater S a.status.last_applied_revision b.status.last_applied_revision
  Reach-IsLater here = inl refl
  Reach-IsLater (next reached step) =
      IsLater-trans S order _ _ _ (Reach-IsLater reached) (Step-later step)
