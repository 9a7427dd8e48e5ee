-- ===== src/Controller/Advance/Stages.antt =====
-- The stages of an update, in continuation style: what holds where the revision is untouched, and of
-- a whole update, holds at the end of each stage.
use crd_bootstrap.Base.{
  ℕ, String, ◌≡◌, refl, Bool, true, false, Option, none, some, List, [], ◌∷◌, M, ◌∙◌, Outcome, ok,
  err, panic, ◌>>=◌, resume, caught, map, map_err, map_err-eq-ok, wrap, wrapping, deferring,
}
use crd_bootstrap.Base.Dict.{Dict}
use crd_bootstrap.Base.FilePath.{FilePath}
use crd_bootstrap.Api.{Bootstrap}
use crd_bootstrap.Platform.{Platform}
use crd_bootstrap.Platform.World.{World, outside}
use crd_bootstrap.Platform.Os.{mkdir_temp, remove_tree}
use crd_bootstrap.Breaking.{OpenApi}
use crd_bootstrap.Sources.{Contract}
use crd_bootstrap.Controller.{Cluster, Run, applied, within, api, note, get_obj, set_obj}
use crd_bootstrap.Controller.Objects.{
  read_objects, label, detect_changes, count_names, count_applied, manager_config,
  new_resource_manager,
}
use crd_bootstrap.Controller.Checks.{gate_breaking_lem, gate_validation_lem}
use crd_bootstrap.Controller.Reconcile.{
  fail_marked, marking, finish, set_attempted, set_breaking, apply_objects, apply_checked,
  check_and_apply, install_from, install, proceed, update_object,
}
use crd_bootstrap.Controller.Advance.{known, recorded, IsApplied, IsInstalled, IsUpdated}

module _ {P : Platform} {O : OpenApi} (C : Cluster P O) where
  -- What holds where the revision has not been touched, and of more.
  module _ (last : String) (J : Run C → Type 0)
      (kept : (r : Run C) → recorded C r ≡ last → J r) where
    stepped :
        {A B : Type 0} (s t : String) (p : Outcome A × Run C) (f : A → M (Run C) B)
        → recorded C p.1 ≡ last
        → ((a : A) → p.0 ≡ ok a → J (f a p.1).1)
        → J (resume f (resume (fail_marked C s t) (caught p.0, p.1))).1
    unfolding fail_marked set_obj ◌>>=◌
    stepped s t (ok a, r) f e h = h a refl
    stepped s t (err x, r) f e h = kept _ e
    stepped s t (panic, r) f e h = kept r e

    -- A step that ends the run, with a mark, unless it succeeds.
    within_lem :
        {A B : Type 0} (s t : String) (m : M (World P) A) (f : A → M (Run C) B) (r : Run C)
        → recorded C r ≡ last
        → ((a : A) (w : World P) → m r.world ≡ (ok a, w) → J (f a (record r { world = w })).1)
        → J ((marking C s t (within m) >>= f) r).1
    unfolding marking within ◌>>=◌
    within_lem s t m f r e h =
        stepped s t ((m r.world).0, record r { world = (m r.world).1 }) f e
          λ a k. h a _ (known m r.world k)

    api_lem :
        {A B : Type 0} (s t text : String) (m : M P.Outside A) (f : A → M (Run C) B) (r : Run C)
        → recorded C r ≡ last
        → ((a : A) (o : P.Outside)
            → m r.world.outside ≡ (ok a, o)
            → J (f a (record r { world = record r.world { outside = o } })).1)
        → J ((marking C s t (wrapping text [] (api m)) >>= f) r).1
    unfolding marking within outside wrapping ◌>>=◌
    api_lem s t text m f r e h =
        stepped s t
          (
            map_err (wrap text []) (m r.world.outside).0,
            record r { world = record r.world { outside = (m r.world.outside).1 } },
          )
          f e λ a k. h a _ (known m r.world.outside (map_err-eq-ok _ _ k))

    apply_objects_lem :
        (sm : C.Manager) (objects : List C.Object) (revision : String) (names : Dict ℕ) (r : Run C)
        → recorded C r ≡ last
        → ((t : Run C)
            → IsApplied C sm objects revision r.world.outside r.calls t.calls (recorded C t)
            → J t)
        → J (apply_objects C sm objects names revision r).1
    unfolding apply_objects note set_obj finish get_obj ◌>>=◌
    apply_objects_lem sm objects revision names r e done =
        api_lem _ _ _ (C.apply_all_staged sm objects) _
          (record r { calls = applied sm objects ∷ r.calls }) e
          λ _ applied_at applies. api_lem _ _ _ (C.wait sm objects) _ _ e λ _ waited_at waits.
            done _ (record {
              applied_at = applied_at;
              waited_at = waited_at;
              applies = applies;
              waits = waits;
              calls = refl;
              records = refl;
            })

    apply_checked_lem :
        (sm : C.Manager) (objects : List C.Object) (revision : String) (names : Dict ℕ)
        (changes : List String) (r : Run C)
        → recorded C r ≡ last
        → ((t : Run C)
            → IsApplied C sm objects revision r.world.outside r.calls t.calls (recorded C t)
            → J t)
        → J (apply_checked C sm objects names revision changes r).1
    unfolding apply_checked set_obj ◌>>=◌
    apply_checked_lem sm objects revision names changes r e done =
        gate_breaking_lem J _ changes s (λ a b. kept _ e) refl
          λ _.
            gate_validation_lem J _ objects s (λ a b. kept _ e) (kept s e)
              λ _. apply_objects_lem sm objects revision names s e done
      where
        s : Run C
        s = record r { obj = set_breaking changes r.obj }

    counting_lem :
        {B : Type 0} (counts : Option (Dict ℕ)) (names : List String) (f : Dict ℕ → M (Run C) B)
        (r : Run C)
        → ((n : Dict ℕ) (obj : Bootstrap)
            → obj.status.last_applied_revision ≡ recorded C r
            → J (f n (record r { obj = obj })).1)
        → J ((count_names C counts names >>= f) r).1
    unfolding count_names set_obj ◌>>=◌
    counting_lem none names f r h = h _ r.obj refl
    counting_lem (some counts) names f r h = h _ _ refl

    check_and_apply_lem :
        (sm : C.Manager) (objects : List C.Object) (revision : String) (r : Run C)
        → recorded C r ≡ last
        → ((changes : List String) (x : World P) (t : Run C)
            → detect_changes C objects [] r.world ≡ (ok changes, x)
            → IsApplied C sm objects revision x.outside r.calls t.calls (recorded C t)
            → J t)
        → J (check_and_apply C sm objects revision r).1
    unfolding check_and_apply count_applied get_obj ◌>>=◌
    check_and_apply_lem sm objects revision r e done =
        counting_lem r.obj.status.last_applied_crd_names (map C.get_name objects) _ r λ n obj same.
          within_lem _ _ (detect_changes C objects []) _ (record r { obj = obj }) (same ∙ e)
            λ changes x detected.
              apply_checked_lem sm objects revision n changes _ (same ∙ e)
                λ t done_so. done changes x t detected done_so

    install_from_lem :
        (source_provider : Contract P) (account : String) (location : FilePath) (revision : String)
        (r : Run C)
        → recorded C r ≡ last
        → ((t : Run C)
            → IsInstalled C account r.obj location revision r.world r.calls t.calls (recorded C t)
            → J t)
        → J (install_from C source_provider account location revision r).1
    unfolding install_from new_resource_manager get_obj ◌>>=◌
    install_from_lem source_provider account location revision r e done =
        api_lem _ _ _ (C.new_manager (manager_config C account r.obj)) _ r e
          λ sm managed_at manages. within_lem _ _ (read_objects C location) _ _ e λ crds w reads.
            check_and_apply_lem sm (map (label C r.obj.name) crds) revision _ e
              λ changes x t detects applies. done t (record {
                sm = sm;
                managed_at = managed_at;
                manages = manages;
                crds = crds;
                w = w;
                reads = reads;
                changes = changes;
                x = x;
                detects = detects;
                applies = applies;
              })

  module _ (source_provider : Contract P) (account last : String) (J : Run C → Type 0)
      (kept : (r : Run C) → recorded C r ≡ last → J r) where
    install_lem :
        (revision : String) (start : World P) (r : Run C)
        → recorded C r ≡ last
        → source_provider.has_update r.obj start ≡ (ok (true, revision), r.world)
        → ((t : Run C)
            → IsUpdated C source_provider account r.obj start r.calls t.calls (recorded C t)
            → J t)
        → J (install C source_provider account revision r).1
    unfolding install get_obj set_obj deferring within ◌>>=◌
    install_lem revision start r e finds done =
        within_lem last J kept _ _ (mkdir_temp "crd") _
          (record r { obj = set_attempted revision r.obj }) e
          λ temp y makes.
            within_lem last J kept _ _
              (source_provider.fetch_crd temp (set_attempted revision r.obj) revision) _ _ e
              λ location v fetches.
                install_from_lem last (λ t. J (record t { world = (remove_tree temp t.world).1 }))
                  (λ t k. kept _ k) source_provider account location revision _ e
                  λ t installs. done _ (record {
                    revision = revision;
                    u = r.world;
                    finds = finds;
                    temp = temp;
                    y = y;
                    makes = makes;
                    location = location;
                    v = v;
                    fetches = fetches;
                    installs = installs;
                  })

    proceed_lem :
        (p : Outcome (Bool × String) × World P) (r : Run C) (text : String)
        → recorded C r ≡ last
        → source_provider.has_update r.obj r.world ≡ p
        → ((t : Run C)
            → IsUpdated C source_provider account r.obj r.world r.calls t.calls (recorded C t)
            → J t)
        → J
            (resume
              (proceed C source_provider account)
              (map_err (wrap text []) p.0, record r { world = p.1 })).1
    unfolding proceed finish set_obj get_obj ◌>>=◌
    proceed_lem (ok (true, revision), w) r text e finds done =
        install_lem revision r.world (record r { world = w }) e finds done
    proceed_lem (ok (false, revision), w) r text e finds done = kept _ e
    proceed_lem (err _, w) r text e finds done = kept _ e
    proceed_lem (panic, w) r text e finds done = kept _ e

    pub update_object_lem :
        (r : Run C)
        → recorded C r ≡ last
        → ((t : Run C)
            → IsUpdated C source_provider account r.obj r.world r.calls t.calls (recorded C t)
            → J t)
        → J (update_object C source_provider account r).1
    unfolding update_object within wrapping get_obj ◌>>=◌
    update_object_lem r e done =
        proceed_lem (source_provider.has_update r.obj r.world) r "failed to check version" e refl
          done
