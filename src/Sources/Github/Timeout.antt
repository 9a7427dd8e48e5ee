-- ===== src/Sources/Github/Timeout.antt =====
-- What a question for the latest release does to the client that all sources share.
use crd_bootstrap.Base.{
  String, ◌≡◌, refl, ◌∙◌, Option, none, some, M, from, wrapping, wrap, map_err, resume, Outcome, ok,
  err, panic, Bool, [], ◌>>=◌,
}
use crd_bootstrap.Base.Keeps.{
  Keeps, Keeps-bind, Keeps-then, Keeps-from, Keeps-wrapping, Keeps-deferring, Keeps-pure,
}
use crd_bootstrap.Api
use crd_bootstrap.Api.{Bootstrap}
use crd_bootstrap.Platform.{Semver, Platform, Body}
use crd_bootstrap.Platform.World.{World, outside}
use crd_bootstrap.Platform.Os.{close_body}
use crd_bootstrap.Sources.{Contract}
use crd_bootstrap.Sources.Http.{ClientRef, shared, owned, choose_client, set_timeout, do_request}
use crd_bootstrap.Sources.Github.{timeout, ask_latest, get_latest_version, has_update_selected}

module _ {P : Platform} where
  -- The client of the process.
  abbrev HasClient : P.Client → World P → Type 0
  HasClient k w = w.client ≡ k

  Keeps-do_request :
      (k : P.Client) (c : ClientRef P) (url : String) → Keeps (HasClient k) (do_request c url)
  unfolding do_request outside
  Keeps-do_request k shared url = record { at = λ w h. h }
  Keeps-do_request k (owned c) url = record { at = λ w h. h }

  Keeps-close_body : (k : P.Client) (b : Body) → Keeps (HasClient k) (close_body b)
  unfolding close_body
  Keeps-close_body k b = Keeps-from _

  Keeps-ask_latest :
      (k : P.Client) (g : Api.Github) (c : ClientRef P) → Keeps (HasClient k) (ask_latest g c)
  unfolding ask_latest
  Keeps-ask_latest k g c = Keeps-then (Keeps-wrapping _ _ (Keeps-from _)) (
      Keeps-bind (Keeps-wrapping _ _ (Keeps-do_request k c _)) λ res.
        Keeps-deferring (Keeps-close_body k res.body) (
          Keeps-then (Keeps-from _) (
            Keeps-bind (Keeps-wrapping _ _ (Keeps-from _))
              λ tag. Keeps-then (Keeps-from _) (Keeps-pure _))))

  latest-client :
      (g : Api.Github) (obj : Bootstrap) (w : World P)
      → g.secret_ref ≡ none
      → (get_latest_version g obj w).1.client ≡ P.with_timeout timeout w.client
  unfolding get_latest_version choose_client set_timeout ◌>>=◌
  latest-client g obj w plain = rw plain (
      (Keeps-ask_latest (P.with_timeout timeout w.client) g shared).at
        (record w { client = P.with_timeout timeout w.client }) refl)

  decided-client :
      (f : String → Outcome (Bool × String)) (m : M (World P) String) (w : World P)
      → ((wrapping "failed to retrieve latest version for github" [] m >>= λ x. from (f x))
          w).1.client
        ≡ (m w).1.client
  unfolding ◌>>=◌
  decided-client f m w = after (m w)
    where
      after :
          (p : Outcome String × World P)
          → (resume
              (λ x. from (f x))
              (map_err (wrap "failed to retrieve latest version for github" []) p.0, p.1)).1.client
            ≡ p.1.client
      after (ok x, v) = refl
      after (err e, v) = refl
      after (panic, v) = refl

  -- If the spec of a GitHub source has no reference to a secret, then, whatever the outcome, the
  -- question for an update leaves the client that all sources share with the timeout of 15 seconds.
  pub has_update_selected-client :
      (S : Semver) (next : Option (Contract P)) (g : Api.Github) (obj : Bootstrap) (w : World P)
      → g.secret_ref ≡ none
      → (has_update_selected S next (some g) obj w).1.client
        ≡ P.with_timeout 15_000_000_000 w.client
  unfolding has_update_selected
  has_update_selected-client S next g obj w plain =
      decided-client _ (get_latest_version g obj) w ∙ latest-client g obj w plain
