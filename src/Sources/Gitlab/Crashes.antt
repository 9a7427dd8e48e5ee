-- ===== src/Sources/Gitlab/Crashes.antt =====
-- The deferred `body.Close()` runs also when the call before it has returned a nil body with its
-- error, and panics then.
use crd_bootstrap.Base.{
  String, ◌≡◌, refl, Option, some, M, Outcome, Error, ok, err, panic, ◌>>=◌, resume, caught,
  deferring, join_outcome, wrapping, wrap, map_err, [],
}
use crd_bootstrap.Api
use crd_bootstrap.Api.{Bootstrap}
use crd_bootstrap.Platform.{Semver, Platform, Body}
use crd_bootstrap.Platform.World.{World}
use crd_bootstrap.Sources.Http.{ClientRef, choose_client, set_timeout}
use crd_bootstrap.Sources.Gitlab.{
  timeout, latest_url, fetch_url_content, close_reader, get_latest_version, has_update_selected,
}
use crd_bootstrap.Sources.{Contract}

module _ {P : Platform} where
  -- For any use of the body: the error is not returned, the function panics.
  attempt-crash :
      {A : Type 0} (use_body : Outcome Body → M (World P) A) (p : Outcome Body × World P)
      (e : Error)
      → p.0 ≡ err e
      → (resume (λ b. deferring (close_reader b) (use_body b)) (caught p.0, p.1)).0 ≡ panic
  unfolding close_reader ◌>>=◌
  attempt-crash use_body (ok b, w) e h = cc
  attempt-crash {A} use_body (err x, w) e h = joined (use_body (err x) w).0
    where
      joined : (o : Outcome A) → join_outcome o panic ≡ panic
      joined (ok a) = refl
      joined (err y) = refl
      joined panic = refl
  attempt-crash use_body (panic, w) e h = refl

  wrapped-panic :
      {A B : Type 0} (text : String) (f : A → M (World P) B) (m : M (World P) A) (w : World P)
      → (m w).0 ≡ panic
      → ((wrapping text [] m >>= f) w).0 ≡ panic
  unfolding ◌>>=◌
  wrapped-panic {A} text f m w h = crashed (m w) h
    where
      crashed :
          (p : Outcome A × World P)
          → p.0 ≡ panic
          → (resume f (map_err (wrap text []) p.0, p.1)).0 ≡ panic
      crashed (ok a, s) h = cc
      crashed (err x, s) h = cc
      crashed (panic, s) h = refl

module _ {P : Platform} (g : Api.Gitlab) (obj : Bootstrap) (w w1 w2 : World P)
    (chosen c : ClientRef P) (e : Error) where
  get_latest_version-panics :
      choose_client g.secret_ref obj.namespace w ≡ (ok chosen, w1)
      → set_timeout timeout chosen w1 ≡ (ok c, w2)
      → (fetch_url_content c (latest_url g) w2).0 ≡ err e
      → (get_latest_version g obj w).0 ≡ panic
  unfolding get_latest_version ◌>>=◌
  get_latest_version-panics first second third =
      rw (first, second) (attempt-crash _ (fetch_url_content c (latest_url g) w2) e third)

  -- If the GitLab source has its client, and the request for the latest release fails, because of
  -- the URL, the network or the status of the response, then `HasUpdate` does not return the error:
  -- it panics. So it does whatever the next source, the constraint and the applied revision are.
  pub has_update_selected-panics :
      (S : Semver) (next : Option (Contract P))
      → choose_client g.secret_ref obj.namespace w ≡ (ok chosen, w1)
      → set_timeout timeout chosen w1 ≡ (ok c, w2)
      → (fetch_url_content c (latest_url g) w2).0 ≡ err e
      → (has_update_selected S next (some g) obj w).0 ≡ panic
  unfolding has_update_selected
  has_update_selected-panics S next first second third =
      wrapped-panic _ _ (get_latest_version g obj) w (get_latest_version-panics first second third)
