-- ===== src/Sources/Http.antt =====
-- pkg/source/auth/authenticated_client.go, and the use of HTTP clients by the sources.
use crd_bootstrap.Base.{
  ℕ, String, Option, none, some, [], M, pure, from, wrapping, or_fail, msg, ◌>>=◌, ok,
}
use crd_bootstrap.Base.Dict.{lookup}
use crd_bootstrap.Api.{LocalObjectReference}
use crd_bootstrap.Platform.{Platform, Response}
use crd_bootstrap.Platform.World.{World, outside}

-- A pointer to a client: that of the process, or one made for this call.
pub data ClientRef (P : Platform) : Type 0 where
  shared : ClientRef P
  owned : P.Client → ClientRef P

module _ {P : Platform} where
  unfoldable pub construct_authenticated_client : String → String → M (World P) (ClientRef P)
  unfolding lookup
  construct_authenticated_client name namespace = do
    secret ←
        wrapping "failed to find secret ref for token" [] (outside (P.get_secret name namespace))
    token ← from (or_fail (msg "token key not found in provided secret" []) (lookup "token" secret))
    pure (owned (P.oauth_client token))

  -- The client of a source: its own, or an authenticated one if there is a reference to a secret.
  unfoldable pub choose_client : Option LocalObjectReference → String → M (World P) (ClientRef P)
  unfolding construct_authenticated_client
  choose_client none namespace = pure shared
  choose_client (some r) namespace =
      wrapping "failed to construct authenticated client" []
        (construct_authenticated_client r.name namespace)

  -- `c.Timeout = duration`, through the pointer.
  unfoldable pub set_timeout : ℕ → ClientRef P → M (World P) (ClientRef P)
  set_timeout duration shared w =
      (ok shared, record w { client = P.with_timeout duration w.client })
  set_timeout duration (owned c) w = (ok (owned (P.with_timeout duration c)), w)

  -- `c.Do(req)` for a GET request.
  unfoldable pub do_request : ClientRef P → String → M (World P) Response
  do_request shared url w = outside (P.http_do w.client url) w
  do_request (owned c) url w = outside (P.http_do c url) w
