-- ===== src/Sources/Gitlab/Fetch.antt =====
-- What a successful fetch of the GitLab source leaves behind.
use crd_bootstrap.Base.{
  String, ◌≡◌, ap, ◌∙◌, none, some, List, [], ok, err, panic, Outcome, M, map_err-eq-ok,
  ok-injective, map_err, wrap, caught, attempt, ◌>>=◌,
}
use crd_bootstrap.Base.Returns.{Returns}
use crd_bootstrap.Base.FilePath.{FilePath, file}
use crd_bootstrap.Api
use crd_bootstrap.Platform.{Platform, Body, Link}
use crd_bootstrap.Platform.World.{World, find_node}
use crd_bootstrap.Sources.Http.{ClientRef}
use crd_bootstrap.Sources.Gitlab.Assets.{IsFirst}
use crd_bootstrap.Sources.Gitlab.{release_url, fetch_url_content}

caught-eq-ok {ℓ} : {A : Type ℓ} (x : Outcome A) (a : A) → caught x ≡ ok (ok a) → x ≡ ok a
caught-eq-ok (ok b) a e = ok-injective e
caught-eq-ok (err x) a e = cc
caught-eq-ok panic a e = cc

-- A call whose outcome is looked at later, and was a value.
attempt-eq-ok {ℓ κ} :
    {S : Type ℓ} {A : Type κ} (m : M S A) (s : S) (o : Outcome A) (a : A)
    → (attempt m s).0 ≡ ok o
    → o ≡ ok a
    → (m s).0 ≡ ok a
unfolding ◌>>=◌
attempt-eq-ok m s o a e h = caught-eq-ok (m s).0 a (e ∙ ap ok h)

module _ {P : Platform} where
  -- The whole content that the server sends for an address, with a status of success.
  pub record IsReceived (c : ClientRef P) (address : String) (b : Body) : Type 0 where
    pub before : World P
    pub answered : (fetch_url_content c address before).0 ≡ ok b
    pub complete : b.read_error ≡ none

  -- A release whose first link with the manifest's name leads to the content of the file.
  pub record IsReleased (g : Api.Gitlab) (version : String) (path : FilePath) (t : World P)
      : Type 0 where
    pub client : ClientRef P
    pub release : Body
    pub listed : IsReceived client (release_url g version) release
    pub links : List Link
    pub decoded : P.decode_links release.received ≡ ok links
    pub address : String
    pub first : IsFirst g.manifest address links
    pub asset : Body
    pub fetched : IsReceived client address asset
    pub written : find_node path t.files ≡ some (file asset.received)

  received :
      (c : ClientRef P) (address : String) (o : Outcome Body) (b : Body) (w : World P)
      → (attempt (fetch_url_content c address) w).0 ≡ ok o
      → map_err (wrap "failed to download url content" []) o ≡ ok b
      → b.read_error ≡ none
      → IsReceived c address b
  received c address o b w e h complete = record {
    before = w;
    answered = attempt-eq-ok (fetch_url_content c address) w o b e (map_err-eq-ok _ o h);
    complete = complete;
  }

  -- The file holds all that was received from the address.
  abbrev HasAsset : ClientRef P → String → FilePath → Unit {0} → World P → Type 0
  HasAsset c address path u t =
      (b : Body) × IsReceived c address b × (find_node path t.files ≡ some (file b.received))
