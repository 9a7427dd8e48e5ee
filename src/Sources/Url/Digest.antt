-- ===== src/Sources/Url/Digest.antt =====
-- When the URL source reports an update: by digests.
use crd_bootstrap.Base.{
  String, ◌≡◌, refl, ap, ◌≢◌, ◌↔◌, Bool, true, Option, some, ◌⊎◌, ok, eq_iff, arith,
}
use crd_bootstrap.Base.Keeps.{Yields, Yields-bind, Yields-deferring, Yields-pure}
use crd_bootstrap.Api
use crd_bootstrap.Api.{Bootstrap}
use crd_bootstrap.Platform.{Platform}
use crd_bootstrap.Platform.World.{World}
use crd_bootstrap.Sources.{Contract}
use crd_bootstrap.Sources.Url.{compare_digest, has_update_selected}

-- The digest `sum` is to be installed for this object: it is the one that the spec demands, or
-- the spec demands none and it differs from the one that is applied.
abbrev pub IsWanted : Bootstrap → String → Type 0
IsWanted obj sum =
    ((obj.spec.version.digest ≢ "") × (sum ≡ obj.spec.version.digest))
    ⊎ ((obj.spec.version.digest ≡ "") × (obj.status.last_applied_revision ≢ sum))

-- The answer is "update" exactly for a wanted digest, and then the revision is that digest.
pub compare_digest_iff :
    (obj : Bootstrap) (sum r : String)
    → (compare_digest obj sum ≡ (true, r)) ↔ (IsWanted obj sum × (r ≡ sum))
unfolding compare_digest
compare_digest_iff obj sum r = ground (
  arith,
  eq_iff obj.spec.version.digest "",
  eq_iff obj.spec.version.digest sum,
  eq_iff obj.status.last_applied_revision sum,
)

module _ {P : Platform} (next : Option (Contract P)) where
  -- An update that the URL source reports for an object has as its revision the SHA-256 digest of
  -- some content, and that digest is wanted: demanded by the spec, or new where none is demanded.
  pub has_update_selected-IsWanted :
      (u : Api.Url) (obj : Bootstrap) (w : World P) (revision : String)
      → (has_update_selected next (some u) obj w).0 ≡ ok (true, revision)
      → (content : String) × (revision ≡ P.sha256_hex content) × IsWanted obj revision
  unfolding has_update_selected
  has_update_selected-IsWanted u obj w revision e = wanted.of w (true, revision) e refl
    where
      R : Bool × String → Type 0
      R a = a.0 ≡ true → (content : String) × (a.1 ≡ P.sha256_hex content) × IsWanted obj a.1

      wanted : Yields R (has_update_selected next (some u) obj)
      wanted = Yields-bind _ λ dir. Yields-deferring _ (
          Yields-bind _ λ _. Yields-bind _ λ _. Yields-bind _ λ content. Yields-pure _ λ update.
            let (wanted_sum, same) =
              (compare_digest_iff obj (P.sha256_hex content) _).0
                (ap (λ b. (b, (compare_digest obj (P.sha256_hex content)).1)) update) in
            (content, same, rw same wanted_sum))
