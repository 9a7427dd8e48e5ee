-- ===== src/Sources/Gitlab/Assets.antt =====
-- The choice of a release's asset link.
use crd_bootstrap.Base.{
  String, ◌≡◌, refl, ap, ◌∙◌, true, false, ◌≢◌, List, [], ◌∷◌, ◌++◌, All, eq_iff, ◌==◌, Bool-cases,
  inl, inr, arith,
}
use crd_bootstrap.Platform.{Link}
use crd_bootstrap.Sources.Gitlab.{find_asset}

-- The link that the loop stops at.
pub record IsFirst (manifest url : String) (links : List Link) : Type 0 where
  pub before : List Link
  pub link : Link
  pub after : List Link
  pub split : links ≡ before ++ link ∷ after
  pub others : All (λ l. l.name ≢ manifest) before
  pub name : link.name ≡ manifest
  pub address : link.url ≡ url

-- A URL that is not empty is that of the first link whose name is the manifest's.
pub find_asset-IsFirst :
    (manifest : String) (links : List Link)
    → find_asset manifest links ≢ ""
    → IsFirst manifest (find_asset manifest links) links
unfolding find_asset
find_asset-IsFirst manifest [] h = absurd (h refl)
find_asset-IsFirst manifest (l ∷ links) h = elim (Bool-cases (l.name == manifest)) [
  | inl same ↦ record {
    before = [];
    link = l;
    after = links;
    split = refl;
    others = tt;
    name = (eq_iff l.name manifest).0 same;
    address = rw same;
  }
  | inr other ↦
      let rest = find_asset-IsFirst manifest links (λ e. h (rw other e)) in
      record {
        before = l ∷ rest.before;
        link = rest.link;
        after = rest.after;
        split = ap (λ x. l ∷ x) rest.split;
        others = (ground (arith, eq_iff l.name manifest), rest.others);
        name = rest.name;
        address = rw other rest.address;
      }
]

found_lem :
    (manifest : String) (before : List Link) (link : Link) (after : List Link)
    → All (λ l. l.name ≢ manifest) before
    → link.name ≡ manifest
    → find_asset manifest (before ++ link ∷ after) ≡ link.url
unfolding find_asset
found_lem manifest [] link after others name =
    let same : (link.name == manifest) ≡ true = ground (arith, eq_iff link.name manifest) in
    rw same refl
found_lem manifest (l ∷ before) link after others name =
    let other : (l.name == manifest) ≡ false = ground (arith, eq_iff l.name manifest, others.0) in
    rw other (found_lem manifest before link after others.1 name)

pub find_asset_of_IsFirst :
    (manifest url : String) (links : List Link)
    → IsFirst manifest url links
    → find_asset manifest links ≡ url
find_asset_of_IsFirst manifest url links f =
    rw f.split (found_lem manifest f.before f.link f.after f.others f.name ∙ f.address)
