-- ===== src/Sources/Chain/Links.antt =====
-- Sources as links of a chain: each answers for its part of the spec, and else the next one does.
use crd_bootstrap.Base.{
  String, Bool, ◌≡◌, sym, ap, ◌∙◌, Option, none, some, M, ◌>>=◌, from, deref, fail, msg, [],
  from_deref,
}
use crd_bootstrap.Base.FilePath.{FilePath}
use crd_bootstrap.Api
use crd_bootstrap.Api.{Bootstrap}
use crd_bootstrap.Platform.{Platform}
use crd_bootstrap.Platform.World.{World}
use crd_bootstrap.Sources.{Contract}

module _ {P : Platform} where
  -- One source does for an object what the other does.
  pub record Agree (obj : Bootstrap) (c d : Contract P) : Type 0 where
    pub updates : c.has_update obj ≡ d.has_update obj
    pub fetches :
        (base : FilePath) (revision : String)
        → c.fetch_crd base obj revision ≡ d.fetch_crd base obj revision

  -- A source that refuses every object.
  abbrev pub refusing : String → String → Contract P
  refusing update_text fetch_text = record {
    fetch_crd = λ base obj revision. fail (msg fetch_text []);
    has_update = λ obj. fail (msg update_text []);
  }

  -- A source that answers where its part of the spec is there, and else passes on.
  pub record Selects {A : Type 0} (part : Api.Source → Option A)
      (make : Option (Contract P) → Contract P) : Type 0 where
    pub passes :
        (n : Contract P) (source : Api.Source) (obj : Bootstrap)
        → obj.spec.source ≡ some source
        → part source ≡ none
        → Agree obj (make (some n)) n
    pub stands :
        (n : Contract P) (source : Api.Source) (obj : Bootstrap) (a : A)
        → obj.spec.source ≡ some source
        → part source ≡ some a
        → Agree obj (make (some n)) (make none)

  -- `make next` reads the part of the spec, and then runs `update` or `fetch` on it.
  pub Selects-of :
      {A : Type 0} (part : Api.Source → Option A) (make : Option (Contract P) → Contract P)
      (update : Option (Contract P) → Option A → Bootstrap → M (World P) (Bool × String))
      (fetch : Option (Contract P)
        → Option A
        → FilePath
        → Bootstrap
        → String
        → M (World P) FilePath)
      → ((next : Option (Contract P)) (obj : Bootstrap)
          → (make next).has_update obj
            ≡ (from (deref obj.spec.source) >>= λ source. update next (part source) obj))
      → ((next : Option (Contract P)) (base : FilePath) (obj : Bootstrap) (revision : String)
          → (make next).fetch_crd base obj revision ≡ (
              from (deref obj.spec.source) >>= λ source.
              fetch next (part source) base obj revision))
      → ((n : Contract P) (obj : Bootstrap) → update (some n) none obj ≡ n.has_update obj)
      → ((n : Contract P) (base : FilePath) (obj : Bootstrap) (revision : String)
          → fetch (some n) none base obj revision ≡ n.fetch_crd base obj revision)
      → ((n : Contract P) (a : A) (obj : Bootstrap)
          → update (some n) (some a) obj ≡ update none (some a) obj)
      → ((n : Contract P) (a : A) (base : FilePath) (obj : Bootstrap) (revision : String)
          → fetch (some n) (some a) base obj revision ≡ fetch none (some a) base obj revision)
      → Selects part make
  Selects-of {A} part make update fetch updates fetches update_none fetch_none update_some
        fetch_some =
      record {
        passes = λ n source obj e absent. record {
          updates = updated (some n) source obj e _ absent ∙ update_none n obj;
          fetches = λ base revision.
              fetched (some n) source obj e _ absent base revision ∙ fetch_none n base obj revision;
        };
        stands = λ n source obj a e present. record {
          updates =
              updated (some n) source obj e _ present
              ∙ update_some n a obj
              ∙ sym (updated none source obj e _ present);
          fetches = λ base revision.
              fetched (some n) source obj e _ present base revision
              ∙ fetch_some n a base obj revision
              ∙ sym (fetched none source obj e _ present base revision);
        };
      }
    where
      updated :
          (next : Option (Contract P)) (source : Api.Source) (obj : Bootstrap)
          → obj.spec.source ≡ some source
          → (o : Option A) → part source ≡ o
          → (make next).has_update obj ≡ update next o obj
      updated next source obj e o h =
          updates next obj ∙ from_deref _ source _ e ∙ ap (λ x. update next x obj) h

      fetched :
          (next : Option (Contract P)) (source : Api.Source) (obj : Bootstrap)
          → obj.spec.source ≡ some source
          → (o : Option A) → part source ≡ o
          → (base : FilePath) (revision : String)
          → (make next).fetch_crd base obj revision ≡ fetch next o base obj revision
      fetched next source obj e o h base revision =
          fetches next base obj revision
          ∙ from_deref _ source _ e
          ∙ ap (λ x. fetch next x base obj revision) h

  pub Agree-trans :
      {obj : Bootstrap} {c d e : Contract P} → Agree obj c d → Agree obj d e → Agree obj c e
  Agree-trans a b = record {
    updates = a.updates ∙ b.updates;
    fetches = λ base revision. a.fetches base revision ∙ b.fetches base revision;
  }
