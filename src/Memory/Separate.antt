-- ===== src/Memory/Separate.antt =====
-- A deep copy of api/v1alpha1/zz_generated.deepcopy.go and its original share nothing: what is
-- written to the cells of the one is not seen in the other.
use crd_bootstrap.Base.{
  ℕ, ◌≤◌, ◌<◌, ◌≡◌, refl, ◌∙◌, arith, M, length, ◌>>=◌, List, [], ◌∷◌, Option, none, some,
}
use crd_bootstrap.Api
use crd_bootstrap.Memory.{Cell, Heap, Ptr, cell_at, set_cell}
use crd_bootstrap.Memory.Shows.{Store, Points, ShowsObject, ShowsList, there}
use crd_bootstrap.Memory.Carry.{IsWithin, IsCarried, carry-Points, object-IsCarried, list-IsCarried}
use crd_bootstrap.Memory.Copy.{Library, IsCopying, copy_pointer}
use crd_bootstrap.Memory.Objects.{
  Object, nil, bootstrap, bootstrap_list, bootstrap_deep_copy, list_deep_copy,
  bootstrap_deep_copy_object, list_deep_copy_object, deep_copy_object, returned,
}
use crd_bootstrap.Memory.Copies.{Copies, copy_pointer-Copies}
use crd_bootstrap.Memory.Copied.{object-Copies, list-Copies}
use crd_bootstrap.Memory.Extends.{
  From, Extends, Gives, gives, Gives-map, Gives-also, Extends-refl, cell_at-<-length,
  cell_at-set_cell,
}

-- Writes to addresses, the first one first.
abbrev pub Writes : Type 0
Writes = List (ℕ × Cell)

abbrev pub write : Writes → Heap → Heap
write [] h = h
write ((a, c) ∷ ws) h = write ws (set_cell a c h)

-- All the addresses written to are old, or all are new, where `k` is the first new one.
pub data IsOld (k : ℕ) : Writes → Type 0 where
  no_old : IsOld k []
  old : {a : ℕ} {c : Cell} {ws : Writes} → a < k → IsOld k ws → IsOld k ((a, c) ∷ ws)

pub data IsNew (k : ℕ) : Writes → Type 0 where
  no_new : IsNew k []
  new : {a : ℕ} {c : Cell} {ws : Writes} → k ≤ a → IsNew k ws → IsNew k ((a, c) ∷ ws)

cell_at-old :
    {k : ℕ} (a : ℕ) (h : Heap) {ws : Writes}
    → IsOld k ws
    → k ≤ a
    → cell_at a (write ws h) ≡ cell_at a h
cell_at-old a h no_old l = refl
cell_at-old a h (old {a = b} {c = c} m o) l =
    cell_at-old a (set_cell b c h) o l ∙ cell_at-set_cell h a b c (λ e. omega (arith, e, l, m))

cell_at-new :
    {k : ℕ} (a : ℕ) (h : Heap) {ws : Writes}
    → IsNew k ws
    → a < k
    → cell_at a (write ws h) ≡ cell_at a h
cell_at-new a h no_new l = refl
cell_at-new a h (new {a = b} {c = c} m o) l =
    cell_at-new a (set_cell b c h) o l ∙ cell_at-set_cell h a b c (λ e. omega (arith, e, l, m))

-- What lies at new addresses does not notice writes to old ones.
old-IsWithin :
    {k : ℕ} {ws : Writes} (g : Heap) → IsOld k ws → IsWithin (From k g) (From k (write ws g))
old-IsWithin g o a c (l, e) = (l, cell_at-old a g o l ∙ e)

-- What was there before does not notice writes to new addresses.
new-IsWithin :
    {h g : Heap} {ws : Writes}
    → Extends h g
    → IsNew (length h) ws
    → IsWithin (From 0 h) (From 0 (write ws g))
new-IsWithin {h} {g} p o a c (l, e) = (l, cell_at-new a g o (cell_at-<-length h a e) ∙ p.kept a c e)

-- A resource, or the resources of a list.
pub data Value : Type 0 where
  resource : Api.Bootstrap → Value
  resources : List Api.Bootstrap → Value

-- What a pointer in an interface shows.
pub data ShowsGiven (S : Store) : Object → Option Value → Type 0 where
  given_nil : ShowsGiven S (bootstrap none) none
  given_nil_list : ShowsGiven S (bootstrap_list none) none
  given :
      {a : ℕ} {v : Api.Bootstrap}
      → Points ShowsObject S (some a) (some v)
      → ShowsGiven S (bootstrap (some a)) (some (resource v))
  given_list :
      {a : ℕ} {vs : List Api.Bootstrap}
      → Points ShowsList S (some a) (some vs)
      → ShowsGiven S (bootstrap_list (some a)) (some (resources vs))

-- What an interface shows that is nil where there is no value.
pub data ShowsResult (S : Store) : Object → Option Value → Type 0 where
  nothing : ShowsResult S nil none
  result :
      {a : ℕ} {v : Api.Bootstrap}
      → Points ShowsObject S (some a) (some v)
      → ShowsResult S (bootstrap (some a)) (some (resource v))
  result_list :
      {a : ℕ} {vs : List Api.Bootstrap}
      → Points ShowsList S (some a) (some vs)
      → ShowsResult S (bootstrap_list (some a)) (some (resources vs))

module _ {h : Heap} {olds news : Writes} (o : IsOld (length h) olds)
    (n : IsNew (length h) news) where
  copy_pointer-Gives :
      {A : Type 0} {R : Store → Cell → A → Type 0} {p : Ptr} {v : Option A} (f : Cell → M Heap Cell)
      → IsCarried R
      → Copies (length h) (Points R) (copy_pointer f)
      → Points R (From 0 h) p v
      → Gives
          (λ g q.
            Points R (From (length h) (write olds g)) q v × Points R (From 0 (write news g)) p v)
          h
          (copy_pointer f p h)
  copy_pointer-Gives f m c s =
      Gives-also (c h (omega arith) _ _ s)
        (λ g q e t. (carry-Points m (old-IsWithin g o) t, carry-Points m (new-IsWithin e n) s))

returned-ShowsObject :
    {S : Store} {p : Ptr} {v : Api.Bootstrap}
    → Points ShowsObject S p (some v)
    → ShowsResult S (returned bootstrap p) (some (resource v))
unfolding returned
returned-ShowsObject (there h r) = result (there h r)

returned-ShowsList :
    {S : Store} {p : Ptr} {vs : List Api.Bootstrap}
    → Points ShowsList S p (some vs)
    → ShowsResult S (returned bootstrap_list p) (some (resources vs))
unfolding returned
returned-ShowsList (there h r) = result_list (there h r)

-- `DeepCopyObject` of a resource or of a list whose cells show a value returns, and has lost and
-- changed no cell. The result shows the same value in new cells only, whatever is then written to
-- the cells there were, and the original shows it whatever is then written to other cells; a nil
-- pointer has become a nil interface.
pub deep_copy_object-Gives :
    (L : Library)
    → IsCopying L
    → (h : Heap) (given_object : Object) (v : Option Value) (olds news : Writes)
    → ShowsGiven (From 0 h) given_object v
    → IsOld (length h) olds
    → IsNew (length h) news
    → Gives
        (λ g copy.
          ShowsResult (From (length h) (write olds g)) copy v
          × ShowsGiven (From 0 (write news g)) given_object v)
        h
        (deep_copy_object L given_object h)
unfolding deep_copy_object bootstrap_deep_copy_object bootstrap_deep_copy list_deep_copy_object
    list_deep_copy copy_pointer ◌>>=◌
deep_copy_object-Gives L w h _ _ olds news given_nil o n =
    gives (Extends-refl h) (nothing, given_nil)
deep_copy_object-Gives L w h _ _ olds news given_nil_list o n =
    gives (Extends-refl h) (nothing, given_nil_list)
deep_copy_object-Gives L w h _ _ olds news (given s) o n =
    Gives-map _
      (copy_pointer-Gives o n _ object-IsCarried
        (copy_pointer-Copies _ object-IsCarried (object-Copies L w _)) s)
      (λ g q t. (returned-ShowsObject t.0, given t.1))
deep_copy_object-Gives L w h _ _ olds news (given_list s) o n =
    Gives-map _
      (copy_pointer-Gives o n _ list-IsCarried
        (copy_pointer-Copies _ list-IsCarried (list-Copies L w _)) s)
      (λ g q t. (returned-ShowsList t.0, given_list t.1))
