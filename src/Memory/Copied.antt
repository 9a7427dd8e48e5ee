-- ===== src/Memory/Copied.antt =====
-- The deep copies of a whole resource and of a list of resources, as those of their parts.
use crd_bootstrap.Base.{ℕ, ◌≡◌, refl, arith, ◌>>=◌, List, [], ◌∷◌, map}
use crd_bootstrap.Memory.{Cell}
use crd_bootstrap.Memory.Shows.{
  Plain, ShowsKubeConfig, ShowsEach, ShowsEntries, ShowsSpec, ShowsStatus, ShowsBootstrap,
  ShowsObject, ShowsItems, ShowsSlice, ShowsList, plain, kube_config, done, entry, entries, spec,
  status, bootstrap, object, none_left, item, slice, bootstrap_list,
}
use crd_bootstrap.Memory.Carry.{
  Plain-IsCarried, source-IsCarried, kube_config-IsCarried, entries-IsCarried, carry_each,
  carry_spec, carry_status, carry_bootstrap, carry_items, slice-IsCarried,
}
use crd_bootstrap.Memory.Copy.{Library, IsCopying}
use crd_bootstrap.Memory.Resource.{
  copy_kube_reference, kube_config_deep_copy_into, copy_kube_config, copy_json, copy_each_entry,
  copy_entries, spec_deep_copy_into, copy_conditions, status_deep_copy_into,
  bootstrap_deep_copy_into, copy_bootstrap, copy_each_item, copy_items, list_deep_copy_into,
  copy_list,
}
use crd_bootstrap.Memory.Copies.{
  Copies, Plain-Copies, copy_pointer-Copies, copy_next, copied_before, source-Copies,
}
use crd_bootstrap.Memory.Extends.{
  gives, Gives-resume, Gives-map, Extends-trans, Extends-refl, Extends-IsWithin,
}

map-id : {A : Type 0} (f : A → A) → ((x : A) → f x ≡ x) → (xs : List A) → map f xs ≡ xs
map-id f h [] = refl
map-id f h (x ∷ xs) = simp (map, h, map-id f h xs)

module _ (L : Library) (w : IsCopying L) (k : ℕ) where
  kube_reference-Copies : Copies k (Plain Cell.kube_reference) (copy_kube_reference L)
  unfolding copy_kube_reference ◌>>=◌
  kube_reference-Copies h l _ _ (plain x) =
      rw (w.kube_reference x) (gives (Extends-refl h) (plain x))

  json-Copies : Copies k (Plain Cell.json) (copy_json L)
  unfolding copy_json ◌>>=◌
  json-Copies h l _ _ (plain x) = rw (w.json x) (gives (Extends-refl h) (plain x))

  conditions-Copies : Copies k (Plain Cell.conditions) (copy_conditions L)
  unfolding copy_conditions ◌>>=◌
  conditions-Copies h l _ _ (plain x) =
      rw (map-id _ w.condition x) (gives (Extends-refl h) (plain x))

  kube_config-Copies : Copies k ShowsKubeConfig (copy_kube_config L)
  unfolding copy_kube_config kube_config_deep_copy_into ◌>>=◌
  kube_config-Copies h l _ _ (kube_config x p) =
      Gives-map _
        (Gives-map _ (copy_pointer-Copies k (Plain-IsCarried _) kube_reference-Copies h l _ _ p)
          (λ g q t. kube_config (record x { secret_ref = q }) t))
        (λ g y t. t)

  each-Copies : Copies k ShowsEach (copy_each_entry L)
  unfolding copy_each_entry ◌>>=◌
  each-Copies h l [] _ done = gives (Extends-refl h) done
  each-Copies h l ((key, _) ∷ ps) _ (entry _ p r) =
      Gives-resume _ (copy_pointer-Copies k (Plain-IsCarried _) json-Copies h l _ _ p) (λ g q e t.
        Gives-resume _
          (each-Copies g (omega (arith, l, e.longer)) ps _ (carry_each (Extends-IsWithin 0 e) r))
          (λ g' d e' u.
            gives (Extends-refl g') (entry key (copied_before k (Plain-IsCarried _) e' t) u)))

  entries-Copies : Copies k ShowsEntries (copy_entries L)
  unfolding copy_entries ◌>>=◌
  entries-Copies h l _ _ (entries r) = Gives-map _ (each-Copies h l _ _ r) (λ g d t. entries t)

  spec-Copies : Copies k ShowsSpec (spec_deep_copy_into L)
  unfolding spec_deep_copy_into ◌>>=◌
  spec-Copies h l _ _ (spec x s1 s2 s3) =
      Gives-resume _ (copy_next k source-IsCarried (source-Copies k) l (Extends-refl h) s1)
        λ _ _ e1 t1.
          Gives-resume _ (copy_next k entries-IsCarried entries-Copies l e1 s2) λ _ _ e2 t2.
            let e12 = Extends-trans e1 e2 in
            Gives-resume _ (copy_next k kube_config-IsCarried kube_config-Copies l e12 s3)
              λ g _ e3 t3. gives (Extends-refl g) (
                spec _ (copied_before k source-IsCarried (Extends-trans e2 e3) t1)
                  (copied_before k entries-IsCarried e3 t2) t3)

  status-Copies : Copies k ShowsStatus (status_deep_copy_into L)
  unfolding status_deep_copy_into ◌>>=◌
  status-Copies h l _ _ (status x s1 s2 s3) =
      Gives-resume _ (copy_next k (Plain-IsCarried _) conditions-Copies l (Extends-refl h) s1)
        λ _ _ e1 t1.
          Gives-resume _ (copy_next k (Plain-IsCarried _) (Plain-Copies k _) l e1 s2) λ _ _ e2 t2.
            let e12 = Extends-trans e1 e2 in
            Gives-resume _ (copy_next k (Plain-IsCarried _) (Plain-Copies k _) l e12 s3)
              λ g _ e3 t3. gives (Extends-refl g) (
                status _ (copied_before k (Plain-IsCarried _) (Extends-trans e2 e3) t1)
                  (copied_before k (Plain-IsCarried _) e3 t2) t3)

  bootstrap_deep_copy_into-Copies : Copies k ShowsBootstrap (bootstrap_deep_copy_into L)
  unfolding bootstrap_deep_copy_into ◌>>=◌
  bootstrap_deep_copy_into-Copies h l _ _ (bootstrap x s t) = rw (w.object_meta x.metadata) (
      Gives-resume _ (spec-Copies h l _ _ s) (λ g y e u.
        Gives-resume _
          (status-Copies g (omega (arith, l, e.longer)) _ _ (carry_status (Extends-IsWithin 0 e) t))
          (λ g' z e' v.
            gives (Extends-refl g') (bootstrap _ (carry_spec (Extends-IsWithin k e') u) v))))

  pub object-Copies : Copies k ShowsObject (copy_bootstrap L)
  unfolding copy_bootstrap ◌>>=◌
  object-Copies h l _ _ (object r) =
      Gives-map _ (bootstrap_deep_copy_into-Copies h l _ _ r) (λ g b t. object t)

  items-Copies : Copies k ShowsItems (copy_each_item L)
  unfolding copy_each_item ◌>>=◌
  items-Copies h l [] _ none_left = gives (Extends-refl h) none_left
  items-Copies h l (_ ∷ bs) _ (item b r) =
      Gives-resume _ (bootstrap_deep_copy_into-Copies h l _ _ b) (λ g q e t.
        Gives-resume _
          (items-Copies g (omega (arith, l, e.longer)) bs _ (carry_items (Extends-IsWithin 0 e) r))
          (λ g' d e' u.
            gives (Extends-refl g') (item (carry_bootstrap (Extends-IsWithin k e') t) u)))

  slice-Copies : Copies k ShowsSlice (copy_items L)
  unfolding copy_items ◌>>=◌
  slice-Copies h l _ _ (slice r) = Gives-map _ (items-Copies h l _ _ r) (λ g d t. slice t)

  pub list-Copies : Copies k ShowsList (copy_list L)
  unfolding copy_list list_deep_copy_into ◌>>=◌
  list-Copies h l _ _ (bootstrap_list x p) =
      Gives-map _
        (Gives-map _ (copy_pointer-Copies k slice-IsCarried slice-Copies h l _ _ p)
          (λ g q t. bootstrap_list (record { items = q }) t))
        (λ g y t. t)
