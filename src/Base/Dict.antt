-- ===== src/Base/Dict.antt =====
-- Go maps with text keys, as association lists.
use Prim.Native.String.{String}
use mathlib.Core.Path.{◌≡◌}
use mathlib.Core.Bool.{not}
use mathlib.Core.Option.{Option, none, some}
use mathlib.Core.List.{List, [], ◌∷◌}
use native.Mathlib.Omega.{arith}
use text.Mathlib.TextEquality.{eq_iff}
use crd_bootstrap.Base.Tests.{◌==◌, if◌then◌else◌, select}

abbrev pub Dict {ℓ} : Type ℓ → Type ℓ
Dict V = List (String × V)

module _ {ℓ} {V : Type ℓ} where
  -- The value of a key that may be missing: `value, ok := entries[key]`.
  unfoldable pub lookup : String → Dict V → Option V
  lookup key [] = none
  lookup key (entry ∷ entries) = if key == entry.0 then some entry.1 else lookup key entries

  -- `entries[key] = value`: the map without the key, and the new entry.
  unfoldable pub insert : String → V → Dict V → Dict V
  unfolding select
  insert key value entries = (key, value) ∷ select (λ entry. not (key == entry.0)) entries

  lookup-select :
      (key asked : String) (entries : Dict V)
      → lookup asked (select (λ entry. not (key == entry.0)) entries)
        ≡ (if asked == key then none else lookup asked entries)
  unfolding lookup select
  lookup-select key asked [] = ground arith
  lookup-select key asked (entry ∷ entries) = ground (
    arith,
    lookup-select key asked entries,
    eq_iff asked key,
    eq_iff key entry.0,
    eq_iff asked entry.0,
  )

  pub lookup-insert :
      (key asked : String) (value : V) (entries : Dict V)
      → lookup asked (insert key value entries)
        ≡ (if asked == key then some value else lookup asked entries)
  unfolding lookup insert
  lookup-insert key asked value entries = ground (arith, lookup-select key asked entries)
