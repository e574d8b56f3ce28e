-- ===== src/Prelude/Maps.antt =====
-- Go's maps with text keys, as association lists in iteration order. Go promises no order, so
-- what is proved of every list holds of every order.
use Prim.Native.String.{String}
use mathlib.Core.Path.{◌≡◌, refl}
use mathlib.Core.Option.{Option, none, some}
use mathlib.Core.List.{List, [], ◌∷◌}
use native.Mathlib.Omega.{arith}
use text.Mathlib.Text.{◌==◌}
use text.Mathlib.TextEquality.{eq_iff}
use v2ray_operator.Prelude.Tests.{if◌then◌else◌}

abbrev pub Dict {ℓ} : Type ℓ → Type ℓ
Dict V = List (String × V)

module _ {ℓ} {V : Type ℓ} where
  -- `value, ok := entries[key]`
  unfoldable pub lookup : String → Dict V → Option V
  lookup key [] = none
  lookup key (first ∷ rest) =
      let later = lookup key rest in if first.0 == key then some first.1 else later

  -- `entries[key] = value`: a key that is there keeps its place.
  unfoldable pub insert : String → V → Dict V → Dict V
  insert key value [] = (key, value) ∷ []
  insert key value (first ∷ rest) =
      let later = insert key value rest in
      if first.0 == key then (key, value) ∷ rest else first ∷ later

  pub lookup-insert :
      (key other : String) (value : V) (entries : Dict V)
      → lookup other (insert key value entries)
        ≡ (if key == other then some value else lookup other entries)
  unfolding lookup insert
  lookup-insert key other value [] = refl
  lookup-insert key other value (first ∷ rest) = ground (
    arith,
    lookup-insert key other value rest,
    eq_iff key other,
    eq_iff first.0 key,
    eq_iff first.0 other,
  )

-- `m[k]` on a map of texts: the empty text where the key is missing.
unfoldable pub text_at : String → Dict String → String
unfolding lookup
text_at k m = elim (lookup k m) [ none ↦ "" | some v ↦ v ]
