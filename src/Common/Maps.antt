-- ===== src/Common/Maps.antt =====
-- A Go map with string keys, as an association list without repeated keys.
use Prim.Native.String.{String}
use mathlib.Core.Path.{◌≡◌, refl}
use mathlib.Core.Option.{Option, none, some}
use mathlib.Core.List.{List, [], ◌∷◌}
use mathlib.Core.Bool.{true}
use native.Mathlib.Omega.{arith}
use text.Mathlib.Text.{◌==◌}
use text.Mathlib.TextEquality.{eq_iff}
use reactive_policy.Common.Tests.{if◌then◌else◌}

abbrev pub Assoc {ℓ} : Type ℓ → Type ℓ
Assoc V = List (String × V)

module _ {ℓ} {V : Type ℓ} where
  -- value, ok := m[key]
  unfoldable pub lookup : String → Assoc V → Option V
  lookup key [] = none
  lookup key ((here, value) ∷ rest) = if here == key then some value else lookup key rest

  -- m[key] = value
  unfoldable pub insert : String → V → Assoc V → Assoc V
  insert key value [] = (key, value) ∷ []
  insert key value ((here, old) ∷ rest) =
      if here == key then (key, value) ∷ rest else (here, old) ∷ insert key value rest

  -- delete(m, key)
  unfoldable pub erase : String → Assoc V → Assoc V
  erase key [] = []
  erase key ((here, value) ∷ rest) =
      if here == key then erase key rest else (here, value) ∷ erase key rest

  pub lookup-insert :
      (key here : String) (value : V) (rest : Assoc V)
      → lookup here (insert key value rest) ≡ (if key == here then some value else lookup here rest)
  unfolding lookup insert
  lookup-insert key here value [] = refl
  lookup-insert key here value ((other, old) ∷ rest) = ground (
    arith,
    eq_iff key here,
    eq_iff other key,
    eq_iff other here,
    lookup-insert key here value rest,
  )

  pub lookup-erase :
      (key here : String) (rest : Assoc V)
      → lookup here (erase key rest) ≡ (if key == here then none else lookup here rest)
  unfolding lookup erase
  lookup-erase key here [] = ground arith
  lookup-erase key here ((other, old) ∷ rest) =
      ground
        (arith, eq_iff key here, eq_iff other key, eq_iff other here, lookup-erase key here rest)

pub eq_self : (key : String) → (key == key) ≡ true
eq_self key = (eq_iff key key).1 refl
