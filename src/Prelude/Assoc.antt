-- ===== src/Prelude/Assoc.antt =====
-- A Go map whose keys are strings, as an association list. A write replaces every older entry of
-- its key, so iteration order is nowhere relied on.
use Prim.Native.String.{String}
use mathlib.Core.Path.{◌≡◌}
use mathlib.Core.Option.{Option, none, some}
use mathlib.Core.List.{List, [], ◌∷◌}
use native.Mathlib.Omega.{arith}
use text.Mathlib.Text.{◌==◌ as str_eq}
use text.Mathlib.TextEquality.{eq_iff}
use text.Mathlib.TextPositions.{eq_refl}
use hotload.Prelude.Tests.{if◌then◌else◌}

module _ {ℓ} {A : Type ℓ} where
  -- `v, ok := m[key]`
  unfoldable pub lookup : String → List (String × A) → Option A
  lookup key [] = none
  lookup key (e ∷ rest) = if str_eq e.0 key then some e.1 else lookup key rest

  -- `delete(m, key)`
  unfoldable pub erase : String → List (String × A) → List (String × A)
  erase key [] = []
  erase key (e ∷ rest) =
      let others = erase key rest in if str_eq e.0 key then others else e ∷ others

  -- `m[key] = a`
  unfoldable pub insert : String → A → List (String × A) → List (String × A)
  unfolding erase
  insert key a m = (key, a) ∷ erase key m

  pub lookup-erase :
      (gone key : String) (m : List (String × A))
      → lookup key (erase gone m) ≡ (if str_eq gone key then none else lookup key m)
  unfolding lookup erase
  lookup-erase gone key [] = ground arith
  lookup-erase gone key (e ∷ rest) =
      ground (arith, lookup-erase gone key rest, eq_iff e.0 gone, eq_iff e.0 key, eq_iff gone key)

  pub lookup-insert :
      (new key : String) (a : A) (m : List (String × A))
      → lookup key (insert new a m) ≡ (if str_eq new key then some a else lookup key m)
  unfolding lookup insert
  lookup-insert new key a m = ground (arith, lookup-erase new key m)

  pub lookup-insert_self :
      (key : String) (a : A) (m : List (String × A)) → lookup key (insert key a m) ≡ some a
  lookup-insert_self key a m = rw (lookup-insert, eq_refl)

  -- The last entry of a key, in the order in which a loop writes the entries.
  unfoldable pub last : String → List (String × A) → Option A
  last k [] = none
  last k (e ∷ rest) = elim (last k rest) [
    | some v ↦ some v
    | none ↦ if str_eq e.0 k then some e.1 else none
  ]

  abbrev pub or_else : Option A → Option A → Option A
  or_else none b = b
  or_else (some v) b = some v
