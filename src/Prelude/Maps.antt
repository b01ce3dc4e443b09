-- ===== src/Prelude/Maps.antt =====
-- A JavaScript `Map` as an association list in insertion order: `set` on a key that is there
-- replaces its value in place, and otherwise adds the pair at the end.
use Prim.Native.Nat.{ℕ}
use mathlib.Core.Path.{◌≡◌}
use mathlib.Core.List.{List, [], ◌∷◌}
use mathlib.Core.Option.{Option, none, some}
use native.Mathlib.Omega.{arith}
use zeus_insurance_bot.Prelude.Tests.{if◌then◌else◌, ◌==◌}

abbrev pub Map {ℓ} : Type ℓ → Type ℓ
Map V = List (ℕ × V)

module _ {ℓ} {Value : Type ℓ} where
  -- `m.values()`.
  abbrev pub values : Map Value → List Value
  values [] = []
  values ((at, value) ∷ rest) = value ∷ values rest

  -- `m.get(key)`.
  unfoldable pub lookup : ℕ → Map Value → Option Value
  lookup key [] = none
  lookup key ((at, value) ∷ rest) = if key == at then some value else lookup key rest

  -- `m.delete(key)`.
  unfoldable pub erase : ℕ → Map Value → Map Value
  erase key [] = []
  erase key ((at, value) ∷ rest) = if key == at then rest else (at, value) ∷ erase key rest

  -- `m.set(key, new)`.
  unfoldable pub insert : ℕ → Value → Map Value → Map Value
  insert key new [] = (key, new) ∷ []
  insert key new ((at, old) ∷ rest) =
      if key == at then (at, new) ∷ rest else (at, old) ∷ insert key new rest

  pub lookup-insert :
      (key other : ℕ) (new : Value) (table : Map Value)
      → lookup other (insert key new table)
        ≡ (if key == other then some new else lookup other table)
  unfolding lookup insert
  lookup-insert key other new [] = ground arith
  lookup-insert key other new ((at, old) ∷ rest) = ground (arith, lookup-insert key other new rest)

  pub lookup-insert_self :
      (key : ℕ) (new : Value) (table : Map Value) → lookup key (insert key new table) ≡ some new
  lookup-insert_self key new table = ground (arith, lookup-insert key key new table)
