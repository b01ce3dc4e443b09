-- ===== src/Prelude/TextMaps.antt =====
-- A JavaScript `Map` or object with texts as its keys, as an association list.
use mathlib.Core.Path.{◌≡◌, refl, ap}
use mathlib.Core.Logic.{inl, inr}
use mathlib.Core.Bool.{true, false}
use mathlib.Core.List.{List, [], ◌∷◌}
use mathlib.Core.Option.{Option, none, some}
use native.Mathlib.Omega.{arith}
use zeus_insurance_bot.Prelude.Tests.{if◌then◌else◌, Bool-cases}
use zeus_insurance_bot.Prelude.Texts.{Text, text_eq, eq_of_text_eq}

abbrev pub TextMap {ℓ} : Type ℓ → Type ℓ
TextMap V = List (Text × V)

pub text_eq_same : (a b x : Text) → text_eq a b ≡ true → text_eq a x ≡ text_eq b x
text_eq_same a b x h = ap (λ t. text_eq t x) (eq_of_text_eq a b h)

-- Two texts that are the same as a third.
pub text_eq_joins : (a b x : Text) → text_eq a b ≡ false → text_eq b x ≡ true → text_eq a x ≡ false
text_eq_joins a b x apart h = rw (← eq_of_text_eq b x h) apart

module _ {ℓ} {Value : Type ℓ} where
  -- `m.get(k)`.
  unfoldable pub find_entry : Text → TextMap Value → Option Value
  find_entry k [] = none
  find_entry k ((j, e) ∷ rest) = if text_eq j k then some e else find_entry k rest

  -- `m.set(k, e)`.
  unfoldable pub set_entry : Text → Value → TextMap Value → TextMap Value
  set_entry k e [] = (k, e) ∷ []
  set_entry k e ((j, old) ∷ rest) =
      if text_eq j k then (j, e) ∷ rest else (j, old) ∷ set_entry k e rest

  -- `m.delete(k)`.
  unfoldable pub delete_entry : Text → TextMap Value → TextMap Value
  delete_entry k [] = []
  delete_entry k ((j, e) ∷ rest) =
      let others = delete_entry k rest in if text_eq j k then others else (j, e) ∷ others

  pub find-set_entry :
      (k x : Text) (e : Value) (g : TextMap Value)
      → find_entry x (set_entry k e g) ≡ (if text_eq k x then some e else find_entry x g)
  unfolding find_entry set_entry
  find-set_entry k x e [] = refl
  find-set_entry k x e ((j, old) ∷ rest) = elim (Bool-cases (text_eq j k)) [
    | inl same ↦ rw same (ground (arith, text_eq_same j k x same))
    | inr apart ↦ rw apart (ground (arith, find-set_entry k x e rest, text_eq_joins j k x apart))
  ]

  pub find-delete_entry :
      (k x : Text) (g : TextMap Value)
      → find_entry x (delete_entry k g) ≡ (if text_eq k x then none else find_entry x g)
  unfolding find_entry delete_entry
  find-delete_entry k x [] = ground arith
  find-delete_entry k x ((j, old) ∷ rest) = elim (Bool-cases (text_eq j k)) [
    | inl same ↦ rw same (ground (arith, find-delete_entry k x rest, text_eq_same j k x same))
    | inr apart ↦ rw apart (ground (arith, find-delete_entry k x rest, text_eq_joins j k x apart))
  ]
