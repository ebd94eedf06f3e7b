-- ===== src/Prelude/Maps.antt =====
-- Go's maps as association lists: a lookup, `m[k] = v` and `delete(m, k)`.
use cometduty.Prelude.Tests.{HasEq, ◌==◌, beq_refl, if◌then◌else◌, if_true}
use mathlib.Core.Bool.{Bool, true, false}
use mathlib.Core.List.{List, [], ◌∷◌}
use mathlib.Core.Option.{Option, none, some}
use mathlib.Core.Path.{◌≡◌, refl, ◌∙◌}
use native.Mathlib.Omega.{arith}

abbrev pub GoMap {ℓ κ} : Type ℓ → Type κ → Type (ℓ ⊔ κ)
GoMap K V = List (K × V)

abbrev pub is_some {ℓ} : {A : Type ℓ} → Option A → Bool
is_some none = false
is_some (some a) = true

-- A missing key reads as the value type's zero.
abbrev pub or_zero {ℓ} : {A : Type ℓ} → Option A → A → A
or_zero none d = d
or_zero (some a) d = a

module _ {ℓ κ} {K : Type ℓ} {V : Type κ} ⦃e : HasEq K⦄ where
  unfoldable pub lookup : K → GoMap K V → Option V
  lookup key [] = none
  lookup key ((first, value) ∷ rest) = if first == key then some value else lookup key rest

  unfoldable pub erase : K → GoMap K V → GoMap K V
  erase key [] = []
  erase key ((first, value) ∷ rest) =
      let rest' = erase key rest in if first == key then rest' else (first, value) ∷ rest'

  unfoldable pub insert : K → V → GoMap K V → GoMap K V
  insert key new [] = (key, new) ∷ []
  insert key new ((first, value) ∷ rest) =
      let rest' = insert key new rest in
      if first == key then (key, new) ∷ rest else (first, value) ∷ rest'

  abbrev pub member : K → GoMap K V → Bool
  member key m = is_some (lookup key m)

  module _ (key other : K) where
    pub lookup-erase :
        (m : GoMap K V)
        → lookup other (erase key m) ≡ (if key == other then none else lookup other m)
    unfolding lookup erase
    lookup-erase [] = ground arith
    lookup-erase ((first, value) ∷ rest) =
        ground (
          arith,
          lookup-erase rest,
          e.beq_iff first key,
          e.beq_iff first other,
          e.beq_iff key other,
        )

    pub lookup-insert :
        (new : V) (m : GoMap K V)
        → lookup other (insert key new m) ≡ (if key == other then some new else lookup other m)
    unfolding lookup insert
    lookup-insert new [] = refl
    lookup-insert new ((first, value) ∷ rest) = ground (
      arith,
      lookup-insert new rest,
      e.beq_iff first key,
      e.beq_iff first other,
      e.beq_iff key other,
    )

  pub lookup-erase_self : (key : K) (m : GoMap K V) → lookup key (erase key m) ≡ none
  lookup-erase_self key m = lookup-erase key key m ∙ if_true _ _ (beq_refl key)

  pub lookup-insert_self :
      (key : K) (new : V) (m : GoMap K V) → lookup key (insert key new m) ≡ some new
  lookup-insert_self key new m = lookup-insert key key new m ∙ if_true _ _ (beq_refl key)

  -- A Go map has each key once.
  unfoldable pub IsMap : GoMap K V → Type 0
  IsMap [] = Unit
  IsMap ((key, value) ∷ rest) = (member key rest ≡ false) × IsMap rest
