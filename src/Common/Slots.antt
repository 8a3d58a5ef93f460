-- ===== src/Common/Slots.antt =====
-- Places that hold something or nothing: blocks by address, values and handles.
use Prim.Native.Nat.{ℕ, zero, suc, ◌<◌}
use mathlib.Core.Path.{◌≡◌, refl, ap, sym, ◌∙◌}
use mathlib.Core.List.{List, [], ◌∷◌, ◌++◌}
use mathlib.Core.Logic.{◌≢◌, ◌⊎◌, inl, inr}
use mathlib.Core.Bool.{true, false}
use mathlib.Core.Option.{Option, none, some}
use native.Mathlib.Omega.{arith}
use caffeine_hx.Common.Tests.{◌==◌, if◌then◌else◌, Bool-cases}
use caffeine_hx.Common.Lists.{length, set}

module _ {A : Type 0} where
  -- What stands at a place.
  unfoldable pub slot : List (Option A) → ℕ → Option A
  slot [] i = none
  slot (x ∷ xs) zero = x
  slot (x ∷ xs) (suc i) = slot xs i

  pub slot-append :
      (xs : List (Option A)) (y : Option A) (i : ℕ)
      → slot (xs ++ y ∷ []) i ≡ (if i == length xs then y else slot xs i)
  unfolding slot
  slot-append [] y zero = refl
  slot-append [] y (suc i) = ground arith
  slot-append (x ∷ xs) y zero = ground arith
  slot-append (x ∷ xs) y (suc i) = ground (arith, slot-append xs y i)

  slot-set :
      (xs : List (Option A)) (i j : ℕ)
      → slot (set xs i none) j ≡ (if i == j then none else slot xs j)
  unfolding slot
  slot-set [] i j = ground arith
  slot-set (x ∷ xs) zero zero = refl
  slot-set (x ∷ xs) zero (suc j) = ground arith
  slot-set (x ∷ xs) (suc i) zero = ground arith
  slot-set (x ∷ xs) (suc i) (suc j) = ground (arith, slot-set xs i j)

  pub slot-lt : (xs : List (Option A)) (i : ℕ) {a : A} → slot xs i ≡ some a → i < length xs
  unfolding slot
  slot-lt [] i h = cc
  slot-lt (x ∷ xs) zero h = omega arith
  slot-lt (x ∷ xs) (suc i) h = omega (arith, slot-lt xs i h)

  pub slot-append_cases :
      (xs : List (Option A)) (y : Option A) (i : ℕ) {a : A}
      → slot (xs ++ y ∷ []) i ≡ some a
      → ((i ≡ length xs) × (y ≡ some a)) ⊎ (slot xs i ≡ some a)
  slot-append_cases xs y i h = elim (Bool-cases (i == length xs)) [
    | inl t ↦ inl (ground (arith, t), sym (slot-append xs y i ∙ rw t refl) ∙ h)
    | inr t ↦ inr (sym (slot-append xs y i ∙ rw t refl) ∙ h)
  ]

  pub slot-append_last :
      (xs : List (Option A)) (y : Option A) (i : ℕ) → i ≡ length xs → slot (xs ++ y ∷ []) i ≡ y
  slot-append_last xs y i h =
      let same : (i == length xs) ≡ true = ground arith in slot-append xs y i ∙ rw same refl

  pub slot-append_other :
      (xs : List (Option A)) (y : Option A) (i : ℕ)
      → i ≢ length xs
      → slot (xs ++ y ∷ []) i ≡ slot xs i
  slot-append_other xs y i h =
      let other : (i == length xs) ≡ false = ground arith in slot-append xs y i ∙ rw other refl

  pub slot-append_keeps :
      (xs : List (Option A)) (y : Option A) (i : ℕ) {a : A}
      → slot xs i ≡ some a
      → slot (xs ++ y ∷ []) i ≡ some a
  slot-append_keeps xs y i h =
      let below = slot-lt xs i h in
      let other : (i == length xs) ≡ false = ground arith in slot-append xs y i ∙ rw other h

  pub slot-set_ne : (xs : List (Option A)) (i j : ℕ) → i ≢ j → slot (set xs i none) j ≡ slot xs j
  slot-set_ne xs i j h =
      let other : (i == j) ≡ false = ground arith in slot-set xs i j ∙ rw other refl

  pub slot-set_self : (xs : List (Option A)) (i : ℕ) → slot (set xs i none) i ≡ none
  slot-set_self xs i = let same : (i == i) ≡ true = ground arith in slot-set xs i i ∙ rw same refl

  pub set-slot : (xs : List (Option A)) (i : ℕ) → slot xs i ≡ none → set xs i none ≡ xs
  unfolding slot
  set-slot [] i h = refl
  set-slot (x ∷ xs) zero h = rw h refl
  set-slot (x ∷ xs) (suc i) h = ap (λ t. x ∷ t) (set-slot xs i h)

  pub slot-set_cases :
      (xs : List (Option A)) (i j : ℕ) {a : A}
      → slot (set xs i none) j ≡ some a
      → (i ≢ j) × (slot xs j ≡ some a)
  slot-set_cases xs i j h = elim (Bool-cases (i == j)) [
    | inl t ↦ let emptied : slot (set xs i none) j ≡ none = slot-set xs i j ∙ rw t refl in cc
    | inr t ↦ (ground (arith, t), sym (slot-set xs i j ∙ rw t refl) ∙ h)
  ]

  pub slot-set_within :
      (xs : List (Option A)) (i : ℕ) (y : Option A) → i < length xs → slot (set xs i y) i ≡ y
  unfolding slot
  slot-set_within [] i y h = absurd (omega arith)
  slot-set_within (x ∷ xs) zero y h = refl
  slot-set_within (x ∷ xs) (suc i) y h = slot-set_within xs i y (omega arith)

  pub slot-set_other :
      (xs : List (Option A)) (i j : ℕ) (y : Option A) → i ≢ j → slot (set xs i y) j ≡ slot xs j
  unfolding slot
  slot-set_other [] i j y h = refl
  slot-set_other (x ∷ xs) zero zero y h = absurd (h refl)
  slot-set_other (x ∷ xs) zero (suc j) y h = refl
  slot-set_other (x ∷ xs) (suc i) zero y h = refl
  slot-set_other (x ∷ xs) (suc i) (suc j) y h = slot-set_other xs i j y (λ e. h (ap suc e))
