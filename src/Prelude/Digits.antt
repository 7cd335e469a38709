-- ===== src/Prelude/Digits.antt =====
-- The binary digits behind the native bit operations: fuel to spare changes nothing, so each
-- operation has one equation for its lowest digit.
use Prim.Native.Nat.{digits, max}
use native.Mathlib.Decide.{dec_lt}
use my_testserver.Prelude.{ℕ, zero, suc, ◌+◌, ◌*◌, ◌/◌, ◌%◌, ◌≤◌, ◌≡◌, refl, ap, ◌∙◌, arith, min}

module _ (last : ℕ → ℕ) (digit : ℕ → ℕ → ℕ) where
  spare_fuel :
      (fuel x y : ℕ) → x ≤ fuel → digits last digit (suc fuel) x y ≡ digits last digit fuel x y
  spare_fuel zero zero y h = refl
  spare_fuel (suc fuel) zero y h = refl
  spare_fuel zero (suc x) y h = absurd (omega arith)
  spare_fuel (suc fuel) (suc x) y h =
      ap (λ high. high * 2 + digit (suc x % 2) (y % 2))
        (spare_fuel fuel (suc x / 2) (y / 2) (omega arith))

  exact_fuel : (fuel x y : ℕ) → x ≤ fuel → digits last digit fuel x y ≡ digits last digit x x y
  exact_fuel zero zero y h = refl
  exact_fuel zero (suc x) y h = absurd (omega arith)
  exact_fuel (suc fuel) x y h = elim (dec_lt fuel x) [
    | yes lt ↦ ap (λ k. digits last digit k x y) {x = suc fuel} {y = x} (omega arith)
    | no ge ↦ spare_fuel fuel x y (omega arith) ∙ exact_fuel fuel x y (omega arith)
  ]

  pub lowest_digit :
      (x y : ℕ)
      → digits last digit (suc x) (suc x) y
        ≡ digits last digit (suc x / 2) (suc x / 2) (y / 2) * 2 + digit (suc x % 2) (y % 2)
  lowest_digit x y =
      ap (λ high. high * 2 + digit (suc x % 2) (y % 2))
        (exact_fuel x (suc x / 2) (y / 2) (omega arith))

-- One digit of an operation at a time.
abbrev pub Halves : (ℕ → ℕ → ℕ) → (ℕ → ℕ → ℕ) → Type 0
Halves op digit = (x y : ℕ) → op x y ≡ digit (x % 2) (y % 2) + 2 * op (x / 2) (y / 2)

pub digits-Halves :
    (op digit : ℕ → ℕ → ℕ) (last : ℕ → ℕ)
    → ((x y : ℕ) → op x y ≡ digits last digit x x y)
    → ((y : ℕ) → last y ≡ digit 0 (y % 2) + 2 * last (y / 2))
    → Halves op digit
digits-Halves op digit last native at_zero zero y =
    omega (arith, native 0 y, native 0 (y / 2), at_zero y)
digits-Halves op digit last native at_zero (suc x) y =
    omega (arith, native (suc x) y, native (suc x / 2) (y / 2), lowest_digit last digit x y)

-- Against zero: nothing in common, and nothing to add.
pub digits_none : (fuel x : ℕ) → digits (λ y. 0) min fuel x 0 ≡ 0
digits_none zero x = refl
digits_none (suc fuel) zero = refl
digits_none (suc fuel) (suc x) = omega (arith, digits_none fuel (suc x / 2))

pub digits_same : (fuel x : ℕ) → x ≤ fuel → digits (λ y. y) max fuel x 0 ≡ x
digits_same zero x h = omega arith
digits_same (suc fuel) zero h = refl
digits_same (suc fuel) (suc x) h = omega (arith, digits_same fuel (suc x / 2) (omega arith))
