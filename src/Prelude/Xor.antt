-- ===== src/Prelude/Xor.antt =====
-- Exclusive or, from the digit recursion that the native operation stands for.
use Prim.Native.Nat.{bit_xor, differ, bit_xor-bitwise}
use my_testserver.Prelude.{
  ℕ, zero, suc, ◌+◌, ◌*◌, ◌/◌, ◌%◌, ◌≤◌, ◌<◌, ◌≡◌, refl, ap, sym, ◌∙◌, arith,
}
use my_testserver.Prelude.Digits.{Halves, digits-Halves}

bit_xor-Halves : Halves bit_xor differ
bit_xor-Halves = digits-Halves bit_xor differ (λ y. y) bit_xor-bitwise (λ y. omega arith)

differ_bits : (x y : ℕ) → x < 2 → y < 2 → (differ (differ x y) y ≡ x) × (differ x y < 2)
differ_bits zero zero p q = (refl, omega arith)
differ_bits zero (suc zero) p q = (refl, omega arith)
differ_bits zero (suc (suc y)) p q = absurd (omega arith)
differ_bits (suc zero) zero p q = (refl, omega arith)
differ_bits (suc zero) (suc zero) p q = (refl, omega arith)
differ_bits (suc zero) (suc (suc y)) p q = absurd (omega arith)
differ_bits (suc (suc x)) y p q = absurd (omega arith)

bit_xor_halves :
    (a b : ℕ)
    → (bit_xor a b / 2 ≡ bit_xor (a / 2) (b / 2)) × (bit_xor a b % 2 ≡ differ (a % 2) (b % 2))
bit_xor_halves a b =
    let step = bit_xor-Halves a b in
    let small = (differ_bits (a % 2) (b % 2) (omega arith) (omega arith)).1 in omega arith

-- Applying one mask twice gives the number back.
bit_xor_undo_fuel : (n a k : ℕ) → a ≤ n → k ≤ n → bit_xor (bit_xor a k) k ≡ a
bit_xor_undo_fuel zero zero zero p q = refl
bit_xor_undo_fuel zero zero (suc k) p q = absurd (omega arith)
bit_xor_undo_fuel zero (suc a) k p q = absurd (omega arith)
bit_xor_undo_fuel (suc n) a k p q =
    let ih = bit_xor_undo_fuel n (a / 2) (k / 2) (omega arith) (omega arith) in
    let halves = bit_xor_halves a k in
    bit_xor-Halves (bit_xor a k) k
    ∙ ap (λ t. differ (bit_xor a k % 2) (k % 2) + 2 * bit_xor t (k / 2)) halves.0
    ∙ ap (λ t. differ (bit_xor a k % 2) (k % 2) + 2 * t) ih
    ∙ ap (λ t. differ t (k % 2) + 2 * (a / 2)) halves.1
    ∙ ap (λ t. t + 2 * (a / 2)) (differ_bits (a % 2) (k % 2) (omega arith) (omega arith)).0
    ∙ back
  where
    back : a % 2 + 2 * (a / 2) ≡ a
    back = omega arith

pub bit_xor_undo : (a k : ℕ) → bit_xor (bit_xor a k) k ≡ a
bit_xor_undo a k = bit_xor_undo_fuel (a + k) a k (omega arith) (omega arith)

bit_xor-zero_fuel : (n a : ℕ) → a ≤ n → bit_xor a 0 ≡ a
bit_xor-zero_fuel zero zero p = refl
bit_xor-zero_fuel zero (suc a) p = absurd (omega arith)
bit_xor-zero_fuel (suc n) a p =
    bit_xor-Halves a 0
    ∙ ap (λ t. differ (a % 2) 0 + 2 * t) (bit_xor-zero_fuel n (a / 2) (omega arith))
    ∙ ap (λ t. t + 2 * (a / 2)) (differ_zero (a % 2))
    ∙ back
  where
    differ_zero : (x : ℕ) → differ x 0 ≡ x
    differ_zero zero = refl
    differ_zero (suc x) = refl

    back : a % 2 + 2 * (a / 2) ≡ a
    back = omega arith

pub bit_xor-zero : (a : ℕ) → bit_xor a 0 ≡ a
bit_xor-zero a = bit_xor-zero_fuel a a (omega arith)

differ_bits_cancel : (x y : ℕ) → x < 2 → y < 2 → differ x y ≡ x → y ≡ 0
differ_bits_cancel x zero p q e = refl
differ_bits_cancel zero (suc zero) p q e = absurd (omega arith)
differ_bits_cancel (suc zero) (suc zero) p q e = absurd (omega arith)
differ_bits_cancel (suc (suc x)) (suc y) p q e = absurd (omega arith)
differ_bits_cancel x (suc (suc y)) p q e = absurd (omega arith)

bit_xor_cancel_fuel : (n a k : ℕ) → a ≤ n → k ≤ n → bit_xor a k ≡ a → k ≡ 0
bit_xor_cancel_fuel zero a k p q e = omega arith
bit_xor_cancel_fuel (suc n) a k p q e =
    let halves = bit_xor_halves a k in
    let low =
      differ_bits_cancel (a % 2) (k % 2) (omega arith) (omega arith)
        (sym halves.1 ∙ ap (λ t. t % 2) e) in
    let high =
      bit_xor_cancel_fuel n (a / 2) (k / 2) (omega arith) (omega arith)
        (sym halves.0 ∙ ap (λ t. t / 2) e) in
    omega arith

-- A mask that changes nothing is zero.
pub bit_xor_cancel : (a k : ℕ) → bit_xor a k ≡ a → k ≡ 0
bit_xor_cancel a k e = bit_xor_cancel_fuel (a + k) a k (omega arith) (omega arith) e
