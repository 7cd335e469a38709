-- ===== src/Prelude/Bits.antt =====
-- Masks and disjoint unions of bits, as the arithmetic that `omega` reads.
use Prim.Native.Nat.{bit_and, bit_or, bit_and-bitwise, bit_or-bitwise, max}
use my_testserver.Prelude.{ℕ, ◌+◌, ◌*◌, ◌/◌, ◌%◌, ◌<◌, ◌≡◌, ap, ◌∙◌, arith, min}
use my_testserver.Prelude.Digits.{Halves, digits-Halves, digits_none, digits_same}

bit_and-Halves : Halves bit_and min
bit_and-Halves = digits-Halves bit_and min (λ y. 0) bit_and-bitwise (λ y. omega arith)

bit_or-Halves : Halves bit_or max
bit_or-Halves = digits-Halves bit_or max (λ y. y) bit_or-bitwise (λ y. omega arith)

bit_and-zero : (a : ℕ) → bit_and a 0 ≡ 0
bit_and-zero a = simp bit_and-bitwise (digits_none a a)

bit_or-zero : (a : ℕ) → bit_or a 0 ≡ a
bit_or-zero a = simp bit_or-bitwise (digits_same a a (omega arith))

pub bit_and_three : (a : ℕ) → bit_and a 0x3 ≡ a % 0x4
bit_and_three a =
    omega (arith, bit_and-Halves a 3, bit_and-Halves (a / 2) 1, bit_and-zero (a / 2 / 2))

pub bit_and_one : (a : ℕ) → bit_and a 0x1 ≡ a % 0x2
bit_and_one a = omega (arith, bit_and-Halves a 1, bit_and-zero (a / 2))

pub bit_and_two : (a : ℕ) → bit_and a 0x2 ≡ a / 0x2 % 2 * 0x2
bit_and_two a = omega (arith, bit_and-Halves a 2, bit_and_one (a / 2))

pub bit_and_nibble : (a : ℕ) → bit_and a 0xF ≡ a % 0x10
bit_and_nibble a =
    omega (arith, bit_and-Halves a 15, bit_and-Halves (a / 2) 7, bit_and_three (a / 2 / 2))

pub bit_and_seven_bits : (a : ℕ) → bit_and a 0x7F ≡ a % 0x80
bit_and_seven_bits a = omega (
  arith,
  bit_and-Halves a 127,
  bit_and-Halves (a / 2) 63,
  bit_and-Halves (a / 2 / 2) 31,
  bit_and_nibble (a / 2 / 2 / 2),
)

pub bit_and_byte : (a : ℕ) → bit_and a 0xFF ≡ a % 0x100
bit_and_byte a = omega (arith, bit_and-Halves a 255, bit_and_seven_bits (a / 2))

bit_and_eight : (a : ℕ) → bit_and a 0x8 ≡ a / 0x8 % 2 * 0x8
bit_and_eight a = omega (
  arith,
  bit_and-Halves a 8,
  bit_and-Halves (a / 2) 4,
  bit_and-Halves (a / 2 / 2) 2,
  bit_and-Halves (a / 2 / 2 / 2) 1,
  bit_and-zero (a / 2 / 2 / 2 / 2),
)

pub bit_and_high : (a : ℕ) → bit_and a 0x80 ≡ a / 0x80 % 2 * 0x80
bit_and_high a = omega (
  arith,
  bit_and-Halves a 128,
  bit_and-Halves (a / 2) 64,
  bit_and-Halves (a / 2 / 2) 32,
  bit_and-Halves (a / 2 / 2 / 2) 16,
  bit_and_eight (a / 2 / 2 / 2 / 2),
)

bit_or_double : (x y c : ℕ) → y ≡ x * 2 → bit_or y c ≡ c % 2 + 2 * bit_or x (c / 2)
bit_or_double x y c e =
    bit_or-Halves y c
    ∙ ap (λ t. max (y % 2) (c % 2) + 2 * bit_or t (c / 2)) {y = x} (omega arith)
    ∙ ap (λ u. max u (c % 2) + 2 * bit_or x (c / 2)) {y = 0} (omega arith)
    ∙ low
  where
    low : max 0 (c % 2) + 2 * bit_or x (c / 2) ≡ c % 2 + 2 * bit_or x (c / 2)
    low = omega arith

-- A byte below shifted bits.
pub bit_or_byte : (a c : ℕ) → c < 0x100 → bit_or (a * 0x100) c ≡ a * 0x100 + c
bit_or_byte a c h = omega (
  arith,
  bit_or_double (a * 128) (a * 256) c (omega arith),
  bit_or_double (a * 64) (a * 128) (c / 2) (omega arith),
  bit_or_double (a * 32) (a * 64) (c / 2 / 2) (omega arith),
  bit_or_double (a * 16) (a * 32) (c / 2 / 2 / 2) (omega arith),
  bit_or_double (a * 8) (a * 16) (c / 2 / 2 / 2 / 2) (omega arith),
  bit_or_double (a * 4) (a * 8) (c / 2 / 2 / 2 / 2 / 2) (omega arith),
  bit_or_double (a * 2) (a * 4) (c / 2 / 2 / 2 / 2 / 2 / 2) (omega arith),
  bit_or_double a (a * 2) (c / 2 / 2 / 2 / 2 / 2 / 2 / 2) (omega arith),
  zero,
)
  where
    zero : bit_or a (c / 2 / 2 / 2 / 2 / 2 / 2 / 2 / 2) ≡ a
    zero = ap (bit_or a) {y = 0} (omega arith) ∙ bit_or-zero a
