-- ===== src/Frame/Lengths.antt =====
-- Payload lengths, as `encodeFrame` writes them and `parseFrame` reads them.
use my_testserver.Prelude.{
  ℕ, ◌+◌, ◌*◌, ◌/◌, ◌%◌, ◌^◌, ◌≤◌, ◌<◌, ◌≡◌, refl, ap, ◌∙◌, inl, inr, some, [], ◌∷◌, ◌++◌, arith,
  length, Bytes, leb, Bool-cases,
}
use Prim.Native.Nat.{bit_or}
use my_testserver.Prelude.Bits.{bit_and_seven_bits, bit_and_byte, bit_or_byte}
use my_testserver.Frame.{encode_length, big_endian, low_byte, payload_length, shift_in}
use my_testserver.Frame.Wire.{short_length, long_length}

low_byte-mod : (n : ℕ) → low_byte n ≡ n % 256
low_byte-mod n = bit_and_byte n

-- `encodeFrame` writes an unmasked final text frame.
pub encode_length-eq : (n : ℕ) → n < 2 ^ 64 → encode_length n ≡ short_length n ∷ long_length n
unfolding encode_length big_endian
encode_length-eq n h = ground (
  arith,
  bit_and_byte n,
  bit_and_byte (n / 2 ^ 8),
  bit_and_byte (n / 2 ^ 16),
  bit_and_byte (n / 2 ^ 24),
  bit_and_byte (n / 2 ^ 32),
  bit_and_byte (n / 2 ^ 40),
  bit_and_byte (n / 2 ^ 48),
  bit_and_byte (n / 2 ^ 56),
)

-- One round of the loop over the eight length bytes.
shift_in_round :
    (m acc : ℕ) (bs : Bytes)
    → m < 2 ^ 64
    → acc ≡ m / 256
    → shift_in acc (m % 256 ∷ bs) ≡ shift_in m bs
unfolding shift_in
shift_in_round m acc bs h p = ap (λ t. shift_in t bs) joined
  where
    joined : bit_or (acc * 2 ^ 8 % 2 ^ 64) (m % 256) ≡ m
    joined =
        ap (λ t. bit_or t (m % 256)) {y = acc * 256} (omega arith)
        ∙ bit_or_byte acc (m % 256) (omega arith)
        ∙ (omega arith)

shift_in-nil : (n : ℕ) → shift_in n [] ≡ n
unfolding shift_in
shift_in-nil n = refl

-- The loop over the eight bytes gives the length back.
shift_in-long :
    (n : ℕ)
    → n < 2 ^ 64
    → shift_in 0 (
        n / 2 ^ 56 % 2 ^ 8
        ∷ n / 2 ^ 48 % 2 ^ 8
        ∷ n / 2 ^ 40 % 2 ^ 8
        ∷ n / 2 ^ 32 % 2 ^ 8
        ∷ n / 2 ^ 24 % 2 ^ 8
        ∷ n / 2 ^ 16 % 2 ^ 8
        ∷ n / 2 ^ 8 % 2 ^ 8
        ∷ n % 2 ^ 8
        ∷ [])
      ≡ n
shift_in-long n h =
    shift_in_round (n / 2 ^ 56) 0 _ (omega arith) (omega arith)
    ∙ shift_in_round (n / 2 ^ 48) (n / 2 ^ 56) _ (omega arith) (omega arith)
    ∙ shift_in_round (n / 2 ^ 40) (n / 2 ^ 48) _ (omega arith) (omega arith)
    ∙ shift_in_round (n / 2 ^ 32) (n / 2 ^ 40) _ (omega arith) (omega arith)
    ∙ shift_in_round (n / 2 ^ 24) (n / 2 ^ 32) _ (omega arith) (omega arith)
    ∙ shift_in_round (n / 2 ^ 16) (n / 2 ^ 24) _ (omega arith) (omega arith)
    ∙ shift_in_round (n / 2 ^ 8) (n / 2 ^ 16) _ (omega arith) (omega arith)
    ∙ shift_in_round n (n / 2 ^ 8) _ h (omega arith)
    ∙ shift_in-nil n

payload_length_short :
    (first second n : ℕ) (rest : Bytes)
    → second % 128 ≡ n
    → n ≤ 125
    → payload_length (first ∷ second ∷ rest) ≡ some (2, n)
unfolding payload_length
payload_length_short first second n rest e h = ground (arith, bit_and_seven_bits second)

payload_length_mid :
    (first second a b : ℕ) (rest : Bytes)
    → second % 128 ≡ 126
    → b < 256
    → payload_length (first ∷ second ∷ a ∷ b ∷ rest) ≡ some (4, a * 256 + b)
unfolding payload_length
payload_length_mid first second a b rest e h =
    ground (arith, bit_and_seven_bits second, bit_or_byte a b)

payload_length_long :
    (first second a b c d e f g k : ℕ) (rest : Bytes)
    → second % 128 ≡ 127
    → payload_length (first ∷ second ∷ a ∷ b ∷ c ∷ d ∷ e ∷ f ∷ g ∷ k ∷ rest)
      ≡ some (10, shift_in 0 (a ∷ b ∷ c ∷ d ∷ e ∷ f ∷ g ∷ k ∷ []))
unfolding payload_length
payload_length_long first second a b c d e f g k rest h = ground (arith, bit_and_seven_bits second)

pub payload_length_lem :
    (first mask n : ℕ) (rest : Bytes)
    → n < 2 ^ 64
    → mask % 128 ≡ 0
    → payload_length (first ∷ (mask + short_length n) ∷ (long_length n ++ rest))
      ≡ some (2 + length (long_length n), n)
payload_length_lem first mask n rest h m = elim (Bool-cases (leb n 125)) [
  | inl e ↦ rw e (payload_length_short first (mask + n) n rest (ground arith) (ground arith))
  | inr e ↦ elim (Bool-cases (leb n 65535)) [
    | inl g ↦
        rw (e, g)
          (payload_length_mid first (mask + 126) (n / 2 ^ 8 % 2 ^ 8) (n % 2 ^ 8) rest (omega arith)
              (omega arith)
            ∙ ap (λ t. some (4, t)) (ground arith))
    | inr g ↦
        rw (e, g)
          (payload_length_long first (mask + 127) _ _ _ _ _ _ _ _ rest (omega arith)
            ∙ ap (λ t. some (10, t)) (shift_in-long n h))
  ]
]
