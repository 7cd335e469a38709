-- ===== src/Frame/Wire.antt =====
-- The frame format of RFC 6455, section 5.2, as a client or a server puts it on the wire; written
-- with plain arithmetic, apart from the code.
use my_testserver.Prelude.{
  ℕ, ◌+◌, ◌/◌, ◌%◌, ◌^◌, ◌≡◌, Bool, Option, none, some, [], ◌∷◌, ◌++◌, length, Bytes, leb,
  if◌then◌else◌, get_or,
}
use Prim.Native.Nat.{bit_xor}

-- The seven low bits of the second byte.
abbrev pub short_length : ℕ → ℕ
short_length n = if leb n 125 then n else if leb n 65535 then 126 else 127

-- The bytes of an extended payload length.
abbrev pub long_length : ℕ → Bytes
long_length n =
    if leb n 125
    then []
    else if leb n 65535
    then n / 2 ^ 8 % 2 ^ 8 ∷ n % 2 ^ 8 ∷ []
    else n / 2 ^ 56 % 2 ^ 8
      ∷ n / 2 ^ 48 % 2 ^ 8
      ∷ n / 2 ^ 40 % 2 ^ 8
      ∷ n / 2 ^ 32 % 2 ^ 8
      ∷ n / 2 ^ 24 % 2 ^ 8
      ∷ n / 2 ^ 16 % 2 ^ 8
      ∷ n / 2 ^ 8 % 2 ^ 8
      ∷ n % 2 ^ 8
      ∷ []

-- The masking key as sent, and what it makes of the message. A key has four bytes.
abbrev pub mask_bit : Option Bytes → ℕ
mask_bit none = 0
mask_bit (some key) = 0x80

abbrev pub key_bytes : Option Bytes → Bytes
key_bytes none = []
key_bytes (some key) = key

-- Octet i of the message XOR octet i modulo 4 of the key (section 5.3): the four octets of the key
-- take turns.
abbrev pub masked_by : ℕ → ℕ → ℕ → ℕ → Bytes → Bytes
masked_by k₀ k₁ k₂ k₃ [] = []
masked_by k₀ k₁ k₂ k₃ (octet ∷ message) = bit_xor octet k₀ ∷ masked_by k₁ k₂ k₃ k₀ message

abbrev pub masked : Bytes → Bytes → Bytes
masked key message =
    masked_by (get_or key 0 0) (get_or key 1 0) (get_or key 2 0) (get_or key 3 0) message

abbrev pub sent : Option Bytes → Bytes → Bytes
sent none message = message
sent (some key) message = masked key message

abbrev pub fin_bit : Bool → ℕ
fin_bit fin = if fin then 0x80 else 0

abbrev pub HasKey : Option Bytes → Type 0
HasKey none = Unit {0}
HasKey (some key) = length key ≡ 4

abbrev pub header_length : Option Bytes → ℕ → ℕ
header_length mask n = 2 + length (long_length n) + length (key_bytes mask)

abbrev pub wire : Bool → ℕ → Option Bytes → Bytes → Bytes
wire fin opcode mask message =
    (fin_bit fin + opcode)
    ∷ (mask_bit mask + short_length (length message))
    ∷ (long_length (length message) ++ (key_bytes mask ++ sent mask message))

-- What a receiver makes of the payload, if it takes `stale` for the key of an unmasked frame.
abbrev pub received : Bytes → Option Bytes → Bytes → Bytes
received stale none message = masked stale message
received stale (some key) message = message
