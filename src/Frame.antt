-- ===== src/Frame.antt =====
-- src/WebSocketHandler.cpp: the frame codec (RFC 6455) of the server.
pub mod Wire
pub mod Lengths
pub mod Parse
pub mod Stream
pub mod Faults
mod Tests
use Prim.Native.Nat.{bit_and, bit_or, bit_xor}
use my_testserver.Prelude.{
  ℕ, zero, suc, ◌+◌, ◌-◌, ◌*◌, ◌/◌, ◌%◌, ◌^◌, Bool, not, ◌||◌, Option, none, some, [], ◌∷◌, ◌++◌,
  length, get_or, take, drop, Bytes, ltb, leb, ◌==◌, if◌then◌else◌,
}
use my_testserver.Prelude.Words.{add_size}

-- `static_cast<char>` and `(… & 0xFF)`.
abbrev pub low_byte : ℕ → ℕ
low_byte n = bit_and n 0xFF

-- The bytes of `len` from shift `8 * (n - 1)` down to 0.
pub big_endian : ℕ → ℕ → Bytes
big_endian zero len = []
big_endian (suc n) len = low_byte (len / 2 ^ (8 * n)) ∷ big_endian n len

pub encode_length : ℕ → Bytes
unfolding big_endian
encode_length len =
    if leb len 125
    then len ∷ []
    else if leb len 65535
    then 126 ∷ low_byte (len / 2 ^ 8) ∷ low_byte len ∷ []
    else 127 ∷ big_endian 8 len

pub encode_frame : Bytes → Bytes
unfolding encode_length
encode_frame message = bit_or 0x80 0x01 ∷ (encode_length (length message) ++ message)

-- What `parseFrame` leaves behind: `false` with no message, the exception that `reserve` throws,
-- or its outputs with the returned `fin`.
pub record Frame : Type 0 where
  pub message : Bytes
  pub frame_len : ℕ
  pub opcode : ℕ
  pub fin : Bool

pub data Parsed : Type 0 where
  rejected : Parsed
  length_error : Parsed
  parsed : Frame → Parsed

-- `bytes[i]`; the callers below have compared `i` with the length.
abbrev pub byte_at : Bytes → ℕ → ℕ
byte_at bytes i = get_or bytes i 0

-- `std::string::max_size()`, past which `reserve` throws.
abbrev pub max_size : ℕ
max_size = 2 ^ 63 - 1

-- `payloadLen = (payloadLen << 8) | byte`, in 64 bits, for each byte.
pub shift_in : ℕ → Bytes → ℕ
shift_in acc [] = acc
shift_in acc (b ∷ bs) = shift_in (bit_or (acc * 2 ^ 8 % 2 ^ 64) b) bs

-- `pos` behind the payload length, and the payload length; `none` where the bytes are not there.
pub payload_length : Bytes → Option (ℕ × ℕ)
unfolding shift_in
payload_length bytes =
    let short = bit_and (byte_at bytes 1) 0x7F in
    if short == 126
    then (if ltb (length bytes) (2 + 2)
        then none
        else some (2 + 2, bit_or (byte_at bytes 2 * 2 ^ 8) (byte_at bytes (2 + 1))))
    else if short == 127
    then (if ltb (length bytes) (2 + 8)
        then none
        else some (2 + 8, shift_in 0 (take 8 (drop 2 bytes))))
    else some (2, short)

-- `pos` behind the masking key, and the key. `stale` is what the uninitialised `maskingKey` holds.
pub masking_key : Bytes → Bytes → ℕ → Option (ℕ × Bytes)
masking_key stale bytes pos =
    if not (bit_and (byte_at bytes 1) 0x80 == 0)
    then (if ltb (length bytes) (pos + 4) then none else some (pos + 4, take 4 (drop pos bytes)))
    else some (pos, stale)

-- The loop over the payload, from index `i` on.
unfoldable pub unmask : Bytes → ℕ → Bytes → Bytes
unmask key i [] = []
unmask key i (b ∷ bs) = bit_xor b (get_or key (i % 4) 0) ∷ unmask key (i + 1) bs

-- The bound check on the payload, `reserve`, and the loop.
pub payload : Bytes → ℕ → Bytes → ℕ → Parsed
unfolding unmask
payload bytes pos key payload_len =
    if ltb (length bytes) (add_size pos payload_len)
    then rejected
    else if ltb max_size payload_len
    then length_error
    else parsed (record {
      message = unmask key 0 (take payload_len (drop pos bytes));
      frame_len = add_size pos payload_len;
      opcode = bit_and (byte_at bytes 0) 0x0F;
      fin = not (bit_and (byte_at bytes 0) 0x80 == 0);
    })

unfoldable pub is_supported : ℕ → Bool
is_supported opcode = opcode == 0x1 || opcode == 0x8

abbrev pub keyed : Bytes → ℕ → Option (ℕ × Bytes) → Parsed
keyed bytes payload_len none = rejected
keyed bytes payload_len (some (start, key)) = payload bytes start key payload_len

abbrev pub measured : Bytes → Bytes → Option (ℕ × ℕ) → Parsed
measured stale bytes none = rejected
measured stale bytes (some (pos, payload_len)) =
    keyed bytes payload_len (masking_key stale bytes pos)

-- From the payload length on.
pub parse_body : Bytes → Bytes → Parsed
unfolding payload_length masking_key payload
parse_body stale bytes = measured stale bytes (payload_length bytes)

-- The `parseFrame` that reads from a buffer; `length bytes` is `dataLen`.
unfoldable pub parse_frame : Bytes → Bytes → Parsed
unfolding parse_body is_supported
parse_frame stale bytes =
    if ltb (length bytes) 2
    then rejected
    else if is_supported (bit_and (byte_at bytes 0) 0x0F)
    then parse_body stale bytes
    else rejected
