-- ===== src/Frame/Parse.antt =====
-- `parseFrame` and `encodeFrame` against the wire format.
use Prim.Native.Nat.{bit_and, bit_xor}
use my_testserver.Prelude.{
  ℕ, suc, ◌+◌, ◌/◌, ◌%◌, ◌^◌, ◌≤◌, ◌<◌, ◌≡◌, refl, sym, ap, ap₂, ◌∙◌, ◌⊎◌, Bool, true, false, not,
  ◌==◌, Option, some, none, [], ◌∷◌, ◌++◌, arith, length, take, drop, Bytes, length-append,
  drop-append_self, take-append_self, append_assoc, get_or,
}
use my_testserver.Prelude.Xor.{bit_xor_undo}
use my_testserver.Prelude.Bits.{bit_and_nibble, bit_and_high}
use my_testserver.Frame.{
  Frame, parsed, encode_frame, masking_key, keyed, measured, unmask, payload, parse_body,
  parse_frame, is_supported, max_size,
}
use my_testserver.Frame.Wire.{
  short_length, long_length, masked_by, masked, wire, received, sent, mask_bit, key_bytes, HasKey,
  fin_bit, header_length,
}
use my_testserver.Frame.Lengths.{encode_length-eq, payload_length_lem}

-- Masking twice with one key gives the message back.
pub unmask_undo : (key : Bytes) (i : ℕ) (m : Bytes) → unmask key i (unmask key i m) ≡ m
unfolding unmask
unmask_undo key i [] = refl
unmask_undo key i (b ∷ m) = ap₂ ◌∷◌ (bit_xor_undo b _) (unmask_undo key (i + 1) m)

pub length-unmask : (key : Bytes) (i : ℕ) (m : Bytes) → length (unmask key i m) ≡ length m
unfolding unmask
length-unmask key i [] = refl
length-unmask key i (b ∷ m) = ap suc (length-unmask key (i + 1) m)

-- encodeFrame writes the unmasked final text frame of RFC 6455 for every message shorter than
-- 2^64 bytes.
pub encode_frame-wire : (m : Bytes) → length m < 2 ^ 64 → encode_frame m ≡ wire true 1 none m
unfolding encode_frame
encode_frame-wire m h =
    ap (λ t. 0x81 ∷ (t ++ m)) (encode_length-eq (length m) h)
    ∙ ap (λ t. 0x81 ∷ t ∷ (long_length (length m) ++ m)) (omega arith)

-- The code's index modulo 4, and the octets of the key in turn.
unmask-masked_by :
    (key : Bytes) (i : ℕ) (m : Bytes)
    → unmask key i m
      ≡ masked_by
          (get_or key (i % 4) 0)
          (get_or key ((i + 1) % 4) 0)
          (get_or key ((i + 2) % 4) 0)
          (get_or key ((i + 3) % 4) 0)
          m
unfolding unmask
unmask-masked_by key i [] = refl
unmask-masked_by key i (b ∷ m) = ap (◌∷◌ (bit_xor b (octet i))) (
    unmask-masked_by key (i + 1) m
    ∙ ap₂ (λ j k. masked_by (octet (i + 1)) j k (octet (i + 1 + 3)) m)
        (ap octet {y = i + 2} (omega arith)) (ap octet {y = i + 3} (omega arith))
    ∙ ap (λ k. masked_by (octet (i + 1)) (octet (i + 2)) (octet (i + 3)) k m)
        (ap (λ j. get_or key j 0) {x = (i + 1 + 3) % 4} {y = i % 4} (omega arith)))
  where
    octet : ℕ → ℕ
    octet j = get_or key (j % 4) 0

pub unmask-masked : (key m : Bytes) → unmask key 0 m ≡ masked key m
unmask-masked key m = unmask-masked_by key 0 m

length-masked : (key m : Bytes) → length (masked key m) ≡ length m
length-masked key m = ap length (sym (unmask-masked key m)) ∙ length-unmask key 0 m

abbrev pub IsSupported : ℕ → Type 0
IsSupported opcode = (opcode ≡ 0x1) ⊎ (opcode ≡ 0x8)

pub opcode_read :
    (fin : Bool) (opcode : ℕ) → IsSupported opcode → bit_and (fin_bit fin + opcode) 0x0F ≡ opcode
opcode_read true opcode h = omega (arith, bit_and_nibble (0x80 + opcode))
opcode_read false opcode h = omega (arith, bit_and_nibble (0 + opcode))

pub supported_read : (opcode : ℕ) → IsSupported opcode → is_supported opcode ≡ true
unfolding is_supported
supported_read opcode h = ground arith

pub masking_key-none :
    (stale : Bytes) (first second pos : ℕ) (rest : Bytes)
    → second / 0x80 % 2 ≡ 0
    → masking_key stale (first ∷ second ∷ rest) pos ≡ some (pos, stale)
unfolding masking_key
masking_key-none stale first second pos rest h = ground (arith, bit_and_high second)

masking_key-some :
    (stale : Bytes) (first second pos : ℕ) (rest key after : Bytes)
    → second / 0x80 % 2 ≡ 1
    → length key ≡ 4
    → pos + 4 ≤ 2 + length rest
    → drop pos (first ∷ second ∷ rest) ≡ key ++ after
    → masking_key stale (first ∷ second ∷ rest) pos ≡ some (pos + 4, key)
unfolding masking_key
masking_key-some stale first second pos rest key after h k room e =
    ground (arith, bit_and_high second, taken)
  where
    taken : take 4 (drop pos (first ∷ second ∷ rest)) ≡ key
    taken = ap (take 4) e ∙ ap (λ n. take n (key ++ after)) (sym k) ∙ take-append_self key after

pub fin_read :
    (fin : Bool) (opcode : ℕ)
    → IsSupported opcode
    → not (bit_and (fin_bit fin + opcode) 0x80 == 0) ≡ fin
fin_read true opcode h = ground (arith, bit_and_high (0x80 + opcode))
fin_read false opcode h = ground (arith, bit_and_high (0 + opcode))

-- The last stage, on a payload that is there.
payload_lem :
    (fin : Bool) (opcode second pos n : ℕ) (rest key body after : Bytes)
    → IsSupported opcode
    → pos ≤ 14
    → length body ≡ n
    → n ≤ max_size
    → drop pos ((fin_bit fin + opcode) ∷ second ∷ rest) ≡ body ++ after
    → pos + n ≤ 2 + length rest
    → payload ((fin_bit fin + opcode) ∷ second ∷ rest) pos key n
      ≡ parsed
          (record { message = unmask key 0 body; frame_len = pos + n; opcode = opcode; fin = fin })
unfolding payload
payload_lem fin opcode second pos n rest key body after ok p l small e room =
    ground (arith, ap (unmask key 0) taken, opcode_read fin opcode ok, fin_read fin opcode ok)
  where
    taken : take n (drop pos ((fin_bit fin + opcode) ∷ second ∷ rest)) ≡ body
    taken = ap (take n) e ∙ ap (λ k. take k (body ++ after)) (sym l) ∙ take-append_self body after

pub drop_two : (k a b : ℕ) (xs : Bytes) → drop (2 + k) (a ∷ b ∷ xs) ≡ drop k xs
drop_two k a b xs = ap (λ n. drop n (a ∷ b ∷ xs)) {y = suc (suc k)} (omega arith)

-- Behind the extended length and the key.
drop_header :
    (a b : ℕ) (long key xs : Bytes)
    → drop (2 + length long + length key) (a ∷ b ∷ (long ++ (key ++ xs))) ≡ xs
drop_header a b long key xs =
    ap (λ n. drop n (a ∷ b ∷ (long ++ (key ++ xs)))) {y = 2 + length (long ++ key)}
      (omega (arith, length-append long key))
    ∙ drop_two (length (long ++ key)) a b (long ++ (key ++ xs))
    ∙ ap (drop (length (long ++ key))) (sym (append_assoc long key xs))
    ∙ drop-append_self (long ++ key) xs

length-long_length : (n : ℕ) → length (long_length n) ≤ 8
length-long_length n = ground arith

abbrev pub frame_of : Bytes → Bool → ℕ → Option Bytes → Bytes → Frame
frame_of stale fin opcode mask message = record {
  message = received stale mask message;
  frame_len = header_length mask (length message) + length message;
  opcode = opcode;
  fin = fin;
}

-- The bytes of a frame and what follows, bracketed to the right.
abbrev laid : Bool → ℕ → Option Bytes → Bytes → Bytes → Bytes
laid fin opcode mask message rest =
    (fin_bit fin + opcode)
    ∷ (mask_bit mask + short_length (length message))
    ∷ (long_length (length message) ++ (key_bytes mask ++ (sent mask message ++ rest)))

wire-laid :
    (fin : Bool) (opcode : ℕ) (mask : Option Bytes) (message rest : Bytes)
    → wire fin opcode mask message ++ rest ≡ laid fin opcode mask message rest
wire-laid fin opcode mask message rest =
    ap (λ t. (fin_bit fin + opcode) ∷ (mask_bit mask + short_length (length message)) ∷ t)
      (append_assoc (long_length (length message)) (key_bytes mask ++ sent mask message) rest
        ∙ ap (◌++◌ (long_length (length message)))
            (append_assoc (key_bytes mask) (sent mask message) rest))

short_length-lt : (n : ℕ) → short_length n < 128
short_length-lt n = ground arith

-- The third stage finds the message behind the header, and unmasks it.
payload-laid :
    (fin : Bool) (opcode : ℕ) (mask : Option Bytes) (message rest key : Bytes)
    → IsSupported opcode
    → length (key_bytes mask) ≤ 4
    → length (sent mask message) ≡ length message
    → length message ≤ max_size
    → payload
        (laid fin opcode mask message rest)
        (2 + length (long_length (length message)) + length (key_bytes mask))
        key
        (length message)
      ≡ parsed (record {
        message = unmask key 0 (sent mask message);
        frame_len = header_length mask (length message) + length message;
        opcode = opcode;
        fin = fin;
      })
payload-laid fin opcode mask message rest key ok k l small =
    payload_lem fin opcode (mask_bit mask + short_length (length message)) _ (length message) _ key
      (sent mask message) rest ok (omega (arith, length-long_length (length message))) l small
      (drop_header _ _ (long_length (length message)) (key_bytes mask) _)
      (omega (
        arith,
        length-append (long_length (length message))
            (key_bytes mask ++ (sent mask message ++ rest)),
        length-append (key_bytes mask) (sent mask message ++ rest),
        length-append (sent mask message) rest,
      ))

laid_key :
    (stale : Bytes) (fin : Bool) (opcode : ℕ) (mask : Option Bytes) (message rest : Bytes)
    → IsSupported opcode
    → HasKey mask
    → length message ≤ max_size
    → keyed (laid fin opcode mask message rest) (length message) (
        masking_key stale
          (laid fin opcode mask message rest)
          (2 + length (long_length (length message))))
      ≡ parsed (frame_of stale fin opcode mask message)
laid_key stale fin opcode none message rest ok k small =
    ap (keyed _ (length message)) (
      masking_key-none stale _ (0 + short_length (length message)) _ _
        (omega (arith, short_length-lt (length message))))
    ∙ ap (λ pos. payload (laid fin opcode none message rest) pos stale (length message))
        (omega arith)
    ∙ payload-laid fin opcode none message rest stale ok (omega arith) refl small
    ∙ ap
        (λ m. parsed (record {
          message = m;
          frame_len = header_length none (length message) + length message;
          opcode = opcode;
          fin = fin;
        }))
        (unmask-masked stale message)
laid_key stale fin opcode (some key) message rest ok k small =
    ap (keyed _ (length message)) (
      masking_key-some stale _ (0x80 + short_length (length message)) _ _ key
        (masked key message ++ rest) (omega (arith, short_length-lt (length message))) k
        (omega (
          arith,
          length-append (long_length (length message)) (key ++ (masked key message ++ rest)),
          length-append key (masked key message ++ rest),
        ))
        (drop_two (length (long_length (length message))) _ _ _
          ∙ drop-append_self (long_length (length message)) _))
    ∙ ap (λ n. payload (laid fin opcode (some key) message rest) n key (length message))
        {x = 2 + length (long_length (length message)) + 4} (omega arith)
    ∙ payload-laid fin opcode (some key) message rest key ok (omega arith)
        (length-masked key message) small
    ∙ ap
        (λ m. parsed (record {
          message = m;
          frame_len = header_length (some key) (length message) + length message;
          opcode = opcode;
          fin = fin;
        }))
        (ap (unmask key 0) (sym (unmask-masked key message)) ∙ unmask_undo key 0 message)

pub parse_frame_supported :
    (stale : Bytes) (first second : ℕ) (rest : Bytes)
    → is_supported (bit_and first 0x0F) ≡ true
    → parse_frame stale (first ∷ second ∷ rest) ≡ parse_body stale (first ∷ second ∷ rest)
unfolding parse_frame
parse_frame_supported stale first second rest h = ground arith

mask_bit-mod : (mask : Option Bytes) → mask_bit mask % 128 ≡ 0
mask_bit-mod none = refl
mask_bit-mod (some key) = refl

-- A text or close frame in the format of RFC 6455, final or not, with any length encoding, is
-- parsed with its opcode, fin, total length and, where it is masked, its message, whatever bytes
-- follow it in the buffer.
pub parse_frame-wire :
    (stale : Bytes) (fin : Bool) (opcode : ℕ) (mask : Option Bytes) (message rest : Bytes)
    → IsSupported opcode
    → HasKey mask
    → length message ≤ max_size
    → parse_frame stale (wire fin opcode mask message ++ rest)
      ≡ parsed (frame_of stale fin opcode mask message)
unfolding parse_body
parse_frame-wire stale fin opcode mask message rest ok k small =
    ap (parse_frame stale) (wire-laid fin opcode mask message rest)
    ∙ parse_frame_supported stale _ _ _
        (ap is_supported (opcode_read fin opcode ok) ∙ supported_read opcode ok)
    ∙ ap (measured stale (laid fin opcode mask message rest)) (
        payload_length_lem (fin_bit fin + opcode) (mask_bit mask) (length message) _ (omega arith)
          (mask_bit-mod mask))
    ∙ laid_key stale fin opcode mask message rest ok k small

pub length-wire :
    (fin : Bool) (opcode : ℕ) (mask : Option Bytes) (message : Bytes)
    → length (wire fin opcode mask message) ≡ header_length mask (length message) + length message
length-wire fin opcode none message =
    omega (arith, length-append (long_length (length message)) message)
length-wire fin opcode (some key) message = omega (
  arith,
  length-append (long_length (length message)) (key ++ masked key message),
  length-append key (masked key message),
  length-masked key message,
)
