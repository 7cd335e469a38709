-- ===== src/Frame/Stream.antt =====
-- `parseFrame` on a buffer that is still filling up.
use Prim.Native.Nat.{bit_and}
use my_testserver.Prelude.{
  ℕ, ◌+◌, ◌≤◌, ◌<◌, ◌≡◌, ◌≢◌, refl, sym, ap, ◌∙◌, ◌⊎◌, inl, inr, Bool, false, Option, some, [], ◌∷◌,
  ◌++◌, arith, length, take, drop, Bytes, Bool-cases, Option-cases, length-append, length-take,
  length-drop, take-append-drop, get_or-append_le, drop-append_le, take-append_le, append-nil,
}
use my_testserver.Frame.{
  Frame, Parsed, parsed, rejected, length_error, payload_length, masking_key, keyed, measured,
  payload, parse_body, parse_frame, is_supported, max_size,
}
use my_testserver.Frame.Wire.{wire, HasKey, header_length}
use my_testserver.Frame.Parse.{
  length-unmask, IsSupported, frame_of, parse_frame-wire, parse_frame_supported,
}

-- Where the extended length is read.
payload_length_pos :
    (bytes : Bytes) (pos n : ℕ)
    → 2 ≤ length bytes
    → payload_length bytes ≡ some (pos, n)
    → (2 ≤ pos) × (pos ≤ 10) × (pos ≤ length bytes)
unfolding payload_length
payload_length_pos bytes pos n h e = ground arith

masking_key_pos :
    (stale bytes : Bytes) (pos start : ℕ) (key : Bytes)
    → pos ≤ length bytes
    → masking_key stale bytes pos ≡ some (start, key)
    → (pos ≤ start) × (start ≤ pos + 4) × (start ≤ length bytes)
unfolding masking_key
masking_key_pos stale bytes pos start key h e = ground arith

payload-append :
    (bytes more : Bytes) (pos : ℕ) (key : Bytes) (n : ℕ)
    → 1 ≤ length bytes
    → pos ≤ 14
    → payload bytes pos key n ≢ rejected
    → payload (bytes ++ more) pos key n ≡ payload bytes pos key n
unfolding payload
payload-append bytes more pos key n one h ne =
    ground (arith, length-append bytes more, get_or-append_le bytes more 0 0, taken)
  where
    taken : pos + n ≤ length bytes → take n (drop pos (bytes ++ more)) ≡ take n (drop pos bytes)
    taken room =
        ap (take n) (drop-append_le pos bytes more (omega arith))
        ∙ take-append_le n (drop pos bytes) more (omega (arith, length-drop pos bytes))

payload_bounds :
    (bytes : Bytes) (pos : ℕ) (key : Bytes) (n : ℕ) (f : Frame)
    → pos ≤ 14
    → payload bytes pos key n ≡ parsed f
    → (f.frame_len ≤ length bytes) × (f.frame_len ≡ pos + length f.message)
unfolding payload
payload_bounds bytes pos key n f h e = ground (
  arith,
  length-unmask key 0 (take n (drop pos bytes)),
  length-take n (drop pos bytes),
  length-drop pos bytes,
)

masking_key-append :
    (stale : Bytes) (a b : ℕ) (ds more : Bytes) (pos : ℕ) (r : ℕ × Bytes)
    → masking_key stale (a ∷ b ∷ ds) pos ≡ some r
    → masking_key stale (a ∷ b ∷ (ds ++ more)) pos ≡ some r
unfolding masking_key
masking_key-append stale a b ds more pos r e = ground (arith, length-append ds more, taken)
  where
    taken :
        pos + 4 ≤ length (a ∷ b ∷ ds)
        → take 4 (drop pos (a ∷ b ∷ (ds ++ more))) ≡ take 4 (drop pos (a ∷ b ∷ ds))
    taken room =
        ap (take 4) (drop-append_le pos (a ∷ b ∷ ds) more (omega arith))
        ∙ take-append_le 4 (drop pos (a ∷ b ∷ ds)) more
            (omega (arith, length-drop pos (a ∷ b ∷ ds)))

payload_length-append :
    (a b : ℕ) (ds more : Bytes) (r : ℕ × ℕ)
    → payload_length (a ∷ b ∷ ds) ≡ some r
    → payload_length (a ∷ b ∷ (ds ++ more)) ≡ some r
unfolding payload_length
payload_length-append a b ds more r e = ground (
  arith,
  length-append ds more,
  get_or-append_le ds more 0 0,
  get_or-append_le ds more 1 0,
  take-append_le 8 ds more,
)

-- The last stage behind a key that is there.
keyed-append :
    (stale : Bytes) (a b : ℕ) (ds more : Bytes) (pos n : ℕ)
    → pos ≤ 10
    → pos ≤ length (a ∷ b ∷ ds)
    → keyed (a ∷ b ∷ ds) n (masking_key stale (a ∷ b ∷ ds) pos) ≢ rejected
    → keyed (a ∷ b ∷ (ds ++ more)) n (masking_key stale (a ∷ b ∷ (ds ++ more)) pos)
      ≡ keyed (a ∷ b ∷ ds) n (masking_key stale (a ∷ b ∷ ds) pos)
keyed-append stale a b ds more pos n p room ne =
    elim (Option-cases (masking_key stale (a ∷ b ∷ ds) pos)) [
      | inl e ↦ absurd (ne (ap (keyed (a ∷ b ∷ ds) n) e))
      | inr ((start, key), e) ↦
          ap (keyed (a ∷ b ∷ (ds ++ more)) n)
            (masking_key-append stale a b ds more pos (start, key) e)
          ∙ payload-append (a ∷ b ∷ ds) more start key n (omega arith)
              (omega (arith, masking_key_pos stale (a ∷ b ∷ ds) pos start key room e))
              (λ r. ne (ap (keyed (a ∷ b ∷ ds) n) e ∙ r))
          ∙ ap (keyed (a ∷ b ∷ ds) n) (sym e)
    ]

body-append :
    (stale : Bytes) (a b : ℕ) (ds more : Bytes)
    → parse_body stale (a ∷ b ∷ ds) ≢ rejected
    → parse_body stale (a ∷ b ∷ (ds ++ more)) ≡ parse_body stale (a ∷ b ∷ ds)
unfolding parse_body
body-append stale a b ds more ne = elim (Option-cases (payload_length (a ∷ b ∷ ds))) [
  | inl e ↦ absurd (ne (ap (measured stale (a ∷ b ∷ ds)) e))
  | inr ((pos, n), e) ↦
      let at = payload_length_pos (a ∷ b ∷ ds) pos n (omega arith) e in
      ap (measured stale (a ∷ b ∷ (ds ++ more))) (payload_length-append a b ds more (pos, n) e)
      ∙ keyed-append stale a b ds more pos n at.1 at.2
          (λ r. ne (ap (measured stale (a ∷ b ∷ ds)) e ∙ r))
      ∙ ap (measured stale (a ∷ b ∷ ds)) (sym e)
]

parse_frame_short : (stale bytes : Bytes) → length bytes < 2 → parse_frame stale bytes ≡ rejected
unfolding parse_frame
parse_frame_short stale bytes h = ground arith

-- Any other opcode is refused, be the frame complete or not.
pub parse_frame_unsupported :
    (stale : Bytes) (first second : ℕ) (rest : Bytes)
    → is_supported (bit_and first 0x0F) ≡ false
    → parse_frame stale (first ∷ second ∷ rest) ≡ rejected
unfolding parse_frame
parse_frame_unsupported stale first second rest h = ground arith

-- An answer of parseFrame other than false is not changed by bytes that arrive later.
pub parse_frame-append :
    (stale bytes more : Bytes)
    → parse_frame stale bytes ≢ rejected
    → parse_frame stale (bytes ++ more) ≡ parse_frame stale bytes
parse_frame-append stale [] more ne = absurd (ne (parse_frame_short stale [] (omega arith)))
parse_frame-append stale (a ∷ []) more ne =
    absurd (ne (parse_frame_short stale (a ∷ []) (omega arith)))
parse_frame-append stale (a ∷ b ∷ ds) more ne = elim (Bool-cases (is_supported (bit_and a 0x0F))) [
  | inl ok ↦
      parse_frame_supported stale a b (ds ++ more) ok
      ∙ body-append stale a b ds more (λ r. ne (parse_frame_supported stale a b ds ok ∙ r))
      ∙ sym (parse_frame_supported stale a b ds ok)
  | inr bad ↦ absurd (ne (parse_frame_unsupported stale a b ds bad))
]

keyed_bounds :
    (stale bytes : Bytes) (pos n : ℕ) (f : Frame)
    → 2 ≤ pos
    → pos ≤ 10
    → pos ≤ length bytes
    → keyed bytes n (masking_key stale bytes pos) ≡ parsed f
    → (f.frame_len ≤ length bytes) × (2 + length f.message ≤ f.frame_len)
keyed_bounds stale bytes pos n f two p room e = elim (Option-cases (masking_key stale bytes pos)) [
  | inl k ↦ absurd (rejected≢parsed f (ap (keyed bytes n) (sym k) ∙ e))
  | inr ((start, key), k) ↦
      let at = masking_key_pos stale bytes pos start key room k in
      let out = payload_bounds bytes start key n f (omega arith) (ap (keyed bytes n) (sym k) ∙ e) in
      omega arith
]
  where
    rejected≢parsed : (f : Frame) → rejected ≢ parsed f
    rejected≢parsed f e = cc

body_bounds :
    (stale bytes : Bytes) (f : Frame)
    → 2 ≤ length bytes
    → parse_body stale bytes ≡ parsed f
    → (f.frame_len ≤ length bytes) × (2 + length f.message ≤ f.frame_len)
unfolding parse_body
body_bounds stale bytes f two e = elim (Option-cases (payload_length bytes)) [
  | inl k ↦ absurd (rejected≢parsed f (ap (measured stale bytes) (sym k) ∙ e))
  | inr ((pos, n), k) ↦
      let at = payload_length_pos bytes pos n two k in
      keyed_bounds stale bytes pos n f at.0 at.1 at.2 (ap (measured stale bytes) (sym k) ∙ e)
]
  where
    rejected≢parsed : (f : Frame) → rejected ≢ parsed f
    rejected≢parsed f e = cc

-- A frame that parseFrame accepts lies within the given bytes, and holds its message behind two
-- bytes at least.
pub parse_frame_bounds :
    (stale bytes : Bytes) (f : Frame)
    → parse_frame stale bytes ≡ parsed f
    → (f.frame_len ≤ length bytes) × (2 + length f.message ≤ f.frame_len)
unfolding parse_frame
parse_frame_bounds stale bytes f e = ground (arith, body_bounds stale bytes f)

Parsed-cases : (p : Parsed) → (p ≡ rejected) ⊎ (p ≢ rejected)
Parsed-cases rejected = inl refl
Parsed-cases length_error = inr (λ e. cc)
Parsed-cases (parsed f) = inr (λ e. cc)

-- As long as at least one byte of a text or close frame is missing, parseFrame returns false, so
-- that an incomplete frame is never consumed.
pub parse_frame-prefix :
    (stale : Bytes) (fin : Bool) (opcode : ℕ) (mask : Option Bytes) (message : Bytes) (n : ℕ)
    → IsSupported opcode
    → HasKey mask
    → length message ≤ max_size
    → n < header_length mask (length message) + length message
    → parse_frame stale (take n (wire fin opcode mask message)) ≡ rejected
parse_frame-prefix stale fin opcode mask message n ok k small short =
    elim (Parsed-cases (parse_frame stale (take n frame))) [
      | inl e ↦ e
      | inr ne ↦
          let whole =
            sym (parse_frame-append stale (take n frame) (drop n frame) ne)
            ∙ ap (parse_frame stale) (take-append-drop n frame ∙ sym (append-nil frame))
            ∙ parse_frame-wire stale fin opcode mask message [] ok k small in
          absurd (
            omega (
              arith,
              parse_frame_bounds stale (take n frame) (frame_of stale fin opcode mask message)
                  whole,
              length-take n frame,
            ))
    ]
  where
    frame : Bytes
    frame = wire fin opcode mask message
