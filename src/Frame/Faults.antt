-- ===== src/Frame/Faults.antt =====
-- `parseFrame` on wrapped lengths and on frames without a mask.
use my_testserver.Prelude.{
  ℕ, ◌+◌, ◌%◌, ◌≤◌, ◌<◌, ◌≡◌, refl, sym, ap, ◌∙◌, true, none, [], ◌∷◌, ◌++◌, arith, inl, length,
  get_or, Bytes,
}
use mathlib.Core.List.{head-eq_of_cons-eq, tail-eq_of_cons-eq}
use native.Mathlib.Decide.{dec_lt}
use my_testserver.Prelude.Xor.{bit_xor_cancel}
use my_testserver.Frame.{
  Frame, Parsed, rejected, parsed, length_error, encode_frame, unmask, parse_frame, max_size,
}
use my_testserver.Frame.Parse.{encode_frame-wire, parse_frame-wire, unmask-masked}

-- A key under which unmasking changes no byte of the message is zero wherever it is used.
unmask_same :
    (key : Bytes) (i : ℕ) (m : Bytes)
    → unmask key i m ≡ m
    → (j : ℕ) → i ≤ j
    → j < i + length m
    → get_or key (j % 4) 0 ≡ 0
unfolding unmask
unmask_same key i [] e j lo hi = absurd (omega arith)
unmask_same key i (b ∷ m) e j lo hi = elim (dec_lt i j) [
  | yes lt ↦ unmask_same key (i + 1) m (tail-eq_of_cons-eq e) j (omega arith) (omega arith)
  | no ge ↦
      ap (λ t. get_or key (t % 4) 0) {y = i} (omega arith)
      ∙ bit_xor_cancel b (get_or key (i % 4) 0) (head-eq_of_cons-eq e)
]

-- If parseFrame reads an unmasked frame of encodeFrame as the message that was encoded, then
-- every byte that it used of the uninitialised masking key was zero.
pub unmasked_needs_zero_key :
    (stale m rest : Bytes) (f : Frame)
    → length m ≤ max_size
    → parse_frame stale (encode_frame m ++ rest) ≡ parsed f
    → f.message ≡ m
    → (j : ℕ) → j < length m
    → get_or stale (j % 4) 0 ≡ 0
unmasked_needs_zero_key stale m rest f small e same j lt =
    unmask_same stale 0 m (sym message ∙ same) j (omega arith) (omega arith)
  where
    message : f.message ≡ unmask stale 0 m
    message =
        ap message_of (
          sym e
          ∙ ap (λ t. parse_frame stale (t ++ rest)) (encode_frame-wire m (omega arith))
          ∙ parse_frame-wire stale true 1 none m rest (inl refl) tt small)
        ∙ sym (unmask-masked stale m)
      where
        message_of : Parsed → Bytes
        message_of rejected = []
        message_of length_error = []
        message_of (parsed g) = g.message
