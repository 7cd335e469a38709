-- ===== src/Prelude/Splice.antt =====
-- Laws of `write_at` and `resize`: what stands where after a copy into an array.
use my_testserver.Prelude.{
  ℕ, zero, suc, ◌+◌, ◌-◌, ◌≤◌, ◌≡◌, refl, sym, ap, ◌∙◌, [], ◌∷◌, ◌++◌, arith, length, take, drop,
  replicate, Bytes, overwrite, write_at, resize, length-append, length-take, length-replicate,
  take_of_le, drop-append_le, take-append_le, length-drop,
}

length-overwrite : (s d : Bytes) → length (overwrite s d) ≡ length s
unfolding overwrite
length-overwrite s [] = refl
length-overwrite [] (d ∷ ds) = refl
length-overwrite (x ∷ s) (d ∷ ds) = ap suc (length-overwrite s ds)

pub length-write_at : (s : Bytes) (i : ℕ) (d : Bytes) → length (write_at s i d) ≡ length s
unfolding write_at
length-write_at s zero d = length-overwrite s d
length-write_at [] (suc i) d = refl
length-write_at (x ∷ s) (suc i) d = ap suc (length-write_at s i d)

take-overwrite : (s d : Bytes) → length d ≤ length s → take (length d) (overwrite s d) ≡ d
unfolding overwrite
take-overwrite s [] h = refl
take-overwrite [] (d ∷ ds) h = elim h [ ]
take-overwrite (x ∷ s) (d ∷ ds) h = ap (◌∷◌ d) (take-overwrite s ds (omega arith))

-- Up to the end of the copied bytes stand the old bytes before them, then the copied bytes.
take-write_at_suc :
    (k : ℕ) (s d : Bytes)
    → k + length d ≤ length s
    → take (k + length d) (write_at s k d) ≡ take k s ++ d
unfolding write_at
take-write_at_suc zero s d h =
    ap (λ n. take n (overwrite s d)) {y = length d} (omega arith) ∙ take-overwrite s d (omega arith)
take-write_at_suc (suc k) [] d h = absurd (omega arith)
take-write_at_suc (suc k) (x ∷ s) d h =
    ap (λ n. take n (x ∷ write_at s k d)) {y = suc (k + length d)} (omega arith)
    ∙ ap (◌∷◌ x) (take-write_at_suc k s d (omega arith))

pub take-write_at :
    (m k : ℕ) (s d : Bytes)
    → m ≡ k + length d
    → m ≤ length s
    → take m (write_at s k d) ≡ take k s ++ d
take-write_at m k s d e h = rw e (take-write_at_suc k s d (omega arith))

pub drop-write_at :
    (r w : ℕ) (s d : Bytes) → r ≤ w → drop r (write_at s w d) ≡ write_at (drop r s) (w - r) d
unfolding write_at
drop-write_at zero w s d h = ap (λ k. write_at s k d) (omega arith)
drop-write_at (suc r) zero s d h = absurd (omega arith)
drop-write_at (suc r) (suc w) [] d h = sym (nil-write_at (suc w - suc r) d) ∙ refl
  where
    nil-write_at : (k : ℕ) (d : Bytes) → write_at [] k d ≡ []
    nil-write_at zero [] = refl
    nil-write_at zero (x ∷ d) = refl
    nil-write_at (suc k) d = refl
drop-write_at (suc r) (suc w) (x ∷ s) d h =
    drop-write_at r w s d (omega arith) ∙ ap (λ k. write_at (drop r s) k d) (omega arith)

-- The bytes from `r` to the end of a copy at `w`.
pub window-write_at :
    (r w n : ℕ) (s d : Bytes)
    → r ≤ w
    → n ≡ w - r + length d
    → w + length d ≤ length s
    → take n (drop r (write_at s w d)) ≡ take (w - r) (drop r s) ++ d
window-write_at r w n s d rw_le e h =
    ap (take n) (drop-write_at r w s d rw_le)
    ∙ take-write_at n (w - r) (drop r s) d e (omega (arith, length-drop r s))

pub length-resize : (s : Bytes) (n : ℕ) → length (resize s n) ≡ n
unfolding resize
length-resize s n = omega (
  arith,
  length-append (take n s) (replicate (n - length s) 0),
  length-take n s,
  length-replicate {A = ℕ} (n - length s) 0,
)

-- Growing keeps what stood there.
pub window-resize :
    (r k n : ℕ) (s : Bytes)
    → r + k ≤ length s
    → length s ≤ n
    → take k (drop r (resize s n)) ≡ take k (drop r s)
unfolding resize
window-resize r k n s h g =
    ap (λ t. take k (drop r (t ++ replicate (n - length s) 0))) (take_of_le n s g)
    ∙ ap (take k) (drop-append_le r s (replicate (n - length s) 0) (omega arith))
    ∙ take-append_le k (drop r s) (replicate (n - length s) 0) (omega (arith, length-drop r s))
