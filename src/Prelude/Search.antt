-- ===== src/Prelude/Search.antt =====
-- What `find` and `std::search` promise: the first place where the needle stands.
use my_testserver.Prelude.{
  ℕ, zero, suc, ◌+◌, ◌<◌, ◌≡◌, inl, inr, true, false, [], ◌∷◌, Option, none, some, arith, length,
  drop, Bytes, starts_with, search_at, Bool-cases,
}

-- No match of the needle starts before `n`.
abbrev pub Misses : Bytes → Bytes → ℕ → Type 0
Misses needle hay n = (k : ℕ) → k < n → starts_with needle (drop k hay) ≡ false

-- `some j` is the first match, with indices that start at `i`; `none` means that there is none.
abbrev pub IsFirst : Bytes → Bytes → ℕ → Option ℕ → Type 0
IsFirst needle hay i none = Misses needle hay (suc (length hay))
IsFirst needle hay i (some j) =
    (n : ℕ) × (j ≡ i + n) × (starts_with needle (drop n hay) ≡ true) × Misses needle hay n

Misses-cons :
    (needle : Bytes) (y : ℕ) (ys : Bytes) (n : ℕ)
    → starts_with needle (y ∷ ys) ≡ false
    → Misses needle ys n
    → Misses needle (y ∷ ys) (suc n)
Misses-cons needle y ys n e h zero lt = e
Misses-cons needle y ys n e h (suc k) lt = h k (omega arith)

IsFirst-cons :
    (needle : Bytes) (y : ℕ) (ys : Bytes) (i : ℕ) (r : Option ℕ)
    → starts_with needle (y ∷ ys) ≡ false
    → IsFirst needle ys (i + 1) r
    → IsFirst needle (y ∷ ys) i r
IsFirst-cons needle y ys i none e h = Misses-cons needle y ys (suc (length ys)) e h
IsFirst-cons needle y ys i (some j) e h =
    (suc h.0, omega (arith, h.1), h.2, Misses-cons needle y ys h.0 e h.3)

Misses-nil : (needle : Bytes) → starts_with needle [] ≡ false → Misses needle [] 1
Misses-nil needle e zero lt = e
Misses-nil needle e (suc k) lt = absurd (omega arith)

pub search_at-IsFirst : (needle hay : Bytes) (i : ℕ) → IsFirst needle hay i (search_at needle hay i)
unfolding search_at
search_at-IsFirst needle [] i = elim (Bool-cases (starts_with needle [])) [
  | inl e ↦ rw e (0, omega arith, e, λ k lt. absurd (omega arith))
  | inr e ↦ rw e (Misses-nil needle e)
]
search_at-IsFirst needle (y ∷ ys) i = elim (Bool-cases (starts_with needle (y ∷ ys))) [
  | inl e ↦ rw e (0, omega arith, e, λ k lt. absurd (omega arith))
  | inr e ↦ rw e (IsFirst-cons needle y ys i _ e (search_at-IsFirst needle ys (i + 1)))
]
