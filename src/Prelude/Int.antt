-- ===== src/Prelude/Int.antt =====
-- `int`, `std::to_string` and `atoi`. The range of `int` is not modelled.
use native.Mathlib.Nat.{pow-succ'}
use my_testserver.Prelude.{
  subst, ℕ, zero, suc, ◌≡◌, refl, sym, ap, ◌∙◌, ◌<◌, ◌≤◌, ◌^◌, inl, inr, Bool, true, length,
  length-append, Bool-cases, arith, ◌+◌, ◌-◌, ◌*◌, ◌/◌, ◌%◌, ◌&&◌, [], ◌∷◌, ◌++◌, Bytes, replicate,
  ltb, leb, ◌==◌, if◌then◌else◌,
}

-- `negsuc n` is -(n + 1).
pub data ℤ : Type 0 where
  pos : ℕ → ℤ
  negsuc : ℕ → ℤ

-- The decimal digits; a number has no more digits than its own value, and one.
decimal : ℕ → ℕ → Bytes
decimal zero n = []
decimal (suc fuel) n = (if ltb n 10 then [] else decimal fuel (n / 10)) ++ ((b'0' + n % 10) ∷ [])

unfoldable pub to_string : ℤ → Bytes
unfolding decimal
to_string (pos n) = decimal (n + 1) n
to_string (negsuc n) = b'-' ∷ decimal (n + 2) (n + 1)

-- The digits in front, after those that made `acc`.
read_digits : ℕ → Bytes → ℕ
read_digits acc [] = acc
read_digits acc (c ∷ cs) =
    let rest = read_digits (acc * 10 + (c - b'0')) cs in
    if leb b'0' c && leb c b'9' then rest else acc

negate : ℕ → ℤ
negate zero = pos 0
negate (suc n) = negsuc n

-- `atoi` of a text with no leading blanks.
pub atoi : Bytes → ℤ
unfolding read_digits negate
atoi [] = pos 0
atoi (c ∷ cs) = if c == b'-' then negate (read_digits 0 cs) else pos (read_digits 0 (c ∷ cs))

-- A byte of '0' to '9'.
abbrev is_digit : ℕ → Bool
is_digit c = leb b'0' c && leb c b'9'

abbrev AreDigits : Bytes → Type 0
AreDigits [] = Unit {0}
AreDigits (c ∷ cs) = (is_digit c ≡ true) × AreDigits cs

append-AreDigits : (xs ys : Bytes) → AreDigits xs → AreDigits ys → AreDigits (xs ++ ys)
append-AreDigits [] ys a b = b
append-AreDigits (x ∷ xs) ys (h, a) b = (h, append-AreDigits xs ys a b)

decimal-AreDigits : (fuel n : ℕ) → AreDigits (decimal fuel n)
unfolding decimal
decimal-AreDigits zero n = tt
decimal-AreDigits (suc fuel) n =
    let last : AreDigits ((b'0' + n % 10) ∷ []) = (ground arith, tt) in
    elim (Bool-cases (ltb n 10)) [
      | inl e ↦ rw e last
      | inr e ↦
          rw e (append-AreDigits (decimal fuel (n / 10)) _ (decimal-AreDigits fuel (n / 10)) last)
    ]

read_digits-append :
    (acc : ℕ) (xs ys : Bytes)
    → AreDigits xs
    → read_digits acc (xs ++ ys) ≡ read_digits (read_digits acc xs) ys
unfolding read_digits
read_digits-append acc [] ys a = refl
read_digits-append acc (x ∷ xs) ys (h, a) =
    rw h (read_digits-append (acc * 10 + (x - b'0')) xs ys a)

read_digits-decimal : (fuel n : ℕ) → n < fuel → read_digits 0 (decimal fuel n) ≡ n
unfolding decimal read_digits
read_digits-decimal zero n h = absurd (omega arith)
read_digits-decimal (suc fuel) n h = elim (Bool-cases (ltb n 10)) [
  | inl e ↦ rw e (ground arith)
  | inr e ↦ rw e (
      read_digits-append 0 (decimal fuel (n / 10)) ((b'0' + n % 10) ∷ [])
        (decimal-AreDigits fuel (n / 10))
      ∙ ap (λ acc. read_digits acc ((b'0' + n % 10) ∷ []))
          (read_digits-decimal fuel (n / 10) (ground arith))
      ∙ ground arith)
]

-- Different numbers are printed differently.
pub to_string_injective : (m n : ℕ) → to_string (pos m) ≡ to_string (pos n) → m ≡ n
unfolding to_string
to_string_injective m n e =
    sym (read_digits-decimal (m + 1) m (omega arith))
    ∙ ap (read_digits 0) e
    ∙ read_digits-decimal (n + 1) n (omega arith)

tenth : (n p : ℕ) → n < 10 * p → n / 10 < p
tenth n p h = omega arith

length-decimal_le : (k fuel n : ℕ) → n < 10 ^ suc k → length (decimal fuel n) ≤ suc k
unfolding decimal
length-decimal_le k zero n h = omega arith
length-decimal_le zero (suc fuel) n h = ground arith
length-decimal_le (suc k) (suc fuel) n h = elim (Bool-cases (ltb n 10)) [
  | inl e ↦ rw e (omega arith)
  | inr e ↦ rw e (
      omega (
        arith,
        length-append (decimal fuel (n / 10)) ((b'0' + n % 10) ∷ []),
        length-decimal_le k fuel (n / 10)
            (tenth n (10 ^ suc k) (subst (λ p. n < p) (pow-succ' 10 (suc k)) h)),
      ))
]

-- A number below ten to the k has k digits at most.
pub length-to_string_le : (k n : ℕ) → n < 10 ^ suc k → length (to_string (pos n)) ≤ suc k
unfolding to_string
length-to_string_le k n h = length-decimal_le k (n + 1) n h

-- `atoi` of digits.
atoi-digits : (s : Bytes) → AreDigits s → atoi s ≡ pos (read_digits 0 s)
unfolding atoi
atoi-digits [] d = refl
atoi-digits (c ∷ cs) (h, d) = ground arith

read_digits-zeros : (k : ℕ) (s : Bytes) → read_digits 0 (replicate k b'0' ++ s) ≡ read_digits 0 s
unfolding read_digits
read_digits-zeros zero s = refl
read_digits-zeros (suc k) s = read_digits-zeros k s

zeros-AreDigits : (k : ℕ) (s : Bytes) → AreDigits s → AreDigits (replicate k b'0' ++ s)
zeros-AreDigits zero s d = d
zeros-AreDigits (suc k) s d = (refl, zeros-AreDigits k s d)

-- Leading zeros are read over.
pub atoi-zeros : (k n : ℕ) → atoi (replicate k b'0' ++ to_string (pos n)) ≡ pos n
unfolding to_string
atoi-zeros k n =
    atoi-digits _ (zeros-AreDigits k (decimal (n + 1) n) (decimal-AreDigits (n + 1) n))
    ∙ ap pos (read_digits-zeros k (decimal (n + 1) n) ∙ read_digits-decimal (n + 1) n (omega arith))

-- The text behind leading blanks.
pub skip_blanks : Bytes → Bytes
skip_blanks [] = []
skip_blanks (c ∷ cs) = let rest = skip_blanks cs in if c == b' ' then rest else c ∷ cs

skip_blanks-digits : (s : Bytes) → AreDigits s → skip_blanks s ≡ s
unfolding skip_blanks
skip_blanks-digits [] d = refl
skip_blanks-digits (c ∷ cs) (h, d) = ground arith

skip_blanks-blanks : (k : ℕ) (s : Bytes) → skip_blanks (replicate k b' ' ++ s) ≡ skip_blanks s
unfolding skip_blanks
skip_blanks-blanks zero s = refl
skip_blanks-blanks (suc k) s = skip_blanks-blanks k s

pub atoi-blanks : (k n : ℕ) → atoi (skip_blanks (replicate k b' ' ++ to_string (pos n))) ≡ pos n
unfolding to_string
atoi-blanks k n =
    ap atoi (
      skip_blanks-blanks k (decimal (n + 1) n)
      ∙ skip_blanks-digits (decimal (n + 1) n) (decimal-AreDigits (n + 1) n))
    ∙ atoi-zeros 0 n
