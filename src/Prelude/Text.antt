-- ===== src/Prelude/Text.antt =====
-- Byte strings (`std::string`, `std::vector<char>`) as lists of numbers, with the parts of
-- `<string>` and `<algorithm>` that the program calls.
use Prim.Native.Char.{code}
use Prim.Native.String.{String}
use Prim.Native.Nat.{ℕ, zero, suc, ◌+◌, ◌-◌}
use mathlib.Core.Path.{◌≡◌, refl}
use mathlib.Core.Logic.{◌↔◌}
use mathlib.Core.Bool.{Bool, true, false, ◌&&◌}
use mathlib.Core.Option.{Option, none, some}
use mathlib.Core.List.{List, [], ◌∷◌, ◌++◌}
use native.Mathlib.Omega.{arith}
use my_testserver.Prelude.Tests.{◌==◌, leb, if◌then◌else◌}
use my_testserver.Prelude.Lists.{length, take, drop, replicate}

abbrev pub Bytes : Type 0
Bytes = List ℕ

-- The bytes of an ASCII literal.
abbrev pub codes : String → Bytes
codes String.[] = []
codes (String.◌∷◌ c s) = code c ∷ codes s

-- `operator==` of two strings.
unfoldable pub eqb : Bytes → Bytes → Bool
eqb [] [] = true
eqb [] (y ∷ ys) = false
eqb (x ∷ xs) [] = false
eqb (x ∷ xs) (y ∷ ys) = x == y && eqb xs ys

pub eqb→eq : (a b : Bytes) → eqb a b ≡ true → a ≡ b
unfolding eqb
eqb→eq [] [] h = refl
eqb→eq [] (y ∷ ys) h = ground arith
eqb→eq (x ∷ xs) [] h = ground arith
eqb→eq (x ∷ xs) (y ∷ ys) h = ground (arith, eqb→eq xs ys)

pub eqb_refl : (a : Bytes) → eqb a a ≡ true
unfolding eqb
eqb_refl [] = refl
eqb_refl (x ∷ xs) = ground (arith, eqb_refl xs)

pub eq→eqb : (a b : Bytes) → a ≡ b → eqb a b ≡ true
eq→eqb a b e = rw e (eqb_refl b)

pub eqb_iff : (a b : Bytes) → (eqb a b ≡ true) ↔ (a ≡ b)
eqb_iff a b = (eqb→eq a b, eq→eqb a b)

-- `empty()`.
abbrev pub is_empty : Bytes → Bool
is_empty [] = true
is_empty (x ∷ xs) = false

unfoldable pub starts_with : Bytes → Bytes → Bool
starts_with [] hay = true
starts_with (x ∷ xs) [] = false
starts_with (x ∷ xs) (y ∷ ys) = x == y && starts_with xs ys

-- The first index, counted from `i` at the head, where the needle stands.
unfoldable pub search_at : Bytes → Bytes → ℕ → Option ℕ
search_at needle [] i = if starts_with needle [] then some i else none
search_at needle (y ∷ ys) i =
    if starts_with needle (y ∷ ys) then some i else search_at needle ys (i + 1)

-- `hay.find(needle, pos)`; `none` is `npos`.
unfoldable pub find : Bytes → Bytes → ℕ → Option ℕ
find hay needle pos = if leb pos (length hay) then search_at needle (drop pos hay) pos else none

-- `hay.substr(pos, n)` for `pos` within the string.
abbrev pub substr : Bytes → ℕ → ℕ → Bytes
substr hay pos n = take n (drop pos hay)

-- `vector::resize`.
unfoldable pub resize : Bytes → ℕ → Bytes
resize s n = take n s ++ replicate (n - length s) 0

unfoldable pub overwrite : Bytes → Bytes → Bytes
overwrite s [] = s
overwrite [] (d ∷ ds) = []
overwrite (x ∷ s) (d ∷ ds) = d ∷ overwrite s ds

-- `std::copy` of the bytes `d` to index `i`; nothing is written past the end.
unfoldable pub write_at : Bytes → ℕ → Bytes → Bytes
unfolding overwrite
write_at s zero d = overwrite s d
write_at [] (suc i) d = []
write_at (x ∷ s) (suc i) d = x ∷ write_at s i d
