-- ===== src/Prelude/Words.antt =====
-- `size_t` arithmetic: 64 bits, wrapping.
use my_testserver.Prelude.{ℕ, ◌+◌, ◌-◌, ◌%◌, ◌^◌, ◌≤◌, ◌<◌, ◌≡◌, arith}

abbrev pub size_mod : ℕ
size_mod = 2 ^ 64

abbrev pub add_size : ℕ → ℕ → ℕ
add_size a b = (a + b) % size_mod

abbrev pub sub_size : ℕ → ℕ → ℕ
sub_size a b = (a + size_mod - b) % size_mod

pub sub_size_le : (a b : ℕ) → a < size_mod → b ≤ a → sub_size a b ≡ a - b
sub_size_le a b h g = omega arith
