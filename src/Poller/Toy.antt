-- ===== src/Poller/Toy.antt =====
-- An epoll instance for the tests: the interest list as a function.
use my_testserver.Prelude.Keys.{number_keys}
use my_testserver.Prelude.{ℕ, Bool, true, false, Option, none, some, ◌==◌, arith, if◌then◌else◌}
use my_testserver.Poller.Kernel.{Epoll, Op, ctl_add, ctl_mod, ctl_del, IsLawful}

abbrev pub Entries : Type 0
Entries = ℕ → Option (ℕ × ℕ)

abbrev pub put : Entries → ℕ → Option (ℕ × ℕ) → Entries
put k fd e = λ j. if fd == j then e else k j

abbrev pub is_some : Option (ℕ × ℕ) → Bool
is_some none = false
is_some (some e) = true

abbrev pub control : Entries → Op → ℕ → ℕ → ℕ → Bool × Entries
control k ctl_add fd events ptr =
    if is_some (k fd) then (false, k) else (true, put k fd (some (events, ptr)))
control k ctl_mod fd events ptr =
    if is_some (k fd) then (true, put k fd (some (events, ptr))) else (false, k)
control k ctl_del fd events ptr = if is_some (k fd) then (true, put k fd none) else (false, k)

abbrev pub entries : Epoll
entries = record { K = Entries; ctl = control; interest = λ k fd. k fd }

pub entries-IsLawful : IsLawful entries
entries-IsLawful = record {
  add_ok = λ k fd events ptr e. ground (arith, e);
  interest-add = λ k fd events ptr j e. ground (arith, e);
  mod_ok = λ k fd events ptr old e. ground (arith, e);
  interest-mod = λ k fd events ptr j old e. ground (arith, e);
  interest-del = λ k fd events ptr j old e. ground (arith, e);
}
