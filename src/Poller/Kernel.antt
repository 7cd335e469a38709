-- ===== src/Poller/Kernel.antt =====
-- What the poller uses of the kernel's epoll: the calls of `epoll_ctl` on one epoll descriptor.
use my_testserver.Prelude.{ℕ, ◌≡◌, Bool, true, Option, none, some, ◌==◌, if◌then◌else◌}

pub data Op : Type 0 where
  ctl_add ctl_mod ctl_del : Op

pub record Epoll : Type 1 where
  -- The state of the epoll instance.
  pub K : Type 0
  -- `epoll_ctl` with the descriptor, the events and `data.ptr`: whether it returned 0.
  pub ctl : K → Op → ℕ → ℕ → ℕ → Bool × K
  -- The entry of a descriptor in the interest list: its events and `data.ptr`.
  pub interest : K → ℕ → Option (ℕ × ℕ)

-- epoll_ctl(2): an entry that is not there can be added (while memory and watches last), and one
-- that is there can be changed and deleted; the entries of other descriptors stay.
pub record IsLawful (E : Epoll) : Type 0 where
  pub add_ok :
      (k : E.K) (fd events ptr : ℕ)
      → E.interest k fd ≡ none
      → (E.ctl k ctl_add fd events ptr).0 ≡ true
  pub interest-add :
      (k : E.K) (fd events ptr j : ℕ)
      → E.interest k fd ≡ none
      → E.interest (E.ctl k ctl_add fd events ptr).1 j
        ≡ (if fd == j then some (events, ptr) else E.interest k j)
  pub mod_ok :
      (k : E.K) (fd events ptr : ℕ) (old : ℕ × ℕ)
      → E.interest k fd ≡ some old
      → (E.ctl k ctl_mod fd events ptr).0 ≡ true
  pub interest-mod :
      (k : E.K) (fd events ptr j : ℕ) (old : ℕ × ℕ)
      → E.interest k fd ≡ some old
      → E.interest (E.ctl k ctl_mod fd events ptr).1 j
        ≡ (if fd == j then some (events, ptr) else E.interest k j)
  pub interest-del :
      (k : E.K) (fd events ptr j : ℕ) (old : ℕ × ℕ)
      → E.interest k fd ≡ some old
      → E.interest (E.ctl k ctl_del fd events ptr).1 j ≡ (if fd == j then none else E.interest k j)
