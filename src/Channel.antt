-- ===== src/Channel.antt =====
-- mymuduo/Channel.cpp: a descriptor, the events that its owner wants and those that came, and the
-- callbacks. The event bits are those of Linux' <sys/epoll.h>.
pub mod Events
pub mod Closing
mod Tests
use Prim.Native.Nat.{bit_and, bit_or, bit_xor}
use my_testserver.Prelude.{
  ℕ, ◌^◌, ◌-◌, Bool, true, false, not, ◌&&◌, Option, none, some, ◌==◌, if◌then◌else◌,
}

abbrev pub epollin : ℕ
epollin = 0x1

abbrev pub epollpri : ℕ
epollpri = 0x2

abbrev pub epollout : ℕ
epollout = 0x4

abbrev pub epollerr : ℕ
epollerr = 0x8

abbrev pub epollhup : ℕ
epollhup = 0x10

abbrev pub none_event : ℕ
none_event = 0

abbrev pub read_event : ℕ
read_event = bit_or epollin epollpri

abbrev pub write_event : ℕ
write_event = epollout

-- The values that `index_` takes: kNew, kAdded and kDeleted of EPollPoller.cpp.
pub data Index : Type 0 where
  new added deleted : Index

-- `tied` says that `tie` was called.
pub record Channel : Type 0 where
  pub fd : ℕ
  pub events : ℕ
  pub revents : ℕ
  pub index : Index
  pub tied : Bool

-- The constructor.
abbrev pub create_channel : ℕ → Channel
create_channel fd = record { fd = fd; events = 0; revents = 0; index = new; tied = false }

abbrev pub tie : Channel → Channel
tie c = record c { tied = true }

abbrev pub set_revents : Channel → ℕ → Channel
set_revents c revt = record c { revents = revt }

abbrev pub set_index : Channel → Index → Channel
set_index c idx = record c { index = idx }

-- `~mask` of an `int`.
abbrev pub complement : ℕ → ℕ
complement mask = bit_xor mask (2 ^ 32 - 1)

-- The changes of `events_`; each is followed by `update`.
abbrev pub with_reading : ℕ → ℕ
with_reading events = bit_or events read_event

abbrev pub without_reading : ℕ → ℕ
without_reading events = bit_and events (complement read_event)

abbrev pub with_writing : ℕ → ℕ
with_writing events = bit_or events write_event

abbrev pub without_writing : ℕ → ℕ
without_writing events = bit_and events (complement write_event)

-- A value of bits as a condition.
abbrev pub any_bit : ℕ → Bool
any_bit n = not (n == 0)

abbrev pub is_none_event : Channel → Bool
is_none_event c = c.events == none_event

abbrev pub is_writing : Channel → Bool
is_writing c = any_bit (bit_and c.events write_event)

abbrev pub is_reading : Channel → Bool
is_reading c = any_bit (bit_and c.events read_event)

-- What the callbacks do to the state of their owner; `none` is an empty function.
pub record Callbacks {ℓ} (S : Type ℓ) : Type ℓ where
  pub close : Option (S → S)
  pub error : Option (S → S)
  pub read : Option (S → S)
  pub write : Option (S → S)

module _ {ℓ} {S : Type ℓ} where
  -- The functions of a new channel.
  abbrev pub no_callbacks : Callbacks S
  no_callbacks = record { close = none; error = none; read = none; write = none }

  abbrev pub set_read_callback : Callbacks S → (S → S) → Callbacks S
  set_read_callback on cb = record on { read = some cb }

  abbrev pub set_write_callback : Callbacks S → (S → S) → Callbacks S
  set_write_callback on cb = record on { write = some cb }

  abbrev pub set_close_callback : Callbacks S → (S → S) → Callbacks S
  set_close_callback on cb = record on { close = some cb }

  abbrev pub set_error_callback : Callbacks S → (S → S) → Callbacks S
  set_error_callback on cb = record on { error = some cb }

  abbrev pub call_if : Bool → Option (S → S) → S → S
  call_if false callback s = s
  call_if true none s = s
  call_if true (some callback) s = callback s

  unfoldable pub handle_event_with_guard : ℕ → Callbacks S → S → S
  handle_event_with_guard revents on s =
      let hung_up = any_bit (bit_and revents epollhup) && not (any_bit (bit_and revents epollin)) in
      let s₁ = call_if hung_up on.close s in
      let s₂ = call_if (any_bit (bit_and revents epollerr)) on.error s₁ in
      let s₃ = call_if (any_bit (bit_and revents (bit_or epollin epollpri))) on.read s₂ in
      call_if (any_bit (bit_and revents epollout)) on.write s₃

  -- `alive` says whether `tie_.lock()` finds the owner.
  unfoldable pub handle_event : Channel → Bool → Callbacks S → S → S
  unfolding handle_event_with_guard
  handle_event c alive on s =
      if c.tied
      then (if alive then handle_event_with_guard c.revents on s else s)
      else handle_event_with_guard c.revents on s
