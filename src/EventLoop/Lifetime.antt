-- ===== src/EventLoop/Lifetime.antt =====
-- The constructors and destructors of EventLoop.cpp and TimerQueue.cpp: the channels of the wakeup
-- descriptor and of the timer descriptor.
use my_testserver.Prelude.Keys.{number_keys}
use my_testserver.Prelude.{ℕ, Bool, Option, none, some, if◌then◌else◌}
use my_testserver.Channel.{Channel, create_channel}
use my_testserver.Poller.{
  EPollPoller, create_poller, set_channel, enable_reading, disable_all, remove_channel,
}
use my_testserver.Poller.Kernel.{Epoll}

-- `none` is the exit of a fatal error.
infixl 5 ◌>>=◌
abbrev pub ◌>>=◌ : {A B : Type 0} → Option A → (A → Option B) → Option B
none >>= f = none
some a >>= f = f a

-- The channel of a descriptor: its address, and the descriptor.
abbrev pub Place : Type 0
Place = ℕ × ℕ

module _ (epoll : Epoll) where
  open epoll use {K, interest}

  -- A new channel that is enabled for reading.
  abbrev pub open_channel : EPollPoller K → Place → Option (EPollPoller K)
  open_channel p c = enable_reading epoll (set_channel p c.0 (create_channel c.1)) c.0

  abbrev pub close_channel : EPollPoller K → Place → Option (EPollPoller K)
  close_channel p c = do p' ← disable_all epoll p c.0; remove_channel epoll p' c.0

  -- `TimerQueue`, its constructor and its destructor.
  unfoldable pub create_timer_queue : EPollPoller K → Place → Option (EPollPoller K)
  create_timer_queue p timer = open_channel p timer

  unfoldable pub destroy_timer_queue : EPollPoller K → Place → Option (EPollPoller K)
  destroy_timer_queue p timer = close_channel p timer

  -- `EventLoop::EventLoop`; `another` is whether the thread has a loop already, which is fatal.
  unfoldable pub construct : Bool → K → (ℕ → Channel) → Place → Place → Option (EPollPoller K)
  unfolding create_timer_queue
  construct another kernel channel timer wakeup = do
    p ← create_timer_queue (create_poller kernel channel) timer
    if another then none else open_channel p wakeup

  -- `EventLoop::~EventLoop`, and the destructor of the timer queue behind it.
  unfoldable pub destruct : EPollPoller K → Place → Place → Option (EPollPoller K)
  unfolding destroy_timer_queue
  destruct p timer wakeup = do p' ← close_channel p wakeup; destroy_timer_queue p' timer
