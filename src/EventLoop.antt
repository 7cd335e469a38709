-- ===== src/EventLoop.antt =====
-- mymuduo/EventLoop.cpp: the functors that wait for the loop, and the descriptor that wakes it.
-- `F` is the type of the functors. `wakeups` is the counter behind `wakeupFd_`: a write adds to it,
-- a read takes it all, and `epoll_wait` does not block while it is above 0.
pub mod Steps
pub mod Invariant
pub mod Rounds
pub mod Handlers
pub mod Lifetime
pub mod Places
pub mod Cleanup
pub mod Functors
pub mod Quitting
pub mod Quits
mod Tests
use my_testserver.TimerQueue.{TimerQueue, add_timer}
use my_testserver.Timestamp.{add_time}
use my_testserver.Prelude.Pairs.{Pair}
use my_testserver.Prelude.{
  ℕ, ◌+◌, Bool, true, false, not, ◌||◌, Option, none, some, List, [], ◌∷◌, ◌++◌, if◌then◌else◌,
}

-- The members that the functors go through; `mutex_` makes each use of `pending` one access.
pub record EventLoop (F : Type 0) : Type 0 where
  pub looping : Bool
  pub quitting : Bool
  pub calling_pending_functors : Bool
  pub pending : List F
  pub wakeups : ℕ

module _ {F : Type 0} where
  -- The constructor.
  abbrev pub create_loop : EventLoop F
  create_loop = record {
    looping = false;
    quitting = false;
    calling_pending_functors = false;
    pending = [];
    wakeups = 0;
  }

  unfoldable pub wakeup : EventLoop F → EventLoop F
  wakeup l = record l { wakeups = l.wakeups + 1 }

  -- The read callback of `wakeupChannel_`.
  unfoldable pub handle_wakeup : EventLoop F → EventLoop F
  handle_wakeup l = record l { wakeups = 0 }

  -- `queueInLoop`, up to the end of the lock.
  unfoldable pub append_functor : EventLoop F → F → EventLoop F
  append_functor l f = record l { pending = l.pending ++ (f ∷ []) }

  unfoldable pub queue_in_loop : Bool → EventLoop F → F → EventLoop F
  unfolding append_functor wakeup
  queue_in_loop in_loop_thread l f =
      let l₁ : EventLoop F = append_functor l f in
      if not in_loop_thread || l₁.calling_pending_functors then wakeup l₁ else l₁

  -- The functor to call at once, if any.
  unfoldable pub run_in_loop : Bool → EventLoop F → F → Option F × EventLoop F
  unfolding queue_in_loop
  run_in_loop in_loop_thread l f =
      if in_loop_thread then (some f, l) else (none, queue_in_loop in_loop_thread l f)

  unfoldable pub quit : Bool → EventLoop F → EventLoop F
  unfolding wakeup
  quit in_loop_thread l =
      let l₁ : EventLoop F = record l { quitting = true } in
      if not in_loop_thread then wakeup l₁ else l₁

  -- `loop` up to its first round, and behind its last one.
  unfoldable pub enter_loop : EventLoop F → EventLoop F
  enter_loop l = record l { looping = true; quitting = false }

  unfoldable pub leave_loop : EventLoop F → EventLoop F
  leave_loop l = record l { looping = false }

  -- `doPendingFunctors` up to the end of the lock, and its last line.
  unfoldable pub swap_pending : EventLoop F → List F × EventLoop F
  swap_pending l = (l.pending, record l { calling_pending_functors = true; pending = [] })

  unfoldable pub end_calls : EventLoop F → EventLoop F
  end_calls l = record l { calling_pending_functors = false }

  -- The loop of `doPendingFunctors`, over the functors taken out; `call` is what a call does.
  unfoldable pub call_functors {ℓ} :
      {S : Type ℓ}
      → (F → S × EventLoop F → S × EventLoop F)
      → List F
      → S × EventLoop F
      → S × EventLoop F
  call_functors call [] s = s
  call_functors call (f ∷ fs) s = call_functors call fs (call f s)

  unfoldable pub do_pending_functors {ℓ} :
      {S : Type ℓ} → (F → S × EventLoop F → S × EventLoop F) → S × EventLoop F → S × EventLoop F
  unfolding swap_pending call_functors end_calls
  do_pending_functors call (s, l) =
      let (functors, l₁) = swap_pending l in
      let (s', l₂) = call_functors call functors (s, l₁) in (s', end_calls l₂)

-- `runEvery`, on the loop's own thread at the time `now`, with the address of the new timer.
abbrev pub run_every : TimerQueue → ℕ → ℕ → Bool → ℕ → ℕ → Pair × TimerQueue
run_every q id now positive delay sequence =
    add_timer q id (add_time now delay) positive delay sequence
