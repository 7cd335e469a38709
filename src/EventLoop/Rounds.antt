-- ===== src/EventLoop/Rounds.antt =====
-- `EventLoop::loop`: poll, the handlers of the active channels, the pending functors. What a round
-- meets is an input: the events that `epoll_wait` reports, and the calls of other threads while it
-- blocks.
use my_testserver.Prelude.{ℕ, Bool, false, List, [], ◌∷◌, ◌==◌, if◌then◌else◌}
use my_testserver.Channel.{Callbacks, no_callbacks, set_read_callback, handle_event}
use my_testserver.Poller.{EPollPoller, poll}
use my_testserver.EventLoop.{
  EventLoop, handle_wakeup, queue_in_loop, quit, enter_loop, leave_loop, do_pending_functors,
}

-- A call on the loop: `queueInLoop`, or `quit`.
pub data Action (F : Type 0) : Type 0 where
  queues : F → Action F
  quits : Action F

-- The calls of one thread, the thread of the loop or another one.
abbrev pub act : {F : Type 0} → Bool → EventLoop F → Action F → EventLoop F
act in_loop_thread l (queues f) = queue_in_loop in_loop_thread l f
act in_loop_thread l quits = quit in_loop_thread l

abbrev pub act_all : {F : Type 0} → Bool → EventLoop F → List (Action F) → EventLoop F
act_all in_loop_thread l [] = l
act_all in_loop_thread l (a ∷ more) = act_all in_loop_thread (act in_loop_thread l a) more

-- One `epoll_wait`: the time of its return, the events that it reports, each with its channel, and
-- what other threads do while it blocks.
pub record Round (F : Type 0) : Type 0 where
  pub time : ℕ
  pub reported : List (ℕ × ℕ)
  pub meanwhile : List (Action F)

-- The poller, and what the callbacks work on.
pub record Reactor (K V : Type 0) : Type 0 where
  pub poller : EPollPoller K
  pub user : V

-- Whether `loop` has returned, or is in `epoll_wait` once the rounds are used up.
pub data LoopEnd (S : Type 0) : Type 0 where
  returned waiting : S → LoopEnd S

abbrev pub State : Type 0 → Type 0 → Type 0 → Type 0
State K V F = Reactor K V × EventLoop F

-- The state that a return from `loop` leaves.
abbrev pub left : {K V F : Type 0} → State K V F → State K V F
left s = (s.0, leave_loop s.1)

-- `wakeup_channel` is the address of the channel of the wakeup descriptor, `callbacks` are those of
-- the other channels at a time, `alive` is whether the owner of a channel is, `call` is what a
-- functor does.
module _ {K V F : Type 0} (wakeup_channel : ℕ) (callbacks : ℕ → ℕ → Callbacks (State K V F))
    (alive : Reactor K V → ℕ → Bool) (call : F → State K V F → State K V F) where
  -- The constructor sets the read callback of the wakeup channel.
  abbrev pub wakeup_callbacks : Callbacks (State K V F)
  wakeup_callbacks = set_read_callback no_callbacks (λ s. (s.0, handle_wakeup s.1))

  abbrev pub callbacks_of : ℕ → ℕ → Callbacks (State K V F)
  callbacks_of now id = if id == wakeup_channel then wakeup_callbacks else callbacks now id

  -- The loop over `activeChannel_`.
  unfoldable pub handle_active : ℕ → List ℕ → State K V F → State K V F
  handle_active now [] s = s
  handle_active now (id ∷ ids) s =
      handle_active now ids
        (handle_event (s.0.poller.channel id) (alive s.0 id) (callbacks_of now id) s)

  -- One round of the loop.
  unfoldable pub one_round : Round F → State K V F → State K V F
  unfolding handle_active
  one_round r (w, l) =
      let l₁ : EventLoop F = act_all false l r.meanwhile in
      let (active, polled) = poll w.poller r.reported in
      do_pending_functors call (handle_active r.time active (record w { poller = polled }, l₁))

  -- Whole rounds.
  abbrev pub run_rounds : List (Round F) → State K V F → State K V F
  run_rounds [] s = s
  run_rounds (r ∷ more) s = run_rounds more (one_round r s)

  unfoldable pub loop_rounds : List (Round F) → State K V F → LoopEnd (State K V F)
  unfolding one_round
  loop_rounds [] (w, l) = if l.quitting then returned (left (w, l)) else waiting (w, l)
  loop_rounds (r ∷ more) (w, l) =
      let rest = loop_rounds more (one_round r (w, l)) in
      if l.quitting then returned (left (w, l)) else rest

  unfoldable pub loop : List (Round F) → State K V F → LoopEnd (State K V F)
  unfolding loop_rounds
  loop rounds (w, l) = loop_rounds rounds (w, enter_loop l)
