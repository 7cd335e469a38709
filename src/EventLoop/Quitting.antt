-- ===== src/EventLoop/Quitting.antt =====
-- A wish to quit `EventLoop::loop`, through its rounds.
use my_testserver.Prelude.{
  ℕ, ◌<◌, ◌≤◌, ◌≡◌, ◌≢◌, refl, inl, inr, ◌⊎◌, Bool, true, false, List, [], ◌∷◌, arith,
  if◌then◌else◌,
}
use my_testserver.Channel.{Callbacks}
use my_testserver.Poller.{poll}
use my_testserver.EventLoop.{
  EventLoop, wakeup, handle_wakeup, append_functor, queue_in_loop, quit, swap_pending, end_calls,
  call_functors, do_pending_functors,
}
use my_testserver.EventLoop.Rounds.{
  Action, queues, quits, act, act_all, Round, Reactor, returned, State, one_round, loop_rounds,
  left,
}
use my_testserver.EventLoop.Handlers.{Behaves, AllBehave, behaved-Holds, handle_active-Holds}

abbrev pub IsQuitting : {F : Type 0} → EventLoop F → Type 0
IsQuitting l = l.quitting ≡ true

-- Whether another thread quits.
abbrev pub asks_to_quit : {F : Type 0} → List (Action F) → Bool
asks_to_quit [] = false
asks_to_quit (queues f ∷ more) = asks_to_quit more
asks_to_quit (quits ∷ more) = true

module _ {A : Type 0} where
  if-true : (b : Bool) (x y : A) → b ≡ true → (if b then x else y) ≡ x
  if-true true x y h = refl
  if-true false x y h = absurd (false≢true h)
    where
      false≢true : false ≢ true
      false≢true e = cc

  if-false : (b : Bool) (x y : A) → b ≡ false → (if b then x else y) ≡ y
  if-false true x y h = absurd (true≢false h)
    where
      true≢false : true ≢ false
      true≢false e = cc
  if-false false x y h = refl

module _ {F : Type 0} where
  act-IsQuitting :
      (in_loop_thread : Bool) (l : EventLoop F) (a : Action F)
      → IsQuitting l
      → IsQuitting (act in_loop_thread l a)
  unfolding queue_in_loop append_functor wakeup quit
  act-IsQuitting in_loop_thread l (queues f) h = ground arith
  act-IsQuitting in_loop_thread l quits h = ground arith

  quits-IsQuitting :
      (in_loop_thread : Bool) (l : EventLoop F) → IsQuitting (act in_loop_thread l quits)
  unfolding quit wakeup
  quits-IsQuitting in_loop_thread l = ground arith

  act_all-IsQuitting :
      (actions : List (Action F)) (l : EventLoop F)
      → IsQuitting l ⊎ (asks_to_quit actions ≡ true)
      → IsQuitting (act_all false l actions)
  act_all-IsQuitting [] l (inl h) = h
  act_all-IsQuitting [] l (inr h) = ground arith
  act_all-IsQuitting (a ∷ more) l (inl h) =
      act_all-IsQuitting more (act false l a) (inl (act-IsQuitting false l a h))
  act_all-IsQuitting (queues f ∷ more) l (inr h) =
      act_all-IsQuitting more (act false l (queues f)) (inr h)
  act_all-IsQuitting (quits ∷ more) l (inr h) =
      act_all-IsQuitting more (act false l quits) (inl (quits-IsQuitting false l))

  wakeups-grow :
      (actions : List (Action F)) (l : EventLoop F) → l.wakeups ≤ (act_all false l actions).wakeups
  unfolding queue_in_loop append_functor wakeup quit
  wakeups-grow [] l = omega arith
  wakeups-grow (queues f ∷ more) l = omega (arith, wakeups-grow more (act false l (queues f)))
  wakeups-grow (quits ∷ more) l = omega (arith, wakeups-grow more (act false l quits))

  -- A wish to quit of another thread has woken the loop.
  pub quit-wakeups :
      (actions : List (Action F)) (l : EventLoop F)
      → asks_to_quit actions ≡ true
      → 0 < (act_all false l actions).wakeups
  unfolding queue_in_loop append_functor wakeup quit
  quit-wakeups [] l h = ground arith
  quit-wakeups (queues f ∷ more) l h = quit-wakeups more (act false l (queues f)) h
  quit-wakeups (quits ∷ more) l h = omega (arith, wakeups-grow more (act false l quits))

module _ {K V F : Type 0} (wakeup_channel : ℕ) (callbacks : ℕ → ℕ → Callbacks (State K V F))
    (alive : Reactor K V → ℕ → Bool) (call : F → State K V F → State K V F)
    (calm : (now id : ℕ) → AllBehave (callbacks now id)) (tame : (f : F) → Behaves (call f)) where
  call_functors-IsQuitting :
      (fs : List F) (s : State K V F) → IsQuitting s.1 → IsQuitting (call_functors call fs s).1
  unfolding call_functors
  call_functors-IsQuitting [] s h = h
  call_functors-IsQuitting (f ∷ fs) s h = call_functors-IsQuitting fs (call f s) (
      behaved-Holds wakeup_channel callbacks alive call calm IsQuitting
        (λ l a. act-IsQuitting true l a) (unfold handle_wakeup in (λ l k. k)) (call f) s (tame f) h)

  pending-IsQuitting :
      (s : State K V F) → IsQuitting s.1 → IsQuitting (do_pending_functors call s).1
  unfolding do_pending_functors swap_pending end_calls
  pending-IsQuitting (w, l) h =
      call_functors-IsQuitting l.pending (w, (unfold swap_pending in (swap_pending l).1)) h

  -- A wish to quit is not lost in a round.
  pub round-IsQuitting :
      (r : Round F) (s : State K V F)
      → IsQuitting s.1 ⊎ (asks_to_quit r.meanwhile ≡ true)
      → IsQuitting (one_round wakeup_channel callbacks alive call r s).1
  unfolding one_round
  round-IsQuitting r (w, l) h =
      let (active, polled) = poll w.poller r.reported in
      pending-IsQuitting _ (
        handle_active-Holds wakeup_channel callbacks alive call calm IsQuitting
          (λ l a. act-IsQuitting true l a) (unfold handle_wakeup in (λ l k. k)) r.time active
          (record w { poller = polled }, act_all false l r.meanwhile)
          (act_all-IsQuitting r.meanwhile l h))

  pub returned_at_once :
      (rounds : List (Round F)) (s : State K V F)
      → IsQuitting s.1
      → loop_rounds wakeup_channel callbacks alive call rounds s ≡ returned (left s)
  unfolding loop_rounds
  returned_at_once [] (w, l) h = if-true l.quitting _ _ h
  returned_at_once (r ∷ more) (w, l) h = if-true l.quitting _ _ h

  pub one_more :
      (r : Round F) (more : List (Round F)) (s : State K V F)
      → s.1.quitting ≡ false
      → loop_rounds wakeup_channel callbacks alive call (r ∷ more) s
        ≡ loop_rounds wakeup_channel callbacks alive call more
            (one_round wakeup_channel callbacks alive call r s)
  unfolding loop_rounds
  one_more r more (w, l) h = if-false l.quitting _ _ h
