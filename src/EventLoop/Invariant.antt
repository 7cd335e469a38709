-- ===== src/EventLoop/Invariant.antt =====
-- EventLoop.cpp in every state that its threads can reach.
use my_testserver.Prelude.{
  ◌+◌, ◌<◌, ◌≡◌, refl, sym, ap, ◌∙◌, inl, ◌⊎◌, Bool, true, false, List, [], ◌∷◌, ◌++◌, append_assoc,
  append-nil, arith,
}
use my_testserver.EventLoop.{
  wakeup, handle_wakeup, append_functor, queue_in_loop, quit, enter_loop, leave_loop, swap_pending,
  end_calls,
}
use my_testserver.EventLoop.Steps

module _ {F : Type 0} where
  abbrev pub in_calls : Steps.Phase F → List F
  in_calls Steps.outside = []
  in_calls Steps.checking = []
  in_calls Steps.polling = []
  in_calls Steps.handling = []
  in_calls (Steps.running fs) = fs

  -- Whether the thread is in `doPendingFunctors`.
  abbrev is_running : Steps.Phase F → Bool
  is_running Steps.outside = false
  is_running Steps.checking = false
  is_running Steps.polling = false
  is_running Steps.handling = false
  is_running (Steps.running fs) = true

  abbrev none_pending : List F → Bool
  none_pending [] = true
  none_pending (f ∷ fs) = false

  -- The loop is awake, or will be.
  abbrev pub IsWoken : Steps.System F → Type 0
  IsWoken s = 0 < s.loop.wakeups + s.waking

  -- No functor waits that another thread, or a handler or functor of the loop, has queued.
  abbrev IsCalm : Steps.System F → Type 0
  IsCalm s = (none_pending s.loop.pending ≡ true) ⊎ (s.early ≡ true)

  -- What is asked of a phase: a functor that waits, or quit_, has woken the loop, unless the loop
  -- looks at it before it polls again, or its own thread queued functors before it entered.
  abbrev Awake : Steps.Phase F → Steps.System F → Type 0
  Awake Steps.handling s = Unit {0}
  Awake Steps.outside s = IsCalm s ⊎ IsWoken s
  Awake Steps.checking s = IsCalm s ⊎ IsWoken s
  Awake (Steps.running fs) s = IsCalm s ⊎ IsWoken s
  Awake Steps.polling s = (IsCalm s × (s.loop.quitting ≡ false)) ⊎ IsWoken s

  record Inv (s : Steps.System F) : Type 0 where
    calling : s.loop.calling_pending_functors ≡ is_running s.phase
    awake : Awake s.phase s
    ordered : s.ran ++ (in_calls s.phase ++ s.loop.pending) ≡ s.asked

  ordered_append :
      (ran now pending asked : List F) (f : F)
      → ran ++ (now ++ pending) ≡ asked
      → ran ++ (now ++ (pending ++ (f ∷ []))) ≡ asked ++ (f ∷ [])
  ordered_append ran now pending asked f h =
      ap (λ t. ran ++ t) (sym (append_assoc now pending (f ∷ [])))
      ∙ sym (append_assoc ran (now ++ pending) (f ∷ []))
      ∙ ap (λ t. t ++ (f ∷ [])) h

  Step-Inv : {s t : Steps.System F} → Steps.Step s t → Inv s → Inv t
  unfolding wakeup handle_wakeup append_functor queue_in_loop quit enter_loop leave_loop
      swap_pending end_calls
  Step-Inv {s} (Steps.enters e) v = ground (arith, v.ordered)
  Step-Inv {s} (Steps.goes_on e q) v = ground (arith, v.ordered)
  Step-Inv {s} (Steps.leaves e q) v = ground (arith, v.ordered)
  Step-Inv {s} (Steps.returns e) v = ground (arith, v.ordered)
  Step-Inv {s} (Steps.reads e) v = ground (arith, v.ordered)
  Step-Inv {s} (Steps.swaps e) v = ground (arith, v.ordered, append-nil s.loop.pending)
  Step-Inv {s} (Steps.calls f fs e) v =
      ground (arith, v.ordered, append_assoc s.ran (f ∷ []) (fs ++ s.loop.pending))
  Step-Inv {s} (Steps.ends e) v = ground (arith, v.ordered)
  Step-Inv {s} (Steps.queues f b) v =
      ground (arith, v.ordered, ordered_append s.ran (in_calls s.phase) s.loop.pending s.asked f)
  Step-Inv {s} (Steps.quits b) v = ground (arith, v.ordered)
  Step-Inv {s} (Steps.appends_elsewhere f) v =
      ground (arith, v.ordered, ordered_append s.ran (in_calls s.phase) s.loop.pending s.asked f)
  Step-Inv {s} Steps.quits_elsewhere v = ground (arith, v.ordered)
  Step-Inv {s} (Steps.wakes n w) v = ground (arith, v.ordered)

  Inv-start : Inv Steps.start
  Inv-start = record { calling = refl; awake = inl (inl refl); ordered = refl }

  Reach-Inv : {s : Steps.System F} → Steps.Reach Steps.start s → Inv s
  Reach-Inv Steps.here = Inv-start
  Reach-Inv (Steps.next r st) = Step-Inv st (Reach-Inv r)

  -- In every state that the thread of a loop and any other threads can reach, the functors that
  -- were called, then those taken out and not called yet, then those pending, are exactly the
  -- functors that were queued, each once and in order.
  pub reach_ordered :
      {s : Steps.System F}
      → Steps.Reach Steps.start s
      → s.ran ++ (in_calls s.phase ++ s.loop.pending) ≡ s.asked
  reach_ordered r = (Reach-Inv r).ordered
