-- ===== src/EventLoop/Steps.antt =====
-- The thread of a loop among other threads, one access to the shared members at a time. Another
-- thread appends a functor, or asks the loop to quit, and then writes to the descriptor.
use my_testserver.Prelude.{ℕ, suc, ◌≡◌, Bool, true, false, ◌||◌, List, [], ◌∷◌, ◌++◌}
use my_testserver.EventLoop.{
  EventLoop, create_loop, wakeup, handle_wakeup, append_functor, queue_in_loop, quit, enter_loop,
  leave_loop, swap_pending, end_calls,
}

-- Where the thread of the loop stands: outside `loop`, before the test of `quit_`, before or in
-- `epoll_wait`, in the handlers of the active channels, in `doPendingFunctors` with the functors
-- that it has not called yet.
pub data Phase (F : Type 0) : Type 0 where
  outside checking polling handling : Phase F
  running : List F → Phase F

-- `waking` counts the other threads before their call of `wakeup`; `asked` and `ran` are the
-- functors that were ever queued and called. `early` is whether the thread of the loop queued a
-- functor outside of `loop` since functors were last taken out.
pub record System (F : Type 0) : Type 0 where
  pub loop : EventLoop F
  pub phase : Phase F
  pub waking : ℕ
  pub asked : List F
  pub ran : List F
  pub early : Bool

abbrev pub start : {F : Type 0} → System F
start = record {
  loop = create_loop;
  phase = outside;
  waking = 0;
  asked = [];
  ran = [];
  early = false;
}

-- Outside of `loop`, in the handlers and in the functors the thread of the loop may queue functors and
-- quit.
abbrev pub is_busy : {F : Type 0} → Phase F → Bool
is_busy outside = true
is_busy checking = false
is_busy polling = false
is_busy handling = true
is_busy (running fs) = true

abbrev pub is_outside : {F : Type 0} → Phase F → Bool
is_outside outside = true
is_outside checking = false
is_outside polling = false
is_outside handling = false
is_outside (running fs) = false

pub data Step {F : Type 0} : System F → System F → Type 0 where
  enters :
      {s : System F}
      → s.phase ≡ outside
      → Step s (record s { loop = enter_loop s.loop; phase = checking })
  goes_on :
      {s : System F}
      → s.phase ≡ checking
      → s.loop.quitting ≡ false
      → Step s (record s { phase = polling })
  leaves :
      {s : System F}
      → s.phase ≡ checking
      → s.loop.quitting ≡ true
      → Step s (record s { loop = leave_loop s.loop; phase = outside })
  returns : {s : System F} → s.phase ≡ polling → Step s (record s { phase = handling })
  reads : {s : System F} → s.phase ≡ handling → Step s (record s { loop = handle_wakeup s.loop })
  swaps :
      {s : System F}
      → s.phase ≡ handling
      → Step s (record s {
        loop = (swap_pending s.loop).1;
        phase = running (swap_pending s.loop).0;
        early = false;
      })
  calls :
      {s : System F} (f : F) (fs : List F)
      → s.phase ≡ running (f ∷ fs)
      → Step s (record s { phase = running fs; ran = s.ran ++ (f ∷ []) })
  ends :
      {s : System F}
      → s.phase ≡ running []
      → Step s (record s { loop = end_calls s.loop; phase = checking })
  queues :
      {s : System F} (f : F)
      → is_busy s.phase ≡ true
      → Step s (record s {
        loop = queue_in_loop true s.loop f;
        asked = s.asked ++ (f ∷ []);
        early = s.early || is_outside s.phase;
      })
  quits : {s : System F} → is_busy s.phase ≡ true → Step s (record s { loop = quit true s.loop })
  appends_elsewhere :
      {s : System F} (f : F)
      → Step s (record s {
        loop = append_functor s.loop f;
        waking = suc s.waking;
        asked = s.asked ++ (f ∷ []);
      })
  quits_elsewhere :
      {s : System F}
      → Step s (record s { loop = record s.loop { quitting = true }; waking = suc s.waking })
  wakes :
      {s : System F} (n : ℕ)
      → s.waking ≡ suc n
      → Step s (record s { loop = wakeup s.loop; waking = n })

pub data Reach {F : Type 0} (s : System F) : System F → Type 0 where
  here : Reach s s
  next : {t u : System F} → Reach s t → Step t u → Reach s u
