-- ===== src/LoopThread/Join.antt =====
-- The destructor of EventLoopThread.cpp, before and after the thread has entered its loop.
use my_testserver.Prelude.{◌≡◌, refl, ◌⊎◌, inl, inr, true, false, arith}
use my_testserver.EventLoop.{enter_loop, leave_loop, quit}
use my_testserver.LoopThread.{
  published, looping, exited, joining, gone, LoopThread, Step, starts, publishes, finds, enters,
  exits, destroys, joins, Reach, here, next, start_loop, publish, enter, exit_thread, destroy,
}

module _ {F : Type 0} where
  -- The destructor has asked a loop to quit that is not entered, or was entered since.
  Stuck : LoopThread F → Type 0
  Stuck s =
      (s.owner ≡ joining)
      × ((s.thread ≡ published) ⊎ ((s.thread ≡ looping) × (s.loop.quitting ≡ false)))

  Step-Stuck : {s t : LoopThread F} → Step s t → Stuck s → Stuck t
  unfolding Stuck start_loop publish enter exit_thread destroy enter_loop
  Step-Stuck (starts e) h = ground arith
  Step-Stuck (publishes e) h = ground arith
  Step-Stuck (finds e p) h = ground arith
  Step-Stuck (enters e) h = ground arith
  Step-Stuck (exits e q) h = ground arith
  Step-Stuck (destroys e) h = ground arith
  Step-Stuck (joins e x) h = ground arith

  Reach-Stuck : {s t : LoopThread F} → Reach s t → Stuck s → Stuck t
  Reach-Stuck here h = h
  Reach-Stuck (next r st) h = Step-Stuck st (Reach-Stuck r h)

  -- When the destructor of an EventLoopThread runs after the thread has set loop_ and before it
  -- has entered loop, then in every later state it still waits in join and the thread has not
  -- ended: loop resets quit_.
  pub destroyed_too_early :
      (s : LoopThread F) {t : LoopThread F}
      → s.thread ≡ published
      → s.has_loop ≡ true
      → Reach (destroy s) t
      → (t.owner ≡ joining) × ((t.thread ≡ published) ⊎ (t.thread ≡ looping))
  unfolding Stuck destroy
  destroyed_too_early s {t} e has r =
      let h = Reach-Stuck r (ground (arith, has), ground (arith, e, has)) in ground arith

  -- The destructor has asked a loop to quit that is entered.
  Ending : LoopThread F → Type 0
  Ending s =
      ((s.owner ≡ joining) ⊎ (s.owner ≡ gone))
      × (((s.thread ≡ looping) × (s.loop.quitting ≡ true)) ⊎ (s.thread ≡ exited))

  Step-Ending : {s t : LoopThread F} → Step s t → Ending s → Ending t
  unfolding Ending start_loop publish enter exit_thread destroy enter_loop leave_loop quit
  Step-Ending (starts e) h = ground arith
  Step-Ending (publishes e) h = ground arith
  Step-Ending (finds e p) h = ground arith
  Step-Ending (enters e) h = ground arith
  Step-Ending (exits e q) h = ground arith
  Step-Ending (destroys e) h = ground arith
  Step-Ending (joins e x) h = ground arith

  Reach-Ending : {s t : LoopThread F} → Reach s t → Ending s → Ending t
  Reach-Ending here h = h
  Reach-Ending (next r st) h = Step-Ending st (Reach-Ending r h)

  -- Whatever happened since, the rest of the way is open.
  finish : (t : LoopThread F) → Ending t → (u : LoopThread F) × Reach t u × (u.owner ≡ gone)
  unfolding Ending exit_thread leave_loop
  finish t (inr e, rest) = (t, here, e)
  finish t (inl e, inr x) = (record t { owner = gone }, next here (joins e x), refl)
  finish t (inl e, inl (l, q)) =
      (record (exit_thread t) { owner = gone }, next (next here (exits l q)) (joins e refl), refl)

  -- When the destructor of an EventLoopThread runs while its thread is in loop, then from every
  -- later state the thread can leave the loop and join can return.
  pub destroyed_in_time :
      (s : LoopThread F) {t : LoopThread F}
      → s.thread ≡ looping
      → s.has_loop ≡ true
      → Reach (destroy s) t
      → (u : LoopThread F) × Reach t u × (u.owner ≡ gone)
  unfolding Ending destroy quit
  destroyed_in_time s {t} e has r =
      finish t (Reach-Ending r (ground (arith, has), ground (arith, e, has)))
