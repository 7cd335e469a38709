-- ===== src/LoopThread/Tests.antt =====
-- Runs of EventLoopThread.cpp, and the theorems about it at inputs that meet their hypotheses.
use my_testserver.Prelude.{ℕ, ◌≡◌, refl, ◌⊎◌}
use my_testserver.LoopThread.{
  LoopThread, Reach, gone, create_thread, start_loop, publish, enter, destroy, published, looping,
  started, joining, here, next, enters,
}
use my_testserver.LoopThread.Join.{destroyed_too_early, destroyed_in_time}

-- `startLoop` has returned, and the thread has not reached `loop` yet.
abbrev early : LoopThread ℕ
early = record (publish (start_loop create_thread)) { owner = started }

early-published : early.thread ≡ published
unfolding publish
early-published = refl

destroyed_too_early_example :
    ((enter (destroy early)).owner ≡ joining)
    × (((enter (destroy early)).thread ≡ published) ⊎ ((enter (destroy early)).thread ≡ looping))
unfolding destroy publish
destroyed_too_early_example =
    destroyed_too_early early early-published refl (next here (enters refl))

-- The thread is in `loop` when the destructor runs.
abbrev busy : LoopThread ℕ
busy = enter early

destroyed_in_time_example : (u : LoopThread ℕ) × Reach (destroy busy) u × (u.owner ≡ gone)
unfolding enter publish
destroyed_in_time_example = destroyed_in_time busy refl refl here
