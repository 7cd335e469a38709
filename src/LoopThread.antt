-- ===== src/LoopThread.antt =====
-- mymuduo/EventLoopThread.cpp: the owner of a loop thread and the thread, interleaved. The owner
-- starts the thread, waits for its loop, and in the end asks the loop to quit and joins the thread.
pub mod Join
mod Tests
use my_testserver.Prelude.{Bool, true, false, ◌≡◌, if◌then◌else◌}
use my_testserver.EventLoop.{EventLoop, create_loop, enter_loop, leave_loop, quit}

-- `threadFunc`: before its start, up to the lock, between the unlock and `loop`, in `loop`, behind
-- its last lock.
pub data ThreadPhase : Type 0 where
  unstarted starting published looping exited : ThreadPhase

-- The owner: before `startLoop`, in its wait, behind it, in the `join` of the destructor, behind it.
pub data OwnerPhase : Type 0 where
  fresh waiting started joining gone : OwnerPhase

-- `has_loop` says that `loop_` is no null pointer.
pub record LoopThread (F : Type 0) : Type 0 where
  pub thread : ThreadPhase
  pub owner : OwnerPhase
  pub has_loop : Bool
  pub exiting : Bool
  pub loop : EventLoop F

module _ {F : Type 0} where
  -- The constructor.
  abbrev pub create_thread : LoopThread F
  create_thread = record {
    thread = unstarted;
    owner = fresh;
    has_loop = false;
    exiting = false;
    loop = create_loop;
  }

  unfoldable pub start_loop : LoopThread F → LoopThread F
  start_loop s = record s { thread = starting; owner = waiting }

  -- `threadFunc` up to the unlock.
  unfoldable pub publish : LoopThread F → LoopThread F
  publish s = record s { thread = published; has_loop = true }

  unfoldable pub enter : LoopThread F → LoopThread F
  enter s = record s { thread = looping; loop = enter_loop s.loop }

  -- `threadFunc` behind `loop`.
  unfoldable pub exit_thread : LoopThread F → LoopThread F
  exit_thread s = record s { thread = exited; loop = leave_loop s.loop; has_loop = false }

  -- The destructor, up to `join` where there is a loop.
  unfoldable pub destroy : LoopThread F → LoopThread F
  destroy s =
      let s₁ : LoopThread F = record s { exiting = true } in
      if s.has_loop
      then record s₁ { owner = joining; loop = quit false s.loop }
      else record s₁ { owner = gone }

pub data Step {F : Type 0} : LoopThread F → LoopThread F → Type 0 where
  starts : {s : LoopThread F} → s.owner ≡ fresh → Step s (start_loop s)
  publishes : {s : LoopThread F} → s.thread ≡ starting → Step s (publish s)
  finds :
      {s : LoopThread F}
      → s.owner ≡ waiting
      → s.has_loop ≡ true
      → Step s (record s { owner = started })
  enters : {s : LoopThread F} → s.thread ≡ published → Step s (enter s)
  exits : {s : LoopThread F} → s.thread ≡ looping → s.loop.quitting ≡ true → Step s (exit_thread s)
  destroys : {s : LoopThread F} → s.owner ≡ started → Step s (destroy s)
  joins :
      {s : LoopThread F}
      → s.owner ≡ joining
      → s.thread ≡ exited
      → Step s (record s { owner = gone })

pub data Reach {F : Type 0} (s : LoopThread F) : LoopThread F → Type 0 where
  here : Reach s s
  next : {t u : LoopThread F} → Reach s t → Step t u → Reach s u
