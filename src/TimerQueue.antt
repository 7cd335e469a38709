-- ===== src/TimerQueue.antt =====
-- mymuduo/TimerQueue.cpp and mymuduo/Timer.cpp: the timers of a loop, by time of expiration, and
-- the same timers by identity. A timer is shared: a name, the address of its object, leads to it
-- through `timer`; the null pointer is 0. Times are in microseconds.
pub mod Agree
pub mod Reach
pub mod Fires
pub mod Cancel
mod Tests
use my_testserver.Prelude.{
  ℕ, ◌+◌, Bool, true, false, not, ◌&&◌, List, [], ◌∷◌, ltb, ◌==◌, if◌then◌else◌,
}
use my_testserver.Timestamp.{is_valid, add_time}
use my_testserver.Prelude.Pairs.{Pair, contains, insert, erase, up_to, above}

-- `delay` is the interval in microseconds, as `addTime` computes it.
pub record Timer : Type 0 where
  pub expiration : ℕ
  pub delay : ℕ
  pub repeat : Bool
  pub sequence : ℕ

-- The constructor; `positive` says whether the interval is above 0.0, and the sequence is the number
-- of the timers created before.
abbrev pub create_timer : ℕ → Bool → ℕ → ℕ → Timer
create_timer when positive delay sequence = record {
  expiration = when;
  delay = delay;
  repeat = positive;
  sequence = sequence;
}

-- `armed` is the expiration that the timer descriptor was last set to.
pub record TimerQueue : Type 0 where
  pub timer : ℕ → Timer
  pub timers : List Pair
  pub active : List Pair
  pub canceling : List Pair
  pub calling : Bool
  pub armed : ℕ

abbrev pub set_timer : TimerQueue → ℕ → Timer → TimerQueue
set_timer q id t = record q { timer = λ other. if other == id then t else q.timer other }

abbrev pub entry : TimerQueue → ℕ → Pair
entry q id = ((q.timer id).expiration, id)

abbrev pub active_timer : TimerQueue → ℕ → Pair
active_timer q id = (id, (q.timer id).sequence)

-- Whether the timer will be the first.
abbrev pub is_earliest : List Pair → ℕ → Bool
is_earliest [] when = true
is_earliest (first ∷ rest) when = ltb when first.0

unfoldable pub insert_timer : TimerQueue → ℕ → Bool × TimerQueue
insert_timer q id = (
  is_earliest q.timers (q.timer id).expiration,
  record q { timers = insert q.timers (entry q id); active = insert q.active (active_timer q id) },
)

unfoldable pub add_timer_in_loop : TimerQueue → ℕ → TimerQueue
unfolding insert_timer
add_timer_in_loop q id =
    let (earliest_changed, q') = insert_timer q id in
    if earliest_changed then record q' { armed = (q.timer id).expiration } else q'

unfoldable pub cancel_in_loop : TimerQueue → ℕ → ℕ → TimerQueue
cancel_in_loop q id sequence =
    if contains q.active (id, sequence)
    then record q { timers = erase q.timers (entry q id); active = erase q.active (id, sequence) }
    else if q.calling
    then record q { canceling = insert q.canceling (id, sequence) }
    else q

-- `addTimer` on the loop's own thread, with the address of the new timer: the queue, and the
-- TimerId.
unfoldable pub add_timer : TimerQueue → ℕ → ℕ → Bool → ℕ → ℕ → Pair × TimerQueue
unfolding add_timer_in_loop
add_timer q id when positive delay sequence =
    let t = create_timer when positive delay sequence in
    ((id, sequence), add_timer_in_loop (set_timer q id t) id)

-- `cancel` on the loop's own thread.
unfoldable pub cancel : TimerQueue → Pair → TimerQueue
unfolding cancel_in_loop
cancel q timer_id = cancel_in_loop q timer_id.0 timer_id.1

-- The loop of `getExpired` over the expired entries.
unfoldable pub forget : (ℕ → Timer) → List Pair → List Pair → List Pair
forget timer active [] = active
forget timer active (e ∷ expired) = forget timer (erase active (e.1, (timer e.1).sequence)) expired

unfoldable pub get_expired : TimerQueue → ℕ → List Pair × TimerQueue
unfolding forget
get_expired q now =
    let expired = up_to q.timers (now, 0) in
    (
      expired,
      record q { timers = above q.timers (now, 0); active = forget q.timer q.active expired },
    )

-- `Timer::restart`.
unfoldable pub restart : Timer → ℕ → Timer
restart t now = record t { expiration = if t.repeat then add_time now t.delay else 0 }

-- One round of the loop of `reset`.
unfoldable pub renew : TimerQueue → ℕ → ℕ → TimerQueue
unfolding restart insert_timer
renew q id now =
    if (q.timer id).repeat && not (contains q.canceling (active_timer q id))
    then (insert_timer (set_timer q id (restart (q.timer id) now)) id).1
    else q

unfoldable pub renew_all : TimerQueue → List Pair → ℕ → TimerQueue
unfolding renew
renew_all q [] now = q
renew_all q (e ∷ expired) now = renew_all (renew q e.1 now) expired now

-- The descriptor is set to the first timer, if its expiration is valid.
unfoldable pub rearm : TimerQueue → List Pair → TimerQueue
rearm q [] = q
rearm q (first ∷ rest) =
    if is_valid (q.timer first.1).expiration
    then record q { armed = (q.timer first.1).expiration }
    else q

unfoldable pub reset : TimerQueue → List Pair → ℕ → TimerQueue
unfolding renew_all rearm
reset q expired now = let q' = renew_all q expired now in rearm q' q'.timers

-- `handleRead`, with what the callbacks of the expired timers do to the queue.
unfoldable pub handle_read : (TimerQueue → TimerQueue) → TimerQueue → ℕ → TimerQueue
unfolding get_expired reset
handle_read callbacks q now =
    let (expired, q₁) = get_expired q now in
    let q₂ = callbacks (record q₁ { calling = true; canceling = [] }) in
    reset (record q₂ { calling = false }) expired now
