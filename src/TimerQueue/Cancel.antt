-- ===== src/TimerQueue/Cancel.antt =====
-- TimerQueue::addTimer and cancel, one behind the other.
use my_testserver.Prelude.{ℕ, ◌≡◌, Bool, ==_iff, arith}
use my_testserver.Prelude.Pairs.{
  Pair, contains, insert, contains-insert, contains-erase, insert-Sorted,
}
use my_testserver.TimerQueue.{
  TimerQueue, insert_timer, add_timer_in_loop, add_timer, cancel_in_loop, cancel,
}
use my_testserver.TimerQueue.Agree.{Agree}
use my_testserver.TimerQueue.Reach.{IsIdle}

-- Canceling a timer by the TimerId that addTimer returned leaves both sets with the elements
-- they had before addTimer, on a queue whose sets agree and that does not list the address of
-- the new timer.
pub cancel-add_timer :
    (q : TimerQueue) (id when : ℕ) (positive : Bool) (delay sequence : ℕ) (e : Pair)
    → Agree q
    → IsIdle q id
    → (let (timer_id, q') = add_timer q id when positive delay sequence in
        (contains (cancel q' timer_id).timers e ≡ contains q.timers e)
        × (contains (cancel q' timer_id).active e ≡ contains q.active e))
unfolding add_timer cancel add_timer_in_loop insert_timer cancel_in_loop
cancel-add_timer q id when positive delay sequence e a idle =
    let timers = insert-Sorted q.timers (when, id) a.timers_sorted in
    let active = insert-Sorted q.active (id, sequence) a.active_sorted in
    ground (
      arith,
      ==_iff id id,
      ==_iff when e.0,
      ==_iff id e.1,
      ==_iff id e.0,
      ==_iff sequence e.1,
      contains-insert q.timers (when, id) e,
      contains-erase (insert q.timers (when, id)) (when, id) e timers,
      contains-insert q.active (id, sequence) e,
      contains-insert q.active (id, sequence) (id, sequence),
      contains-erase (insert q.active (id, sequence)) (id, sequence) e active,
      a.listed e.0 e.1,
      a.listed when id,
      idle sequence,
      idle e.1,
      idle (q.timer id).sequence,
    )
