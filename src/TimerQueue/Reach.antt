-- ===== src/TimerQueue/Reach.antt =====
-- TimerQueue.cpp: its operations as steps, and what they reach.
use my_testserver.Prelude.{
  ℕ, ◌<◌, ◌≡◌, refl, inl, inr, true, false, not, ◌&&◌, [], ltb, ==_iff, arith, Bool-cases,
}
use my_testserver.Prelude.Pairs.{contains, contains-above, contains-up_to}
use my_testserver.TimerQueue.{
  Timer, TimerQueue, active_timer, add_timer_in_loop, cancel_in_loop, get_expired, restart, renew,
  set_timer,
}
use my_testserver.TimerQueue.Agree.{
  Agree, insert_timer-Agree, add_timer_in_loop-Agree, cancel_in_loop-Agree, get_expired-Agree,
}

-- No entry leads to the timer.
abbrev pub IsIdle : TimerQueue → ℕ → Type 0
IsIdle q id = (sequence : ℕ) → contains q.active (id, sequence) ≡ false

-- The steps: a timer object is made, added, canceled; the expired ones are taken out, their
-- callbacks begin and end, and a timer that is in neither set is renewed.
pub data Step : TimerQueue → TimerQueue → Type 0 where
  makes : {q : TimerQueue} (id : ℕ) (t : Timer) → IsIdle q id → Step q (set_timer q id t)
  adds : {q : TimerQueue} (id : ℕ) → Step q (add_timer_in_loop q id)
  cancels : {q : TimerQueue} (id sequence : ℕ) → Step q (cancel_in_loop q id sequence)
  expires : {q : TimerQueue} (now : ℕ) → Step q (get_expired q now).1
  begins : {q : TimerQueue} → Step q (record q { calling = true; canceling = [] })
  finishes : {q : TimerQueue} → Step q (record q { calling = false })
  renews : {q : TimerQueue} (id now : ℕ) → IsIdle q id → Step q (renew q id now)
  arms : {q : TimerQueue} (when : ℕ) → Step q (record q { armed = when })

pub data Reach : TimerQueue → TimerQueue → Type 0 where
  stays : {q : TimerQueue} → Reach q q
  goes : {q r s : TimerQueue} → Step q r → Reach r s → Reach q s

set_timer-Agree :
    (q : TimerQueue) (id : ℕ) (t : Timer) → IsIdle q id → Agree q → Agree (set_timer q id t)
set_timer-Agree q id t idle a = record {
  timers_sorted = a.timers_sorted;
  active_sorted = a.active_sorted;
  listed = λ when i h. ground (arith, a.listed when i h, idle (q.timer i).sequence, ==_iff i id);
  live = λ i s h. ground (arith, a.live i s h, idle s, ==_iff i id);
}

renew-Agree : (q : TimerQueue) (id now : ℕ) → IsIdle q id → Agree q → Agree (renew q id now)
unfolding renew
renew-Agree q id now idle a =
    elim (Bool-cases ((q.timer id).repeat && not (contains q.canceling (active_timer q id)))) [
      | inl e ↦ rw e (
          insert_timer-Agree (set_timer q id (restart (q.timer id) now)) id
            (set_timer-Agree q id (restart (q.timer id) now) idle a))
      | inr e ↦ rw e a
    ]

same_sets :
    {q r : TimerQueue}
    → r.timer ≡ q.timer
    → r.timers ≡ q.timers
    → r.active ≡ q.active
    → Agree q
    → Agree r
same_sets t l v a = record {
  timers_sorted = rw l a.timers_sorted;
  active_sorted = rw v a.active_sorted;
  listed = rw (t, l, v) a.listed;
  live = rw (t, l, v) a.live;
}

Step-Agree : {q r : TimerQueue} → Step q r → Agree q → Agree r
Step-Agree (makes id t idle) a = set_timer-Agree _ id t idle a
Step-Agree (adds id) a = add_timer_in_loop-Agree _ id a
Step-Agree (cancels id sequence) a = cancel_in_loop-Agree _ id sequence a
Step-Agree (expires now) a = get_expired-Agree _ now a
Step-Agree begins a = same_sets refl refl refl a
Step-Agree finishes a = same_sets refl refl refl a
Step-Agree (renews id now idle) a = renew-Agree _ id now idle a
Step-Agree (arms when) a = same_sets refl refl refl a

-- Along every sequence of the steps of the timer queue (a timer not active is made or renewed, a
-- timer is added, canceled, or taken out as expired, callbacks begin and end), the set by time
-- and the set by identity stay in order and list the same timers, each under its present time of
-- expiration.
pub Reach-Agree : {q r : TimerQueue} → Reach q r → Agree q → Agree r
Reach-Agree stays a = a
Reach-Agree (goes step rest) a = Reach-Agree rest (Step-Agree step a)

-- Of the timers of a queue whose sets agree, getExpired takes out exactly those that expire
-- before now, and leaves exactly the others, a timer that expires at now included.
pub get_expired_splits :
    (q : TimerQueue) (now when id : ℕ)
    → Agree q
    → 0 < id
    → (contains (get_expired q now).0 (when, id) ≡ (ltb when now && contains q.timers (when, id)))
      × (contains (get_expired q now).1.timers (when, id)
          ≡ (not (ltb when now) && contains q.timers (when, id)))
unfolding get_expired
get_expired_splits q now when id a h = (
  ground (arith, contains-up_to q.timers (now, 0) (when, id) a.timers_sorted),
  ground (arith, contains-above q.timers (now, 0) (when, id) a.timers_sorted),
)
