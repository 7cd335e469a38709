-- ===== src/TimerQueue/Fires.antt =====
-- TimerQueue::handleRead as a whole: which timers are in the queue behind it.
use my_testserver.Prelude.{
  ltb, ◌<◌, ℕ, ◌+◌, ◌≡◌, refl, ap, ◌∙◌, inl, inr, Bool, true, false, not, ◌&&◌, ◌||◌, List, [], ◌∷◌,
  ◌==◌, ==_iff, arith, Bool-cases,
}
use my_testserver.Prelude.Pairs.{Pair, contains, contains-insert}
use my_testserver.TimerQueue.Agree.{Agree}
use my_testserver.TimerQueue.Reach.{get_expired_splits}
use my_testserver.TimerQueue.{
  TimerQueue, entry, active_timer, insert_timer, get_expired, restart, renew, renew_all, rearm,
  reset, handle_read,
}

-- An entry of the list leads to the timer.
abbrev pub is_among : List Pair → ℕ → Bool
is_among [] id = false
is_among (e ∷ expired) id = e.1 == id || is_among expired id

-- The timer repeats and was not canceled.
abbrev pub goes_on : TimerQueue → ℕ → Bool
goes_on q id = (q.timer id).repeat && not (contains q.canceling (active_timer q id))

-- What a timer keeps when it is renewed.
record Same (q r : TimerQueue) (id : ℕ) : Type 0 where
  goes : goes_on r id ≡ goes_on q id
  delays : (r.timer id).delay ≡ (q.timer id).delay

renew-Same : (q : TimerQueue) (j now id : ℕ) → Same q (renew q j now) id
unfolding renew restart insert_timer
renew-Same q j now id = elim (Bool-cases (goes_on q j)) [
  | inl e ↦ record {
    goes = ground (arith, e, ==_iff id j);
    delays = ground (arith, e, ==_iff id j);
  }
  | inr e ↦ record { goes = ground (arith, e); delays = ground (arith, e) }
]

contains-renew :
    (q : TimerQueue) (j now when id : ℕ)
    → contains (renew q j now).timers (when, id) ≡ (
        contains q.timers (when, id)
        || (j == id && (goes_on q id && when == now + (q.timer id).delay)))
unfolding renew restart insert_timer
contains-renew q j now when id = elim (Bool-cases (goes_on q j)) [
  | inl e ↦ ground (
    arith,
    e,
    ==_iff j id,
    ==_iff j j,
    contains-insert q.timers (now + (q.timer j).delay, j) (when, id),
  )
  | inr e ↦ ground (arith, e, ==_iff j id)
]

-- Whether `reset` puts a timer back for the given time.
abbrev pub returns_at : TimerQueue → List Pair → ℕ → ℕ → ℕ → Bool
returns_at q expired now when id =
    is_among expired id && (goes_on q id && when == now + (q.timer id).delay)

contains-renew_all :
    (q : TimerQueue) (expired : List Pair) (now when id : ℕ)
    → contains (renew_all q expired now).timers (when, id)
      ≡ (contains q.timers (when, id) || returns_at q expired now when id)
unfolding renew_all
contains-renew_all q [] now when id = ground arith
contains-renew_all q (e ∷ expired) now when id =
    let s = renew-Same q e.1 now id in
    contains-renew_all (renew q e.1 now) expired now when id
    ∙ ground (arith, contains-renew q e.1 now when id, s.goes, s.delays)

rearm-timers : (q : TimerQueue) (timers : List Pair) → (rearm q timers).timers ≡ q.timers
unfolding rearm
rearm-timers q [] = refl
rearm-timers q (first ∷ rest) = ground arith

-- The queue as the callbacks leave it.
abbrev pub called_back : (TimerQueue → TimerQueue) → TimerQueue → ℕ → TimerQueue
called_back callbacks q now =
    callbacks (record (get_expired q now).1 { calling = true; canceling = [] })

is_among-contains :
    (expired : List Pair) (when id : ℕ)
    → contains expired (when, id) ≡ true
    → is_among expired id ≡ true
unfolding contains
is_among-contains [] when id h = ground (arith, h)
is_among-contains (e ∷ expired) when id h = ground (arith, is_among-contains expired when id)

contains-is_among :
    (expired : List Pair) (id : ℕ)
    → is_among expired id ≡ true
    → (when : ℕ) × (contains expired (when, id) ≡ true)
unfolding contains
contains-is_among [] id h = absurd (ground (arith, h))
contains-is_among (e ∷ expired) id h = elim (Bool-cases (e.1 == id)) [
  | inl same ↦ (e.0, ground (arith, same, ==_iff e.0 e.0))
  | inr other ↦
      let (when, c) = contains-is_among expired id (ground arith) in (when, ground (arith, c))
]

-- The timer is in the queue, and its time has come.
abbrev pub is_due : TimerQueue → ℕ → ℕ → Bool
is_due q now id = ltb (q.timer id).expiration now && contains q.timers (entry q id)

is_among-is_due :
    (q : TimerQueue) (now id : ℕ)
    → Agree q
    → 0 < id
    → is_among (get_expired q now).0 id ≡ is_due q now id
is_among-is_due q now id a some_id =
    let expired = (get_expired q now).0 in
    let split = λ (when : ℕ). (get_expired_splits q now when id a some_id).0 in
    elim (Bool-cases (is_among expired id)) [
      | inl e ↦
          let (when, c) = contains-is_among expired id e in
          ground (arith, e, c, split when, a.listed when id)
      | inr e ↦
          let when = (q.timer id).expiration in
          ground (arith, e, split when, is_among-contains expired when id)
    ]

-- Behind handleRead the set by time holds what the callbacks left there, and in addition exactly
-- each timer that was due (in the queue, with a time of expiration before now), repeats and was
-- not canceled by the callbacks, at now plus its interval; whatever the callbacks do to the
-- queue, on a queue whose sets agree before the call.
pub handle_read_renews :
    (callbacks : TimerQueue → TimerQueue) (q : TimerQueue) (now when id : ℕ)
    → Agree q
    → 0 < id
    → (let q' = called_back callbacks q now in
        contains (handle_read callbacks q now).timers (when, id) ≡ (
          contains q'.timers (when, id)
          || (is_due q now id && (goes_on q' id && when == now + (q'.timer id).delay))))
unfolding handle_read reset
handle_read_renews callbacks q now when id a some_id =
    let q' = called_back callbacks q now in
    ap (λ timers. contains timers (when, id))
      (rearm-timers (renew_all (record q' { calling = false }) (get_expired q now).0 now) _)
    ∙ contains-renew_all (record q' { calling = false }) (get_expired q now).0 now when id
    ∙ ap
        (λ due.
          contains q'.timers (when, id)
          || (due && (goes_on q' id && when == now + (q'.timer id).delay)))
        (is_among-is_due q now id a some_id)
