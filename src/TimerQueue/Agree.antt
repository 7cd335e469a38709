-- ===== src/TimerQueue/Agree.antt =====
-- TimerQueue.cpp: the set by time of expiration against the set by identity.
use my_testserver.Prelude.{
  ℕ, ◌≡◌, refl, ◌∙◌, inl, inr, Bool, true, false, List, [], ◌∷◌, arith, if◌then◌else◌, Bool-cases,
}
use my_testserver.Prelude.Pairs.{
  Pair, same_pair, contains, erase, up_to, above, Sorted, contains-insert, insert-Sorted,
  contains-erase, erase-Sorted, contains-above, contains-up_to, above-Sorted,
}
use my_testserver.TimerQueue.{
  Timer, TimerQueue, entry, active_timer, insert_timer, add_timer_in_loop, cancel_in_loop, forget,
  get_expired,
}

pub record Agree (q : TimerQueue) : Type 0 where
  pub timers_sorted : Sorted q.timers
  pub active_sorted : Sorted q.active
  pub listed :
      (when id : ℕ)
      → contains q.timers (when, id) ≡ true
      → (when ≡ (q.timer id).expiration) × (contains q.active (active_timer q id) ≡ true)
  pub live :
      (id sequence : ℕ)
      → contains q.active (id, sequence) ≡ true
      → (sequence ≡ (q.timer id).sequence) × (contains q.timers (entry q id) ≡ true)

pub insert_timer-Agree : (q : TimerQueue) (id : ℕ) → Agree q → Agree (insert_timer q id).1
unfolding insert_timer
insert_timer-Agree q id a = record {
  timers_sorted = insert-Sorted q.timers (entry q id) a.timers_sorted;
  active_sorted = insert-Sorted q.active (active_timer q id) a.active_sorted;
  listed = λ when i h. ground (
    arith,
    contains-insert q.timers (entry q id) (when, i),
    contains-insert q.active (active_timer q id) (active_timer q i),
    a.listed when i,
  );
  live = λ i sequence h. ground (
    arith,
    contains-insert q.timers (entry q id) (entry q i),
    contains-insert q.active (active_timer q id) (i, sequence),
    a.live i sequence,
  );
}

pub add_timer_in_loop-Agree : (q : TimerQueue) (id : ℕ) → Agree q → Agree (add_timer_in_loop q id)
unfolding add_timer_in_loop
add_timer_in_loop-Agree q id a =
    let b = insert_timer-Agree q id a in
    elim (Bool-cases (insert_timer q id).0) [
      | inl e ↦ rw e (record {
        timers_sorted = b.timers_sorted;
        active_sorted = b.active_sorted;
        listed = b.listed;
        live = b.live;
      })
      | inr e ↦ rw e b
    ]

pub cancel_in_loop-Agree :
    (q : TimerQueue) (id sequence : ℕ) → Agree q → Agree (cancel_in_loop q id sequence)
unfolding cancel_in_loop
cancel_in_loop-Agree q id sequence a = elim (Bool-cases (contains q.active (id, sequence))) [
  | inl e ↦ rw e (record {
    timers_sorted = erase-Sorted q.timers (entry q id) a.timers_sorted;
    active_sorted = erase-Sorted q.active (id, sequence) a.active_sorted;
    listed = λ when i h. ground (
      arith,
      contains-erase q.timers (entry q id) (when, i) a.timers_sorted,
      contains-erase q.active (id, sequence) (active_timer q i) a.active_sorted,
      a.listed when i,
      a.live id sequence,
    );
    live = λ i s h. ground (
      arith,
      contains-erase q.timers (entry q id) (entry q i) a.timers_sorted,
      contains-erase q.active (id, sequence) (i, s) a.active_sorted,
      a.live i s,
      a.live id sequence,
    );
  })
  | inr e ↦ elim (Bool-cases q.calling) [
    | inl c ↦
        rw (e, c)
          (record {
            timers_sorted = a.timers_sorted;
            active_sorted = a.active_sorted;
            listed = a.listed;
            live = a.live;
          })
    | inr c ↦
        rw (e, c)
          (record {
            timers_sorted = a.timers_sorted;
            active_sorted = a.active_sorted;
            listed = a.listed;
            live = a.live;
          })
  ]
]

-- Whether an entry with the identity and number of an active timer is among the expired.
abbrev hit : (ℕ → Timer) → List Pair → Pair → Bool
hit timer [] j = false
hit timer (e ∷ expired) j =
    if same_pair (e.1, (timer e.1).sequence) j then true else hit timer expired j

forget-Sorted :
    (timer : ℕ → Timer) (active expired : List Pair)
    → Sorted active
    → Sorted (forget timer active expired)
unfolding forget
forget-Sorted timer active [] d = d
forget-Sorted timer active (e ∷ expired) d =
    forget-Sorted timer (erase active (e.1, (timer e.1).sequence)) expired
      (erase-Sorted active (e.1, (timer e.1).sequence) d)

contains-forget :
    (timer : ℕ → Timer) (active expired : List Pair) (j : Pair)
    → Sorted active
    → contains (forget timer active expired) j
      ≡ (if hit timer expired j then false else contains active j)
unfolding forget
contains-forget timer active [] j d = refl
contains-forget timer active (e ∷ expired) j d =
    let gone : Pair = (e.1, (timer e.1).sequence) in
    contains-forget timer (erase active gone) expired j (erase-Sorted active gone d)
    ∙ ground (arith, contains-erase active gone j d)

contains→hit :
    (timer : ℕ → Timer) (expired : List Pair) (when id : ℕ)
    → contains expired (when, id) ≡ true
    → hit timer expired (id, (timer id).sequence) ≡ true
unfolding contains
contains→hit timer [] when id h = ground arith
contains→hit timer (e ∷ expired) when id h = ground (arith, contains→hit timer expired when id)

hit→contains :
    (timer : ℕ → Timer) (expired : List Pair) (id sequence : ℕ)
    → hit timer expired (id, sequence) ≡ true
    → (when : ℕ) × (contains expired (when, id) ≡ true)
unfolding contains
hit→contains timer [] id sequence h = absurd (ground arith)
hit→contains timer ((w, i) ∷ expired) id sequence h =
    elim (Bool-cases (same_pair (i, (timer i).sequence) (id, sequence))) [
      | inl e ↦ (w, ground arith)
      | inr e ↦
          let (when, found) = hit→contains timer expired id sequence (ground arith) in
          (when, ground arith)
    ]

abbrev due : TimerQueue → ℕ → List Pair
due q now = up_to q.timers (now, 0)

-- What is left is not hit.
not_hit :
    (q : TimerQueue) (now when id : ℕ)
    → Agree q
    → contains (above q.timers (now, 0)) (when, id) ≡ true
    → hit q.timer (due q now) (id, (q.timer id).sequence) ≡ false
not_hit q now when id a h =
    elim (Bool-cases (hit q.timer (due q now) (id, (q.timer id).sequence))) [
      | inr e ↦ e
      | inl e ↦
          let (w, found) = hit→contains q.timer (due q now) id (q.timer id).sequence e in
          absurd (
            ground (
              arith,
              found,
              contains-up_to q.timers (now, 0) (w, id) a.timers_sorted,
              contains-above q.timers (now, 0) (when, id) a.timers_sorted,
              a.listed w id,
              a.listed when id,
            ))
    ]

pub get_expired-Agree : (q : TimerQueue) (now : ℕ) → Agree q → Agree (get_expired q now).1
unfolding get_expired
get_expired-Agree q now a = record {
  timers_sorted = above-Sorted q.timers (now, 0) a.timers_sorted;
  active_sorted = forget-Sorted q.timer q.active (due q now) a.active_sorted;
  listed = λ when i h. ground (
    arith,
    not_hit q now when i a h,
    contains-above q.timers (now, 0) (when, i) a.timers_sorted,
    contains-forget q.timer q.active (due q now) (active_timer q i) a.active_sorted,
    a.listed when i,
  );
  live = λ i s h. ground (
    arith,
    contains-forget q.timer q.active (due q now) (i, s) a.active_sorted,
    contains-above q.timers (now, 0) (entry q i) a.timers_sorted,
    contains-up_to q.timers (now, 0) (entry q i) a.timers_sorted,
    contains→hit q.timer (due q now) (q.timer i).expiration i,
    a.live i s,
  );
}
