-- ===== src/TimerQueue/Tests.antt =====
-- A queue of TimerQueue.cpp with two timers, run, and the theorems at inputs that meet their
-- hypotheses.
use my_testserver.Prelude.{◌≡◌, refl, true, false, ◌&&◌, ◌||◌, ◌+◌, ◌==◌, [], ◌∷◌, arith}
use my_testserver.TimerQueue.Fires.{called_back, is_due, goes_on, handle_read_renews}
use my_testserver.TimerQueue.Cancel.{cancel-add_timer}
use my_testserver.Prelude.Pairs.{contains, insert, up_to, above, erase}
use my_testserver.TimerQueue.{
  add_timer, cancel, Timer, TimerQueue, add_timer_in_loop, insert_timer, get_expired, forget, renew,
  handle_read, reset, restart, renew_all, rearm,
}
use my_testserver.TimerQueue.Agree.{Agree, add_timer_in_loop-Agree}
use my_testserver.TimerQueue.Reach.{Reach, stays, goes, adds, expires, Reach-Agree}

abbrev hourly : Timer
hourly = record { expiration = 50; delay = 100; repeat = true; sequence = 7 }

abbrev no_timers : TimerQueue
no_timers = record {
  timer = λ id. hourly;
  timers = [];
  active = [];
  canceling = [];
  calling = false;
  armed = 0;
}

no_timers-Agree : Agree no_timers
unfolding contains
no_timers-Agree = record {
  timers_sorted = tt;
  active_sorted = tt;
  listed = λ when id h. absurd (ground arith);
  live = λ id sequence h. absurd (ground arith);
}

abbrev one_timer : TimerQueue
one_timer = add_timer_in_loop no_timers 3

-- A timer that is due at 50 is renewed for 160 when it is found at 60.
fired : (handle_read (λ q. q) one_timer 60).timers ≡ (160, 3) ∷ []
unfolding handle_read get_expired add_timer_in_loop insert_timer insert up_to above forget erase
    reset renew_all renew restart rearm contains
fired = refl

abbrev life : Reach no_timers (get_expired one_timer 60).1
life = goes (adds 3) (goes (expires 60) stays)

Reach-Agree_example : Agree (get_expired one_timer 60).1
Reach-Agree_example = Reach-Agree life no_timers-Agree

-- The timer of 50 is put back for 160.
handle_read_renews_example :
    (let q' = called_back (λ q. q) one_timer 60 in
      contains (handle_read (λ q. q) one_timer 60).timers (160, 3) ≡ (
        contains q'.timers (160, 3)
        || (is_due one_timer 60 3 && (goes_on q' 3 && 160 == 60 + (q'.timer 3).delay))))
handle_read_renews_example =
    handle_read_renews (λ q. q) one_timer 60 160 3
      (add_timer_in_loop-Agree no_timers 3 no_timers-Agree) (omega arith)

cancel-add_timer_example :
    (let (timer_id, q') = add_timer no_timers 4 70 true 10 8 in
      (contains (cancel q' timer_id).timers (70, 4) ≡ contains no_timers.timers (70, 4))
      × (contains (cancel q' timer_id).active (70, 4) ≡ contains no_timers.active (70, 4)))
unfolding contains
cancel-add_timer_example =
    cancel-add_timer no_timers 4 70 true 10 8 (70, 4) no_timers-Agree (λ s. refl)
