-- ===== src/EventLoop/Tests.antt =====
-- A loop of EventLoop.cpp, run, and the theorems about it at inputs that meet their hypotheses.
use my_testserver.Prelude.{
  ℕ, ◌+◌, ◌<◌, ◌≡◌, refl, Bool, true, false, Option, none, some, arith, List, [], ◌∷◌, ◌++◌,
}
use my_testserver.Channel.{
  Channel, Callbacks, create_channel, set_read_callback, no_callbacks, handle_event,
}
use my_testserver.Prelude.Keys.{number_keys}
use my_testserver.Prelude.Assoc.{get, assign}
use my_testserver.Poller.{
  EPollPoller, create_poller, poll, change_events, update_channel, update, add_channel,
}
use my_testserver.Poller.Registry.{InSync}
use my_testserver.Poller.Calls
use my_testserver.Poller.Calls.{Call, enables_reading, removes, Ready, make_call}
use my_testserver.Poller.Toy.{Entries, entries, entries-IsLawful}
use my_testserver.EventLoop.Lifetime.{construct, destruct, create_timer_queue}
use my_testserver.EventLoop.Cleanup.{loop_leaves_nothing}
use my_testserver.EventLoop.{
  create_loop, do_pending_functors, append_functor, enter_loop, swap_pending, queue_in_loop, wakeup,
  handle_wakeup, quit,
}
use my_testserver.EventLoop.Steps
use my_testserver.EventLoop.Steps.{
  System, start, outside, polling, Reach, here, next, enters, goes_on, appends_elsewhere, wakes,
  returns, swaps, queues,
}
use my_testserver.EventLoop.Rounds
use my_testserver.EventLoop.Rounds.{
  act_all, Round, Reactor, State, LoopEnd, returned, waiting, loop, run_rounds, left,
}
use my_testserver.EventLoop.Handlers.{Behaves, AllBehave}
use my_testserver.EventLoop.Functors.{AllQuiet, queued_meanwhile}
use my_testserver.EventLoop.Quits.{AreCalled, entered, loop_quits}
use my_testserver.EventLoop.Invariant.{in_calls, reach_ordered}

-- Another thread appends a functor while the loop polls; its write is still to come.
abbrev asleep : System ℕ
asleep = record {
  loop = append_functor (enter_loop create_loop) 7;
  phase = polling;
  waking = 1;
  asked = 7 ∷ [];
  ran = [];
  early = false;
}

asleep-Reach : Reach start asleep
unfolding enter_loop append_functor
asleep-Reach = next (next (next here (enters refl)) (goes_on refl refl)) (appends_elsewhere 7)

-- The functor is taken out, and another is queued before it is called.
abbrev running_one : System ℕ
running_one = record {
  loop = queue_in_loop true (swap_pending (wakeup asleep.loop)).1 4;
  phase = Steps.running (7 ∷ []);
  waking = 0;
  asked = 7 ∷ 4 ∷ [];
  ran = [];
  early = false;
}

running_one-Reach : Reach start running_one
unfolding enter_loop append_functor swap_pending wakeup queue_in_loop
running_one-Reach =
    next (next (next (next asleep-Reach (wakes 0 refl)) (returns refl)) (swaps refl))
      (queues 4 refl)

reach_ordered_example :
    running_one.ran ++ (in_calls running_one.phase ++ running_one.loop.pending) ≡ running_one.asked
reach_ordered_example = reach_ordered running_one-Reach

-- A loop with the wakeup channel 1 and another channel; that one's read callback queues the
-- functor 5, and a functor adds itself to a sum.
abbrev reactor : State ℕ ℕ ℕ
reactor = (record { poller = create_poller 0 create_channel; user = 0 }, create_loop)

abbrev queue_five : {V : Type 0} → State ℕ V ℕ → State ℕ V ℕ
queue_five s = (s.0, queue_in_loop true s.1 5)

abbrev reading : {V : Type 0} → ℕ → ℕ → Callbacks (State ℕ V ℕ)
reading now id = set_read_callback no_callbacks queue_five

abbrev always : {V : Type 0} → Reactor ℕ V → ℕ → Bool
always w id = true

abbrev add_up : ℕ → State ℕ ℕ ℕ → State ℕ ℕ ℕ
add_up f s = (record s.0 { user = s.0.user + f }, s.1)

-- The channel 7 becomes readable while another thread queues 3, and then another thread quits.
abbrev readable_round : Round ℕ
readable_round = record {
  time = 1;
  reported = (1, 1) ∷ (1, 7) ∷ [];
  meanwhile = Rounds.queues 3 ∷ [];
}

abbrev quit_round : Round ℕ
quit_round = record { time = 2; reported = (1, 1) ∷ []; meanwhile = Rounds.quits ∷ [] }

-- Both functors are called: the one that is queued elsewhere in the first round, the other one
-- because the callback queued it before the functors were taken out.
abbrev sum_of : LoopEnd (State ℕ ℕ ℕ) → ℕ
sum_of (returned s) = s.0.user
sum_of (waiting s) = 0

loop_sums :
    sum_of
      (loop 1 reading always add_up (readable_round ∷ quit_round ∷ readable_round ∷ []) reactor)
    ≡ 8
unfolding loop enter_loop do_pending_functors poll handle_event queue_in_loop handle_wakeup quit
loop_sums = refl

-- The same loop with functors that note their calls, and with the functor 8 pending.
abbrev logged : State ℕ (List ℕ) ℕ
logged = (
  record { poller = create_poller 0 create_channel; user = [] },
  record create_loop { pending = 8 ∷ [] },
)

abbrev logging : ℕ → State ℕ (List ℕ) ℕ → State ℕ (List ℕ) ℕ
logging f s = (record s.0 { user = s.0.user ++ (f ∷ []) }, s.1)

reading-AllBehave : (now id : ℕ) → AllBehave {V = List ℕ} (reading now id)
reading-AllBehave now id = (tt, tt, (λ s. (Rounds.queues 5 ∷ [], refl)), tt)

reading-AllQuiet : (now id : ℕ) → AllQuiet (λ v. v) (reading now id)
reading-AllQuiet now id = (tt, tt, (λ s. refl), tt)

logging-Behaves : (f : ℕ) → Behaves (logging f)
logging-Behaves f = λ s. ([], refl)

logging-logs : (f : ℕ) (s : State ℕ (List ℕ) ℕ) → (logging f s).0.user ≡ s.0.user ++ (f ∷ [])
logging-logs f s = refl

loop_quits_example :
    (taken : List (Round ℕ)) × (others : List (Round ℕ)) × (taken ++ others
      ≡ readable_round ∷ quit_round ∷ [])
    × (loop 1 reading always logging (readable_round ∷ quit_round ∷ readable_round ∷ []) logged
        ≡ returned (left (run_rounds 1 reading always logging taken (entered logged))))
    × AreCalled
        (8 ∷ queued_meanwhile taken)
        []
        (run_rounds 1 reading always logging taken (entered logged)).0.user
    × (0
        < (act_all false
            (run_rounds 1 reading always logging (readable_round ∷ []) (entered logged)).1
            quit_round.meanwhile).wakeups)
loop_quits_example =
    loop_quits 1 reading always logging reading-AllBehave logging-Behaves (λ v. v) reading-AllQuiet
      logging-logs (readable_round ∷ []) quit_round (readable_round ∷ []) logged refl

-- The timer channel 1 of descriptor 4, the wakeup channel 2 of descriptor 5, and a channel 7 that
-- comes and goes.
abbrev no_watches : Entries
no_watches = λ fd. none

abbrev unused_channel : ℕ → Channel
unused_channel id = create_channel 0

abbrev visit : List Call
visit = enables_reading 7 ∷ removes 7 ∷ []

abbrev constructed : Option (EPollPoller Entries)
constructed = construct entries false no_watches unused_channel (1, 4) (2, 5)

visit-Ready : Ready entries constructed visit
unfolding construct create_timer_queue make_call change_events update_channel update add_channel get
    assign
visit-Ready = (λ h. refl, (λ h. absurd (ground arith), tt))

loop_leaves_nothing_example :
    (p q r : EPollPoller Entries) × (constructed ≡ some p)
    × (Calls.run entries p visit ≡ some q)
    × (destruct entries q (1, 4) (2, 5) ≡ some r)
    × InSync entries r
    × (r.kernel 4 ≡ none)
    × (r.kernel 5 ≡ none)
loop_leaves_nothing_example =
    loop_leaves_nothing entries entries-IsLawful no_watches unused_channel (1, 4) (2, 5)
      (λ fd. refl) (λ id. refl) refl refl visit visit-Ready refl refl
