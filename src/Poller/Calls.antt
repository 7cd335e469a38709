-- ===== src/Poller/Calls.antt =====
-- Sequences of the calls that channels make on EPollPoller.cpp.
use my_testserver.Prelude.Keys.{number_keys}
use my_testserver.Prelude.{ℕ, ◌≡◌, refl, ap, subst, ◌∙◌, Option, none, some, List, [], ◌∷◌}
use my_testserver.Channel.{with_reading, without_reading, with_writing, without_writing, none_event}
use my_testserver.Poller.{EPollPoller, change_events, remove_channel}
use my_testserver.Poller.Kernel.{Epoll, IsLawful}
use my_testserver.Poller.Changes.{change_events-InSync, remove_channel-InSync}
use my_testserver.Poller.Registry.{InSync, IsFree}

-- The methods of a channel that reach the poller.
pub data Call : Type 0 where
  enables_reading disables_reading enables_writing disables_writing disables_all removes : ℕ → Call

abbrev pub target : Call → ℕ
target (enables_reading id) = id
target (disables_reading id) = id
target (enables_writing id) = id
target (disables_writing id) = id
target (disables_all id) = id
target (removes id) = id

module _ (epoll : Epoll) where
  open epoll use {K, interest}

  unfoldable pub make_call : EPollPoller K → Call → Option (EPollPoller K)
  make_call p (enables_reading id) = change_events epoll with_reading p id
  make_call p (disables_reading id) = change_events epoll without_reading p id
  make_call p (enables_writing id) = change_events epoll with_writing p id
  make_call p (disables_writing id) = change_events epoll without_writing p id
  make_call p (disables_all id) = change_events epoll (λ events. none_event) p id
  make_call p (removes id) = remove_channel epoll p id

  -- `none` is the exit of a fatal error.
  unfoldable pub run_on : Option (EPollPoller K) → List Call → Option (EPollPoller K)
  unfolding make_call
  run_on p [] = p
  run_on none (c ∷ cs) = none
  run_on (some p) (c ∷ cs) = run_on (make_call p c) cs

  unfoldable pub run : EPollPoller K → List Call → Option (EPollPoller K)
  unfolding run_on
  run p cs = run_on (some p) cs

  -- Each call finds a channel that is not new, or whose descriptor no channel of the map holds.
  abbrev pub Ready : Option (EPollPoller K) → List Call → Type 0
  Ready p [] = Unit
  Ready none (c ∷ cs) = Unit
  Ready (some p) (c ∷ cs) = IsFree epoll p (target c) × Ready (make_call p c) cs

  module _ (lawful : IsLawful epoll) where
    make_call-InSync :
        (p : EPollPoller K) (c : Call)
        → InSync epoll p
        → IsFree epoll p (target c)
        → (q : EPollPoller K) × (make_call p c ≡ some q) × InSync epoll q
    unfolding make_call
    make_call-InSync p (enables_reading id) a free =
        change_events-InSync epoll lawful p id a free with_reading
    make_call-InSync p (disables_reading id) a free =
        change_events-InSync epoll lawful p id a free without_reading
    make_call-InSync p (enables_writing id) a free =
        change_events-InSync epoll lawful p id a free with_writing
    make_call-InSync p (disables_writing id) a free =
        change_events-InSync epoll lawful p id a free without_writing
    make_call-InSync p (disables_all id) a free =
        change_events-InSync epoll lawful p id a free (λ events. none_event)
    make_call-InSync p (removes id) a free = remove_channel-InSync epoll lawful p id a free (λ e. e)

    -- Over every sequence of calls of the channels on the poller (enabling and disabling reading
    -- and writing, disabling all, removing), in which a channel that is new finds its descriptor
    -- unused, the poller never exits, the kernel watches exactly the channels whose index is
    -- kAdded, for the events they want, and the map holds exactly the channels whose index is
    -- not kNew; the kernel keeps to epoll_ctl(2).
    pub run-InSync :
        (p : EPollPoller K) (cs : List Call)
        → InSync epoll p
        → Ready (some p) cs
        → (q : EPollPoller K) × (run p cs ≡ some q) × InSync epoll q
    unfolding run
    run-InSync p [] a ready = (p, refl, a)
    run-InSync p (c ∷ cs) a (free, ready) =
        let (q, e, a') = make_call-InSync p c a free in
        let (r, e', a'') = run-InSync q cs a' (subst (λ o. Ready o cs) e ready) in
        (r, ap (λ o. run_on o cs) e ∙ e', a'')
