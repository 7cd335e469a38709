-- ===== src/EventLoop/Places.antt =====
-- Channels that are opened and closed in a poller: their own descriptors, and the channels beside
-- them.
use my_testserver.Prelude.Keys.{number_keys}
use my_testserver.Prelude.{
  ℕ, ◌≡◌, refl, ap, sym, subst, ◌∙◌, inl, inr, Bool, true, false, not, ◌&&◌, Option, none, some,
  List, [], ◌∷◌, ◌==◌, ==_iff, Option-cases, arith,
}
use my_testserver.Prelude.Assoc.{get}
use my_testserver.Channel.{
  create_channel, with_reading, without_reading, with_writing, without_writing, none_event,
}
use my_testserver.Poller.{EPollPoller, set_channel, change_events, remove_channel}
use my_testserver.Poller.Kernel.{Epoll, IsLawful}
use my_testserver.Poller.Registry.{is_new, InSync, IsFree, unwatched}
use my_testserver.Poller.Changes.{change_events-Kept, remove_channel-Kept}
use my_testserver.Poller.Calls.{
  Call, enables_reading, disables_reading, enables_writing, disables_writing, disables_all, removes,
  target, make_call, run, run_on, Ready,
}
use my_testserver.EventLoop.Lifetime.{
  ◌>>=◌, Place, open_channel, close_channel, destroy_timer_queue, destruct,
}

-- No call is one of the channel.
abbrev pub spares : ℕ → List Call → Bool
spares id [] = true
spares id (c ∷ cs) = not (id == target c) && spares id cs

module _ (epoll : Epoll) where
  open epoll use {K, interest}

  module _ (lawful : IsLawful epoll) where
    -- A call that succeeds and leaves the other channels alone.
    record Called (p : EPollPoller K) (o : Option (EPollPoller K)) (id : ℕ) : Type 0 where
      after : EPollPoller K
      returned : o ≡ some after
      in_sync : InSync epoll after
      others : (j : ℕ) → (j == id) ≡ false → after.channel j ≡ p.channel j

    changes :
        (p : EPollPoller K) (id : ℕ) (change : ℕ → ℕ)
        → InSync epoll p
        → IsFree epoll p id
        → Called p (change_events epoll change p id) id
    changes p id change a free =
        let k = change_events-Kept epoll lawful p id a free change in
        record { after = k.0; returned = k.1; in_sync = k.2; others = k.5 }

    makes :
        (p : EPollPoller K) (c : Call)
        → InSync epoll p
        → IsFree epoll p (target c)
        → Called p (make_call epoll p c) (target c)
    unfolding make_call
    makes p (enables_reading id) a free = changes p id with_reading a free
    makes p (disables_reading id) a free = changes p id without_reading a free
    makes p (enables_writing id) a free = changes p id with_writing a free
    makes p (disables_writing id) a free = changes p id without_writing a free
    makes p (disables_all id) a free = changes p id (λ events. none_event) a free
    makes p (removes id) a free =
        let k = remove_channel-Kept epoll lawful p id a free (λ events. events) in
        record { after = k.0; returned = k.1; in_sync = k.2; others = k.6 }

    -- Several calls that spare a channel.
    pub run-spares :
        (cs : List Call) (p : EPollPoller K)
        → InSync epoll p
        → Ready epoll (some p) cs
        → (q : EPollPoller K) × (run epoll p cs ≡ some q)
          × InSync epoll q
          × ((j : ℕ) → spares j cs ≡ true → q.channel j ≡ p.channel j)
    unfolding run run_on
    run-spares [] p a ready = (p, refl, a, λ j h. refl)
    run-spares (c ∷ cs) p a (free, ready) =
        let m = makes p c a free in
        let (q, e, b, same) =
          run-spares cs m.after m.in_sync (subst (λ o. Ready epoll o cs) m.returned ready) in
        (
          q,
          ap (λ o. run_on epoll o cs) m.returned ∙ e,
          b,
          λ j h. same j (ground (arith, h)) ∙ m.others j (ground (arith, h)),
        )

    -- A channel that was in use, disabled and removed.
    record Closed (p : EPollPoller K) (id : ℕ) (o : Option (EPollPoller K)) : Type 0 where
      after : EPollPoller K
      returned : o ≡ some after
      in_sync : InSync epoll after
      renewed : is_new (after.channel id).index ≡ true
      same_fd : (after.channel id).fd ≡ (p.channel id).fd
      gone : get after.channels (after.channel id).fd ≡ none
      others : (j : ℕ) → (j == id) ≡ false → after.channel j ≡ p.channel j

    closes :
        (p : EPollPoller K) (c : Place)
        → InSync epoll p
        → is_new (p.channel c.0).index ≡ false
        → Closed p c.0 (close_channel epoll p c)
    closes p c a used =
        let free : IsFree epoll p c.0 = λ h. absurd (ground (arith, h, used)) in
        let d = change_events-Kept epoll lawful p c.0 a free (λ events. none_event) in
        let free' : IsFree epoll d.0 c.0 = λ h. absurd (ground (arith, h, d.4)) in
        let r = remove_channel-Kept epoll lawful d.0 c.0 d.2 free' (λ events. events) in
        record {
          after = r.0;
          returned = ap (λ o. o >>= λ p'. remove_channel epoll p' c.0) d.1 ∙ r.1;
          in_sync = r.2;
          renewed = r.4;
          same_fd = r.7 ∙ d.6;
          gone = r.5;
          others = λ j h. r.6 j h ∙ d.5 j h;
        }

    closed-unwatched :
        (p : EPollPoller K) (id : ℕ) (o : Option (EPollPoller K)) (c : Closed p id o)
        → interest c.after.kernel (c.after.channel id).fd ≡ none
    closed-unwatched p id o c =
        unwatched epoll c.after id c.in_sync (λ h. c.gone) (ground (arith, c.renewed))

    -- Both channels of a loop.
    pub destructs :
        (p : EPollPoller K) (timer wakeup : Place)
        → InSync epoll p
        → is_new (p.channel timer.0).index ≡ false
        → is_new (p.channel wakeup.0).index ≡ false
        → (timer.0 == wakeup.0) ≡ false
        → (r : EPollPoller K) × (destruct epoll p timer wakeup ≡ some r)
          × InSync epoll r
          × (interest r.kernel (p.channel timer.0).fd ≡ none)
          × (interest r.kernel (p.channel wakeup.0).fd ≡ none)
    unfolding destruct destroy_timer_queue
    destructs p timer wakeup a used_timer used_wakeup apart =
        let w = closes p wakeup a used_wakeup in
        let kept = w.others timer.0 apart in
        let t = closes w.after timer w.in_sync (ap (λ c. is_new c.index) kept ∙ used_timer) in
        (
          t.after,
          ap (λ o. o >>= λ p'. close_channel epoll p' timer) w.returned ∙ t.returned,
          t.in_sync,
          ap (interest t.after.kernel) (sym (t.same_fd ∙ ap (λ c. c.fd) kept))
              ∙ closed-unwatched w.after timer.0 _ t,
          ap (interest t.after.kernel) (sym w.same_fd)
              ∙ still_unwatched w.after timer.0 _ t (w.after.channel wakeup.0).fd w.in_sync w.gone,
        )
      where
        still_unwatched :
            (q : EPollPoller K) (id : ℕ) (o : Option (EPollPoller K)) (c : Closed q id o) (fd : ℕ)
            → InSync epoll q
            → get q.channels fd ≡ none
            → interest c.after.kernel fd ≡ none
        still_unwatched q id o c fd a none_there =
            elim (Option-cases (interest c.after.kernel fd)) [
              | inl e ↦ e
              | inr ((events, j), e) ↦ absurd (
                  ground (
                    arith,
                    e,
                    c.in_sync.only fd events j e,
                    c.renewed,
                    c.others j,
                    a.mapped j,
                    none_there,
                    ==_iff j id,
                  ))
            ]

    -- A new channel takes a free place.
    placed-InSync :
        (p : EPollPoller K) (c : Place)
        → InSync epoll p
        → is_new (p.channel c.0).index ≡ true
        → InSync epoll (set_channel p c.0 (create_channel c.1))
    placed-InSync p c a unused = record {
      distinct = a.distinct;
      watched = λ j h. ground (arith, h, a.watched j, ==_iff j c.0);
      only = λ fd events j h. ground (arith, a.only fd events j h, unused, ==_iff j c.0);
      mapped = λ j h. ground (arith, h, a.mapped j, ==_iff j c.0);
      listed = λ fd j h. ground (arith, a.listed fd j h, unused, ==_iff j c.0);
    }

    -- A channel that was opened in a poller where its place and its descriptor were free.
    pub record Opened (p : EPollPoller K) (c : Place) (o : Option (EPollPoller K)) : Type 0 where
      pub after : EPollPoller K
      pub returned : o ≡ some after
      pub in_sync : InSync epoll after
      pub used : is_new (after.channel c.0).index ≡ false
      pub has_fd : (after.channel c.0).fd ≡ c.1
      pub others : (j : ℕ) → (j == c.0) ≡ false → after.channel j ≡ p.channel j

    pub opens :
        (p : EPollPoller K) (c : Place)
        → InSync epoll p
        → is_new (p.channel c.0).index ≡ true
        → get p.channels c.1 ≡ none
        → Opened p c (open_channel epoll p c)
    opens p c a unused free =
        let placed = set_channel p c.0 (create_channel c.1) in
        let at : placed.channel c.0 ≡ create_channel c.1 = ground (arith, ==_iff c.0 c.0) in
        let k =
          change_events-Kept epoll lawful placed c.0 (placed-InSync p c a unused)
            (λ h. ap (λ d. get p.channels d.fd) at ∙ free) with_reading in
        record {
          after = k.0;
          returned = k.1;
          in_sync = k.2;
          used = k.4;
          has_fd = k.6 ∙ ap (λ d. d.fd) at;
          others = λ j h. k.5 j h ∙ ground (arith, h);
        }
