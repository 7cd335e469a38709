-- ===== src/EventLoop/Cleanup.antt =====
-- What an EventLoop leaves behind in the kernel when it is destroyed.
use my_testserver.Prelude.Keys.{number_keys}
use my_testserver.Prelude.{
  ℕ, ◌≡◌, refl, ap, sym, subst, ◌∙◌, inl, inr, true, false, none, some, List, ◌==◌, ==_iff,
  Option-cases, arith,
}
use my_testserver.Prelude.Assoc.{get}
use my_testserver.Channel.{Channel}
use my_testserver.Poller.{EPollPoller, create_poller}
use my_testserver.Poller.Kernel.{Epoll, IsLawful}
use my_testserver.Poller.Registry.{is_new, InSync}
use my_testserver.Poller.Calls.{Call, run, Ready}
use my_testserver.EventLoop.Lifetime.{
  ◌>>=◌, Place, open_channel, create_timer_queue, construct, destruct,
}
use my_testserver.EventLoop.Places.{spares, run-spares, destructs, Opened, opens}

module _ (epoll : Epoll) (lawful : IsLawful epoll) where
  open epoll use {K, interest}

  module _ (kernel : K) (channel : ℕ → Channel) (timer wakeup : Place)
      (unwatched : (fd : ℕ) → interest kernel fd ≡ none)
      (unused : (id : ℕ) → is_new (channel id).index ≡ true) (apart : (timer.0 == wakeup.0) ≡ false)
      (fds_apart : (timer.1 == wakeup.1) ≡ false) where
    abbrev fresh : EPollPoller K
    fresh = create_poller kernel channel

    fresh-InSync : InSync epoll fresh
    unfolding get
    fresh-InSync = record {
      distinct = tt;
      watched = λ id h. absurd (ground (arith, h, unused id));
      only = λ fd events id h. absurd (ground (arith, h, unwatched fd));
      mapped = λ id h. absurd (ground (arith, h, unused id));
      listed = λ fd id h. absurd (ground (arith, h));
    }

    first : Opened epoll lawful fresh timer (open_channel epoll fresh timer)
    unfolding get
    first = opens epoll lawful fresh timer fresh-InSync (unused timer.0) refl

    -- The descriptor of the wakeup channel is free behind the timer queue's constructor.
    second_free : get first.after.channels wakeup.1 ≡ none
    second_free = elim (Option-cases (get first.after.channels wakeup.1)) [
      | inl e ↦ e
      | inr (j, e) ↦ absurd (
          ground (
            arith,
            first.in_sync.listed wakeup.1 j e,
            first.others j,
            first.has_fd,
            unused j,
            fds_apart,
            ==_iff j timer.0,
            ==_iff timer.1 wakeup.1,
          ))
    ]

    second : Opened epoll lawful first.after wakeup (open_channel epoll first.after wakeup)
    second =
        opens epoll lawful first.after wakeup first.in_sync
          (ap (λ c. is_new c.index) (first.others wakeup.0 flipped) ∙ unused wakeup.0) second_free
      where
        flipped : (wakeup.0 == timer.0) ≡ false
        flipped = ground (arith, apart, ==_iff timer.0 wakeup.0, ==_iff wakeup.0 timer.0)

    constructed : construct epoll false kernel channel timer wakeup ≡ some second.after
    unfolding construct create_timer_queue
    constructed = ap (λ o. o >>= λ p. open_channel epoll p wakeup) first.returned ∙ second.returned

    timer_kept : second.after.channel timer.0 ≡ first.after.channel timer.0
    timer_kept = second.others timer.0 apart

    -- In a thread without a loop, over a kernel that watches nothing, the constructors of the
    -- loop and its timer queue succeed, and, whatever calls other channels then make on the
    -- poller (a channel that is new finding its descriptor unused), the destructors succeed and
    -- leave the poller in step with the kernel, which watches neither the timer descriptor nor
    -- the wakeup descriptor any more; the two have different channels and descriptors, and the
    -- kernel keeps to epoll_ctl(2).
    pub loop_leaves_nothing :
        (cs : List Call)
        → Ready epoll (construct epoll false kernel channel timer wakeup) cs
        → spares timer.0 cs ≡ true
        → spares wakeup.0 cs ≡ true
        → (p q r : EPollPoller K) × (construct epoll false kernel channel timer wakeup ≡ some p)
          × (run epoll p cs ≡ some q)
          × (destruct epoll q timer wakeup ≡ some r)
          × InSync epoll r
          × (interest r.kernel timer.1 ≡ none)
          × (interest r.kernel wakeup.1 ≡ none)
    loop_leaves_nothing cs ready spares_timer spares_wakeup =
        let (q, ran, in_sync, same) =
          run-spares epoll lawful cs second.after second.in_sync
            (subst (λ o. Ready epoll o cs) constructed ready) in
        let timer_same = same timer.0 spares_timer ∙ timer_kept in
        let wakeup_same = same wakeup.0 spares_wakeup in
        let (r, left, synced, timer_gone, wakeup_gone) =
          destructs epoll lawful q timer wakeup in_sync
            (ap (λ c. is_new c.index) timer_same ∙ first.used)
            (ap (λ c. is_new c.index) wakeup_same ∙ second.used) apart in
        (
          second.after,
          q,
          r,
          constructed,
          ran,
          left,
          synced,
          ap (interest r.kernel) (sym (ap (λ c. c.fd) timer_same ∙ first.has_fd)) ∙ timer_gone,
          ap (interest r.kernel) (sym (ap (λ c. c.fd) wakeup_same ∙ second.has_fd)) ∙ wakeup_gone,
        )
