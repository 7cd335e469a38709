-- ===== src/Poller/Changes.antt =====
-- EPollPoller::updateChannel and removeChannel keep the map, the indices and the interest list in
-- step.
use my_testserver.Prelude.Keys.{number_keys}
use my_testserver.Prelude.{
  ℕ, ◌≡◌, ◌==◌, refl, true, false, none, some, ==_iff, arith, Bool-cases, inl, inr,
}
use my_testserver.Prelude.Assoc.{
  get, assign, erase, get-assign, get-erase, assign-Distinct, erase-Distinct,
}
use my_testserver.Channel.{new, added, deleted, Channel, set_index, is_none_event}
use my_testserver.Poller.Kernel.{Epoll, ctl_add, ctl_mod, ctl_del, IsLawful}
use my_testserver.Poller.{EPollPoller, set_channel, remove_channel, change_events}
use my_testserver.Poller.Registry.{
  is_new, is_added, Index-cases, InSync, IsFree, install-InSync, owns, unwatched,
}

module _ (epoll : Epoll) where
  open epoll use {K, interest}

  module _ (lawful : IsLawful epoll) (p : EPollPoller K) (id : ℕ) (a : InSync epoll p)
      (free : IsFree epoll p id) (change : ℕ → ℕ) where
    -- The channel with its new events.
    abbrev changed : Channel
    changed = record (p.channel id) { events = change (p.channel id).events }

    -- The call succeeds, everything stays in step, and the channel has its new events.
    abbrev pub Kept : Type 0
    Kept =
        (q : EPollPoller K) × (change_events epoll change p id ≡ some q)
        × InSync epoll q
        × ((q.channel id).events ≡ change (p.channel id).events)
        × (is_new (q.channel id).index ≡ false)
        × ((j : ℕ) → (j == id) ≡ false → q.channel j ≡ p.channel j)
        × ((q.channel id).fd ≡ (p.channel id).fd)

    deleted-Kept : (p.channel id).index ≡ deleted → Kept
    unfolding change_events
    deleted-Kept e =
        let idle = unwatched epoll p id a free (ground arith) in
        let fd = (p.channel id).fd in
        let events = change (p.channel id).events in
        let q : EPollPoller K =
          record (set_channel (set_channel p id changed) id (set_index changed added)) {
            kernel = (epoll.ctl p.kernel ctl_add fd events id).1;
          } in
        (
          q,
          ground (arith, e, ==_iff id id, lawful.add_ok p.kernel fd events id idle),
          install-InSync epoll p q id (set_index changed added) a (owns epoll p id a free) refl
              a.distinct (λ j. ground arith)
              (λ j. ground (arith, lawful.interest-add p.kernel fd events id j idle))
              (λ j. ground (arith, e, a.mapped id)),
          ground (arith, ==_iff id id),
          ground (arith, e, ==_iff id id),
          λ j h. ground (arith, h),
          ground (arith, ==_iff id id),
        )

    new-Kept : (p.channel id).index ≡ new → Kept
    unfolding change_events
    new-Kept e =
        let idle = unwatched epoll p id a free (ground arith) in
        let fd = (p.channel id).fd in
        let events = change (p.channel id).events in
        let q : EPollPoller K =
          record (set_channel (set_channel p id changed) id (set_index changed added)) {
            kernel = (epoll.ctl p.kernel ctl_add fd events id).1;
            channels = assign p.channels fd id;
          } in
        (
          q,
          ground (arith, e, ==_iff id id, lawful.add_ok p.kernel fd events id idle),
          install-InSync epoll p q id (set_index changed added) a (owns epoll p id a free) refl
              (assign-Distinct p.channels fd id a.distinct) (λ j. ground arith)
              (λ j. ground (arith, lawful.interest-add p.kernel fd events id j idle))
              (λ j. ground (arith, get-assign p.channels fd j id)),
          ground (arith, ==_iff id id),
          ground (arith, e, ==_iff id id),
          λ j h. ground (arith, h),
          ground (arith, ==_iff id id),
        )

    silent-Kept : (p.channel id).index ≡ added → is_none_event changed ≡ true → Kept
    unfolding change_events
    silent-Kept e none_wanted =
        let fd = (p.channel id).fd in
        let events = change (p.channel id).events in
        let seen = a.watched id (ground arith) in
        let q : EPollPoller K =
          set_channel
            (record (set_channel p id changed) {
              kernel = (epoll.ctl p.kernel ctl_del fd events id).1;
            })
            id (set_index changed deleted) in
        (
          q,
          ground (arith, e, none_wanted, ==_iff id id),
          install-InSync epoll p q id (set_index changed deleted) a (owns epoll p id a free) refl
              a.distinct (λ j. ground arith)
              (λ j. ground (
                arith,
                lawful.interest-del p.kernel fd events id j ((p.channel id).events, id) seen,
              ))
              (λ j. ground (arith, e, a.mapped id)),
          ground (arith, ==_iff id id),
          ground (arith, e, ==_iff id id),
          λ j h. ground (arith, h),
          ground (arith, ==_iff id id),
        )

    wanted-Kept : (p.channel id).index ≡ added → is_none_event changed ≡ false → Kept
    unfolding change_events
    wanted-Kept e some_wanted =
        let fd = (p.channel id).fd in
        let events = change (p.channel id).events in
        let old : ℕ × ℕ = ((p.channel id).events, id) in
        let seen = a.watched id (ground arith) in
        let q : EPollPoller K = record (set_channel p id changed) {
          kernel = (epoll.ctl p.kernel ctl_mod fd events id).1;
        } in
        (
          q,
          ground
              (arith, e, some_wanted, ==_iff id id, lawful.mod_ok p.kernel fd events id old seen),
          install-InSync epoll p q id changed a (owns epoll p id a free) refl a.distinct
              (λ j. ground arith)
              (λ j. ground (arith, e, lawful.interest-mod p.kernel fd events id j old seen))
              (λ j. ground (arith, e, a.mapped id)),
          ground (arith, ==_iff id id),
          ground (arith, e, ==_iff id id),
          λ j h. ground (arith, h),
          ground (arith, ==_iff id id),
        )

    pub change_events-Kept : Kept
    change_events-Kept = elim (Index-cases (p.channel id).index) [
      | inl e ↦ new-Kept e
      | inr (inl e) ↦ elim (Bool-cases (is_none_event changed)) [
        | inl n ↦ silent-Kept e n
        | inr s ↦ wanted-Kept e s
      ]
      | inr (inr e) ↦ deleted-Kept e
    ]

    pub change_events-InSync :
        (q : EPollPoller K) × (change_events epoll change p id ≡ some q) × InSync epoll q
    change_events-InSync = (change_events-Kept.0, change_events-Kept.1, change_events-Kept.2)

    -- `removeChannel` on a channel that is added, and on one that is not.
    pub remove_channel-Kept :
        (q : EPollPoller K) × (remove_channel epoll p id ≡ some q)
        × InSync epoll q
        × ((q.channel id).events ≡ (p.channel id).events)
        × (is_new (q.channel id).index ≡ true)
        × (get q.channels (q.channel id).fd ≡ none)
        × ((j : ℕ) → (j == id) ≡ false → q.channel j ≡ p.channel j)
        × ((q.channel id).fd ≡ (p.channel id).fd)
    unfolding remove_channel
    remove_channel-Kept = elim (Bool-cases (is_added (p.channel id).index)) [
      | inl e ↦
          let c = p.channel id in
          let seen = a.watched id e in
          let q : EPollPoller K =
            set_channel
              (record p {
                channels = erase p.channels c.fd;
                kernel = (epoll.ctl p.kernel ctl_del c.fd c.events id).1;
              })
              id (set_index c new) in
          (
            q,
            ground (arith, e, ==_iff id id),
            install-InSync epoll p q id (set_index c new) a (owns epoll p id a free) refl
                (erase-Distinct p.channels c.fd a.distinct) (λ j. ground arith)
                (λ j.
                  ground
                    (arith, lawful.interest-del p.kernel c.fd c.events id j (c.events, id) seen))
                (λ j. ground (arith, get-erase p.channels c.fd j a.distinct)),
            ground (arith, ==_iff id id),
            ground (arith, ==_iff id id),
            ground
                (arith, ==_iff id id, get-erase p.channels c.fd c.fd a.distinct, ==_iff c.fd c.fd),
            λ j h. ground (arith, h),
            ground (arith, ==_iff id id),
          )
      | inr e ↦
          let c = p.channel id in
          let idle = unwatched epoll p id a free e in
          let q : EPollPoller K =
            set_channel (record p { channels = erase p.channels c.fd }) id (set_index c new) in
          (
            q,
            ground (arith, e, ==_iff id id),
            install-InSync epoll p q id (set_index c new) a (owns epoll p id a free) refl
                (erase-Distinct p.channels c.fd a.distinct) (λ j. ground arith)
                (λ j. ground (arith, idle))
                (λ j. ground (arith, get-erase p.channels c.fd j a.distinct)),
            ground (arith, ==_iff id id),
            ground (arith, ==_iff id id),
            ground
                (arith, ==_iff id id, get-erase p.channels c.fd c.fd a.distinct, ==_iff c.fd c.fd),
            λ j h. ground (arith, h),
            ground (arith, ==_iff id id),
          )
    ]

    pub remove_channel-InSync :
        (q : EPollPoller K) × (remove_channel epoll p id ≡ some q) × InSync epoll q
    remove_channel-InSync = (remove_channel-Kept.0, remove_channel-Kept.1, remove_channel-Kept.2)
