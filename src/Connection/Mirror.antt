-- ===== src/Connection/Mirror.antt =====
-- The channel of a connection in the poller: what the kernel watches against what the connection
-- waits for.
use my_testserver.Prelude.{
  ℕ, ◌+◌, ◌^◌, ◌<◌, ◌≡◌, refl, ap, subst, ◌∙◌, Option, none, some, List, [], ◌∷◌, length, arith,
}
use my_testserver.Prelude.Keys.{number_keys}
use my_testserver.Connection.{
  Connection, Method, reads_on, writes_on, writes_off, all_off, removed, connect_established,
}
use my_testserver.Channel.{with_reading}
use my_testserver.Poller.{EPollPoller, change_events}
use my_testserver.Poller.Kernel.{Epoll, IsLawful}
use my_testserver.Poller.Registry.{InSync, IsFree}
use my_testserver.Poller.Changes.{change_events-Kept, remove_channel-Kept}
use my_testserver.Poller.Calls.{
  Call, enables_reading, enables_writing, disables_writing, disables_all, removes, make_call, run,
  run_on,
}
use my_testserver.Connection.Interest.{
  Act, act, act_all, load_all, unnoted, awaited, flagged, change, change_all, act-changed,
  IsWaiting, flagged-awaited,
}
use my_testserver.Connection.Waiting.{IsNew, established-IsWaiting, act-IsWaiting, act-grown}

-- The method as a call of channel `id`.
abbrev pub call_of : ℕ → Method → Call
call_of id reads_on = enables_reading id
call_of id writes_on = enables_writing id
call_of id writes_off = disables_writing id
call_of id all_off = disables_all id
call_of id removed = removes id

abbrev pub calls_of : ℕ → List Method → List Call
calls_of id [] = []
calls_of id (m ∷ ms) = call_of id m ∷ calls_of id ms

-- From connectEstablished on.
abbrev pub established : Connection → Connection
established c = connect_established (unnoted c)

module _ (epoll : Epoll) where
  open epoll use {K}

  -- The poller is in step, and channel `id` has these events.
  pub record Mirrors (p : EPollPoller K) (id events : ℕ) : Type 0 where
    pub in_sync : InSync epoll p
    pub free : IsFree epoll p id
    pub wants : (p.channel id).events ≡ events

  module _ (lawful : IsLawful epoll) where
    changed-Mirrors :
        (p : EPollPoller K) (id events : ℕ) (f : ℕ → ℕ)
        → Mirrors p id events
        → (q : EPollPoller K) × (change_events epoll f p id ≡ some q) × Mirrors q id (f events)
    changed-Mirrors p id events f m =
        let (q, ok, in_sync, now, known, others, same_fd) =
          change_events-Kept epoll lawful p id m.in_sync m.free f in
        (
          q,
          ok,
          record {
            in_sync = in_sync;
            free = λ h. absurd (ground (arith, known));
            wants = now ∙ ap f m.wants;
          },
        )

    method-Mirrors :
        (p : EPollPoller K) (id events : ℕ) (m : Method)
        → Mirrors p id events
        → (q : EPollPoller K) × (make_call epoll p (call_of id m) ≡ some q)
          × Mirrors q id (change m events)
    unfolding make_call
    method-Mirrors p id events reads_on m = changed-Mirrors p id events (change reads_on) m
    method-Mirrors p id events writes_on m = changed-Mirrors p id events (change writes_on) m
    method-Mirrors p id events writes_off m = changed-Mirrors p id events (change writes_off) m
    method-Mirrors p id events all_off m = changed-Mirrors p id events (change all_off) m
    method-Mirrors p id events removed m =
        let (q, ok, in_sync, same, known, gone, others, same_fd) =
          remove_channel-Kept epoll lawful p id m.in_sync m.free (λ e. e) in
        (q, ok, record { in_sync = in_sync; free = λ h. gone; wants = same ∙ m.wants })

    methods-Mirrors :
        (p : EPollPoller K) (id events : ℕ) (ms : List Method)
        → Mirrors p id events
        → (q : EPollPoller K) × (run epoll p (calls_of id ms) ≡ some q)
          × Mirrors q id (change_all ms events)
    unfolding run run_on
    methods-Mirrors p id events [] m = (p, refl, m)
    methods-Mirrors p id events (x ∷ ms) m =
        let (q, ok, m') = method-Mirrors p id events x m in
        let (r, ok', m'') = methods-Mirrors q id (change x events) ms m' in
        (r, ap (λ o. run_on epoll o (calls_of id ms)) ok ∙ ok', m'')

  -- The poller beside a connection: each act makes the calls of the methods that it calls; none is
  -- the exit of a fatal error.
  unfoldable pub live : Option (EPollPoller K) → ℕ → Connection → List Act → Option (EPollPoller K)
  live p id c [] = p
  live none id c (a ∷ acts) = none
  live (some p) id c (a ∷ acts) =
      live (run epoll p (calls_of id (act c a).methods)) id (act c a) acts

  unfoldable pub live_established :
      EPollPoller K → ℕ → Connection → List Act → Option (EPollPoller K)
  unfolding live
  live_established p id c acts =
      live (run epoll p (calls_of id (established c).methods)) id (established c) acts

  live-awaited :
      IsLawful epoll
      → (p : EPollPoller K) (id : ℕ) (c : Connection) (acts : List Act) → Mirrors p id (flagged c)
      → IsWaiting c
      → length c.output.store + load_all acts < 2 ^ 63
      → (q : EPollPoller K) × (live (some p) id c acts ≡ some q)
        × Mirrors q id (awaited (act_all c acts))
  unfolding live
  live-awaited lawful p id c [] m v h = (p, refl, subst (Mirrors p id) (flagged-awaited c v) m)
  live-awaited lawful p id c (a ∷ acts) m v h =
      let (q, ok, m') = methods-Mirrors lawful p id (flagged c) (act c a).methods m in
      let (r, ok', m'') =
        live-awaited lawful q id (act c a) acts (subst (Mirrors q id) (act-changed c a) m')
          (act-IsWaiting c a v (omega arith)) (omega (arith, act-grown c a v (omega arith))) in
      (r, ap (λ o. live o id (act c a) acts) ok ∙ ok', m'')

  -- Over every life of a connection from connectEstablished on (sends, on broken connections
  -- too, writable sockets, shutdowns, closes and connectDestroyed, in any order), with the
  -- methods of the channel that the code calls in each, the poller never exits and stays in step
  -- with the kernel, and the events of the channel are those that the connection waits for:
  -- input exactly while its state is not disconnected, and room in the socket exactly while
  -- moreover its output buffer holds bytes; the sizes stay below 2^63, and the kernel keeps to
  -- epoll_ctl(2).
  pub live-Mirrors :
      IsLawful epoll
      → (p : EPollPoller K) (id : ℕ) (c : Connection) (acts : List Act) → Mirrors p id 0
      → IsNew c
      → length c.output.store + load_all acts < 2 ^ 63
      → (q : EPollPoller K) × (live_established p id c acts ≡ some q)
        × Mirrors q id (awaited (act_all (established c) acts))
  unfolding live_established connect_established
  live-Mirrors lawful p id c acts m n h =
      let (q, ok, m') = methods-Mirrors lawful p id 0 (established c).methods m in
      let (r, ok', m'') =
        live-awaited lawful q id (established c) acts (subst (Mirrors q id) flags m')
          (established-IsWaiting c n) h in
      (r, ap (λ o. live o id (established c) acts) ok ∙ ok', m'')
    where
      flags : with_reading 0 ≡ flagged (established c)
      flags = ground (arith, n.silent)
