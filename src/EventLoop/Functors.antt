-- ===== src/EventLoop/Functors.antt =====
-- The functors that a round of `EventLoop::loop` calls.
use my_testserver.Prelude.{
  ℕ, ◌≡◌, refl, sym, ap, ◌∙◌, Bool, true, false, Option, none, some, List, [], ◌∷◌, ◌++◌,
  append_assoc, append-nil, arith,
}
use my_testserver.Channel.{Callbacks}
use my_testserver.Poller.{poll}
use my_testserver.EventLoop.{
  EventLoop, wakeup, handle_wakeup, append_functor, queue_in_loop, quit, swap_pending,
  call_functors, do_pending_functors,
}
use my_testserver.EventLoop.Rounds.{
  Action, queues, quits, act, act_all, Round, Reactor, State, one_round, handle_active,
}
use my_testserver.EventLoop.Handlers.{AllBehave, KeepsIf, handle_active-Holds, handle_active-Kept}

-- The functors among the calls of other threads.
abbrev pub queued_by : {F : Type 0} → List (Action F) → List F
queued_by [] = []
queued_by (queues f ∷ more) = f ∷ queued_by more
queued_by (quits ∷ more) = queued_by more

-- Those of all the rounds.
abbrev pub queued_meanwhile : {F : Type 0} → List (Round F) → List F
queued_meanwhile [] = []
queued_meanwhile (r ∷ more) = queued_by r.meanwhile ++ queued_meanwhile more

-- A callback that leaves the list of the calls of functors alone.
abbrev pub MayBeQuiet :
    {K V F : Type 0} → (V → List F) → Option (State K V F → State K V F) → Type 0
MayBeQuiet ran none = Unit {0}
MayBeQuiet {K} {V} {F} ran (some f) = (s : State K V F) → ran (f s).0.user ≡ ran s.0.user

abbrev pub AllQuiet : {K V F : Type 0} → (V → List F) → Callbacks (State K V F) → Type 0
AllQuiet ran on =
    MayBeQuiet ran on.close
    × MayBeQuiet ran on.error
    × MayBeQuiet ran on.read
    × MayBeQuiet ran on.write

module _ {F : Type 0} where
  -- The pending functors are `base` and some more.
  abbrev Extends : List F → EventLoop F → Type 0
  Extends base l = (own : List F) × (l.pending ≡ base ++ own)

  act-pending :
      (in_loop_thread : Bool) (l : EventLoop F) (a : Action F)
      → (act in_loop_thread l a).pending ≡ l.pending ++ queued_by (a ∷ [])
  unfolding queue_in_loop append_functor wakeup quit
  act-pending in_loop_thread l (queues f) = ground arith
  act-pending in_loop_thread l quits = ground (arith, append-nil l.pending)

  act-Extends :
      (base : List F) (l : EventLoop F) (a : Action F)
      → Extends base l
      → Extends base (act true l a)
  act-Extends base l a (own, e) = (
    own ++ queued_by (a ∷ []),
    act-pending true l a ∙ ap (λ t. t ++ queued_by (a ∷ [])) e ∙ append_assoc base own _,
  )

  meanwhile-pending :
      (actions : List (Action F)) (l : EventLoop F)
      → (act_all false l actions).pending ≡ l.pending ++ queued_by actions
  meanwhile-pending [] l = sym (append-nil l.pending)
  meanwhile-pending (queues f ∷ more) l =
      meanwhile-pending more (act false l (queues f))
      ∙ ap (λ t. t ++ queued_by more) (act-pending false l (queues f))
      ∙ append_assoc l.pending (f ∷ []) (queued_by more)
  meanwhile-pending (quits ∷ more) l =
      meanwhile-pending more (act false l quits)
      ∙ ap (λ t. t ++ queued_by more) (act-pending false l quits ∙ append-nil l.pending)

module _ {K V F : Type 0} (wakeup_channel : ℕ) (callbacks : ℕ → ℕ → Callbacks (State K V F))
    (alive : Reactor K V → ℕ → Bool) (call : F → State K V F → State K V F)
    (calm : (now id : ℕ) → AllBehave (callbacks now id)) (ran : V → List F)
    (quiet : (now id : ℕ) → AllQuiet ran (callbacks now id))
    (logs : (f : F) (s : State K V F) → ran (call f s).0.user ≡ ran s.0.user ++ (f ∷ [])) where
  call_functors-ran :
      (fs : List F) (s : State K V F) → ran (call_functors call fs s).0.user ≡ ran s.0.user ++ fs
  unfolding call_functors
  call_functors-ran [] s = sym (append-nil (ran s.0.user))
  call_functors-ran (f ∷ fs) s =
      call_functors-ran fs (call f s)
      ∙ ap (λ t. t ++ fs) (logs f s)
      ∙ append_assoc (ran s.0.user) (f ∷ []) fs

  pending-ran :
      (s : State K V F) → ran (do_pending_functors call s).0.user ≡ ran s.0.user ++ s.1.pending
  unfolding do_pending_functors swap_pending
  pending-ran (w, l) = call_functors-ran l.pending (w, (swap_pending l).1)

  quiet-KeepsIf :
      (xs : List F) (callback : Option (State K V F → State K V F))
      → MayBeQuiet ran callback
      → KeepsIf (λ s. ran s.0.user ≡ xs) callback
  quiet-KeepsIf xs none q = tt
  quiet-KeepsIf xs (some f) q = λ s h. q s ∙ h

  -- A round calls the functors that are pending, those that other threads queue while it blocks,
  -- and those that its handlers queue.
  pub one_round-ran :
      (r : Round F) (s : State K V F)
      → (own : List F) × (ran (one_round wakeup_channel callbacks alive call r s).0.user
          ≡ ran s.0.user ++ ((s.1.pending ++ queued_by r.meanwhile) ++ own))
  unfolding one_round
  one_round-ran r (w, l) =
      let (active, polled) = poll w.poller r.reported in
      let start : State K V F = (record w { poller = polled }, act_all false l r.meanwhile) in
      let handled = handle_active wakeup_channel callbacks alive call r.time active start in
      let (own, e) =
        handle_active-Holds wakeup_channel callbacks alive call calm
          (Extends (l.pending ++ queued_by r.meanwhile))
          (act-Extends (l.pending ++ queued_by r.meanwhile)) (unfold handle_wakeup in (λ l h. h))
          r.time active start ([], meanwhile-pending r.meanwhile l ∙ sym (append-nil _)) in
      let same : ran handled.0.user ≡ ran w.user =
        handle_active-Kept wakeup_channel callbacks alive call (λ s. ran s.0.user ≡ ran w.user)
          (λ now id.
            let q = quiet now id in
            let on = callbacks now id in
            (
              quiet-KeepsIf (ran w.user) on.close q.0,
              quiet-KeepsIf (ran w.user) on.error q.1,
              quiet-KeepsIf (ran w.user) on.read q.2,
              quiet-KeepsIf (ran w.user) on.write q.3,
            ))
          (λ s h. h) r.time active start refl in
      (
        own,
        pending-ran handled ∙ ap (λ t. t ++ handled.1.pending) same ∙ ap (λ t. ran w.user ++ t) e,
      )
