-- ===== src/EventLoop/Quits.antt =====
-- When `EventLoop::loop` returns.
use my_testserver.Prelude.{
  ℕ, ◌<◌, ◌≡◌, refl, sym, ap, subst, ◌∙◌, inl, inr, Bool, true, false, List, [], ◌∷◌, ◌++◌,
  Bool-cases, append_assoc, append-nil,
}
use mathlib.Core.List.Sublist
use mathlib.Core.List.{Sublist, nil-sublist, sublist-append_left, sublist-append_right}
use my_testserver.EventLoop.Functors.{AllQuiet, queued_by, queued_meanwhile, one_round-ran}
use my_testserver.Channel.{Callbacks}
use my_testserver.EventLoop.{enter_loop}
use my_testserver.EventLoop.Rounds.{
  act_all, Round, Reactor, returned, State, one_round, loop_rounds, loop, run_rounds, left,
}
use my_testserver.EventLoop.Handlers.{Behaves, AllBehave}
use my_testserver.EventLoop.Quitting.{
  asks_to_quit, quit-wakeups, round-IsQuitting, returned_at_once, one_more,
}

-- The state of the first round.
abbrev pub entered : {K V F : Type 0} → State K V F → State K V F
entered s = (s.0, enter_loop s.1)

-- `fs` are called in order, among others, between two lists of the calls so far.
abbrev pub AreCalled : {F : Type 0} → List F → List F → List F → Type 0
AreCalled {F} fs xs ys = (trace : List F) × (ys ≡ xs ++ trace) × Sublist fs trace

module _ {F : Type 0} where
  none-AreCalled : (xs : List F) → AreCalled [] xs xs
  none-AreCalled xs = ([], sym (append-nil xs), nil-sublist [])

  then-AreCalled :
      {first rest ys zs : List F} (xs : List F)
      → AreCalled first xs ys
      → AreCalled rest ys zs
      → AreCalled (first ++ rest) xs zs
  then-AreCalled {first} {rest} xs (us, e, h) (vs, e', h') =
      (us ++ vs, e' ∙ ap (λ t. t ++ vs) e ∙ append_assoc xs us vs, Sublist.append h h')

  fewer-AreCalled :
      (pending fs xs : List F) {ys : List F} → AreCalled (pending ++ fs) xs ys → AreCalled fs xs ys
  fewer-AreCalled pending fs xs (us, e, h) =
      (us, e, Sublist.trans (sublist-append_right pending fs) h)

module _ {K V F : Type 0} (wakeup_channel : ℕ) (callbacks : ℕ → ℕ → Callbacks (State K V F))
    (alive : Reactor K V → ℕ → Bool) (call : F → State K V F → State K V F)
    (calm : (now id : ℕ) → AllBehave (callbacks now id)) (tame : (f : F) → Behaves (call f)) where
  module _ (ran : V → List F) (quiet : (now id : ℕ) → AllQuiet ran (callbacks now id))
      (logs : (f : F) (s : State K V F) → ran (call f s).0.user ≡ ran s.0.user ++ (f ∷ [])) where
    -- The calls noted in a state.
    abbrev pub noted : State K V F → List F
    noted s = ran s.0.user

    round-AreCalled :
        (r : Round F) (s : State K V F)
        → AreCalled
            (s.1.pending ++ queued_by r.meanwhile)
            (noted s)
            (noted (one_round wakeup_channel callbacks alive call r s))
    round-AreCalled r s =
        let (own, e) = one_round-ran wakeup_channel callbacks alive call calm ran quiet logs r s in
        ((s.1.pending ++ queued_by r.meanwhile) ++ own, e, sublist-append_left _ own)

    -- The rounds that are run, out of those up to the one in which the loop is asked to quit.
    abbrev ReturnsBy : List (Round F) → List (Round F) → State K V F → Type 0
    ReturnsBy asked rounds s =
        (taken : List (Round F)) × (others : List (Round F)) × (taken ++ others ≡ asked)
        × (loop_rounds wakeup_channel callbacks alive call rounds s
            ≡ returned (left (run_rounds wakeup_channel callbacks alive call taken s)))
        × AreCalled (queued_meanwhile taken) (noted s)
            (noted (run_rounds wakeup_channel callbacks alive call taken s))

    rounds-ReturnsBy :
        (before : List (Round F)) (r : Round F) (more : List (Round F)) (s : State K V F)
        → asks_to_quit r.meanwhile ≡ true
        → ReturnsBy (before ++ (r ∷ [])) (before ++ (r ∷ more)) s
    rounds-ReturnsBy [] r more s h = elim (Bool-cases s.1.quitting) [
      | inl e ↦ (
        [],
        r ∷ [],
        refl,
        returned_at_once wakeup_channel callbacks alive call calm tame (r ∷ more) s e,
        none-AreCalled (noted s),
      )
      | inr e ↦ (
        r ∷ [],
        [],
        refl,
        one_more wakeup_channel callbacks alive call calm tame r more s e
            ∙ returned_at_once wakeup_channel callbacks alive call calm tame more _
                (round-IsQuitting wakeup_channel callbacks alive call calm tame r s (inr h)),
        then-AreCalled (noted s)
            (fewer-AreCalled s.1.pending (queued_by r.meanwhile) (noted s) (round-AreCalled r s))
            (none-AreCalled (noted (one_round wakeup_channel callbacks alive call r s))),
      )
    ]
    rounds-ReturnsBy (b ∷ before) r more s h = elim (Bool-cases s.1.quitting) [
      | inl e ↦ (
        [],
        b ∷ (before ++ (r ∷ [])),
        refl,
        returned_at_once wakeup_channel callbacks alive call calm tame _ s e,
        none-AreCalled (noted s),
      )
      | inr e ↦
          let (taken, others, all, ends, called) =
            rounds-ReturnsBy before r more (one_round wakeup_channel callbacks alive call b s) h in
          (
            b ∷ taken,
            others,
            ap (◌∷◌ b) all,
            one_more wakeup_channel callbacks alive call calm tame b (before ++ (r ∷ more)) s e
                ∙ ends,
            then-AreCalled (noted s)
                (fewer-AreCalled s.1.pending (queued_by b.meanwhile) (noted s)
                  (round-AreCalled b s))
                called,
          )
    ]

    -- The same for a loop that is not asked to quit yet: its first round takes the functors that
    -- are pending.
    abbrev FirstReturnsBy : List (Round F) → List (Round F) → State K V F → Type 0
    FirstReturnsBy asked rounds s =
        (taken : List (Round F)) × (others : List (Round F)) × (taken ++ others ≡ asked)
        × (loop_rounds wakeup_channel callbacks alive call rounds s
            ≡ returned (left (run_rounds wakeup_channel callbacks alive call taken s)))
        × AreCalled (s.1.pending ++ queued_meanwhile taken) (noted s)
            (noted (run_rounds wakeup_channel callbacks alive call taken s))

    first-AreCalled :
        (r : Round F) (more : List (Round F)) (s : State K V F) (u : List F)
        → AreCalled
            (queued_meanwhile more)
            (noted (one_round wakeup_channel callbacks alive call r s))
            u
        → AreCalled (s.1.pending ++ queued_meanwhile (r ∷ more)) (noted s) u
    first-AreCalled r more s u h =
        subst (λ fs. AreCalled fs (noted s) u)
          (append_assoc s.1.pending (queued_by r.meanwhile) (queued_meanwhile more))
          (then-AreCalled (noted s) (round-AreCalled r s) h)

    first-ReturnsBy :
        (before : List (Round F)) (r : Round F) (more : List (Round F)) (s : State K V F)
        → asks_to_quit r.meanwhile ≡ true
        → s.1.quitting ≡ false
        → FirstReturnsBy (before ++ (r ∷ [])) (before ++ (r ∷ more)) s
    first-ReturnsBy [] r more s h e = (
      r ∷ [],
      [],
      refl,
      one_more wakeup_channel callbacks alive call calm tame r more s e
          ∙ returned_at_once wakeup_channel callbacks alive call calm tame more _
              (round-IsQuitting wakeup_channel callbacks alive call calm tame r s (inr h)),
      first-AreCalled r [] s _
          (none-AreCalled (noted (one_round wakeup_channel callbacks alive call r s))),
    )
    first-ReturnsBy (b ∷ before) r more s h e =
        let (taken, others, all, ends, called) =
          rounds-ReturnsBy before r more (one_round wakeup_channel callbacks alive call b s) h in
        (
          b ∷ taken,
          others,
          ap (◌∷◌ b) all,
          one_more wakeup_channel callbacks alive call calm tame b (before ++ (r ∷ more)) s e
              ∙ ends,
          first-AreCalled b taken s _ called,
        )

    -- If another thread quits while loop blocks in a round, then the wakeup descriptor is
    -- readable, so that epoll_wait does not block on; loop returns by the end of that round,
    -- whatever rounds could follow; and between its start and its return it calls, in this order
    -- and perhaps among others, the functors that were pending and those that other threads
    -- queued while it blocked; the callbacks and the functors use the loop by queueInLoop and
    -- quit alone, and each functor adds itself to a list when it is called, which the callbacks
    -- leave alone.
    pub loop_quits :
        (before : List (Round F)) (r : Round F) (more : List (Round F)) (s : State K V F)
        → asks_to_quit r.meanwhile ≡ true
        → (taken : List (Round F)) × (others : List (Round F)) × (taken ++ others
            ≡ before ++ (r ∷ []))
          × (loop wakeup_channel callbacks alive call (before ++ (r ∷ more)) s
              ≡ returned (left (run_rounds wakeup_channel callbacks alive call taken (entered s))))
          × AreCalled
              (s.1.pending ++ queued_meanwhile taken)
              (noted s)
              (noted (run_rounds wakeup_channel callbacks alive call taken (entered s)))
          × (0
              < (act_all false
                  (run_rounds wakeup_channel callbacks alive call before (entered s)).1
                  r.meanwhile).wakeups)
    unfolding loop enter_loop
    loop_quits before r more s h =
        let (taken, others, all, ends, called) = first-ReturnsBy before r more (entered s) h refl in
        (
          taken,
          others,
          all,
          ends,
          called,
          quit-wakeups r.meanwhile
              (run_rounds wakeup_channel callbacks alive call before (entered s)).1 h,
        )
