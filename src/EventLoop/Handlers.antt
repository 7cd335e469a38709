-- ===== src/EventLoop/Handlers.antt =====
-- The handlers of the active channels in `EventLoop::loop`: what they keep of the loop.
use my_testserver.Prelude.{
  ℕ, ◌≡◌, sym, subst, inl, inr, Bool, true, false, Option, none, some, List, [], ◌∷◌, ◌==◌,
  Bool-cases,
}
use my_testserver.Channel.{Channel, Callbacks, call_if, handle_event, handle_event_with_guard}
use my_testserver.EventLoop.{EventLoop, handle_wakeup}
use my_testserver.EventLoop.Rounds.{
  Action, act, act_all, Reactor, State, wakeup_callbacks, callbacks_of, handle_active,
}

-- A callback that acts on the loop by calls of queueInLoop and quit alone.
abbrev pub Behaves : {K V F : Type 0} → (State K V F → State K V F) → Type 0
Behaves {K} {V} {F} f =
    (s : State K V F) → (actions : List (Action F)) × ((f s).1 ≡ act_all true s.1 actions)

abbrev pub MayBehave : {K V F : Type 0} → Option (State K V F → State K V F) → Type 0
MayBehave none = Unit {0}
MayBehave (some f) = Behaves f

abbrev pub AllBehave : {K V F : Type 0} → Callbacks (State K V F) → Type 0
AllBehave on = MayBehave on.close × MayBehave on.error × MayBehave on.read × MayBehave on.write

-- What every callback of a channel keeps, handleEvent keeps.
module _ {S : Type 0} (Holds : S → Type 0) where
  abbrev pub KeepsIf : Option (S → S) → Type 0
  KeepsIf none = Unit {0}
  KeepsIf (some f) = (s : S) → Holds s → Holds (f s)

  call_if-Holds :
      (b : Bool) (callback : Option (S → S)) (s : S)
      → KeepsIf callback
      → Holds s
      → Holds (call_if b callback s)
  call_if-Holds false callback s k h = h
  call_if-Holds true none s k h = h
  call_if-Holds true (some f) s k h = k s h

  guarded-Holds :
      (revents : ℕ) (on : Callbacks S) (s : S)
      → KeepsIf on.close
      → KeepsIf on.error
      → KeepsIf on.read
      → KeepsIf on.write
      → Holds s
      → Holds (handle_event_with_guard revents on s)
  unfolding handle_event_with_guard
  guarded-Holds revents on s close error read write h = call_if-Holds _ on.write _ write (
      call_if-Holds _ on.read _ read
        (call_if-Holds _ on.error _ error (call_if-Holds _ on.close s close h)))

  handle_event-Holds :
      (c : Channel) (alive : Bool) (on : Callbacks S) (s : S)
      → KeepsIf on.close
      → KeepsIf on.error
      → KeepsIf on.read
      → KeepsIf on.write
      → Holds s
      → Holds (handle_event c alive on s)
  unfolding handle_event
  handle_event-Holds c alive on s close error read write h =
      let guarded = guarded-Holds c.revents on s close error read write h in
      elim (Bool-cases c.tied) [
        | inl e ↦ rw e (elim (Bool-cases alive) [ inl a ↦ rw a guarded | inr a ↦ rw a h ])
        | inr e ↦ rw e guarded
      ]

-- `Holds` is kept by what callbacks do, and by the read of the wakeup descriptor.
module _ {K V F : Type 0} (wakeup_channel : ℕ) (callbacks : ℕ → ℕ → Callbacks (State K V F))
    (alive : Reactor K V → ℕ → Bool) (call : F → State K V F → State K V F)
    (calm : (now id : ℕ) → AllBehave (callbacks now id)) (Holds : EventLoop F → Type 0)
    (keeps : (l : EventLoop F) (a : Action F) → Holds l → Holds (act true l a))
    (drains : (l : EventLoop F) → Holds l → Holds (handle_wakeup l)) where
  act_all-Holds :
      (actions : List (Action F)) (l : EventLoop F) → Holds l → Holds (act_all true l actions)
  act_all-Holds [] l h = h
  act_all-Holds (a ∷ more) l h = act_all-Holds more (act true l a) (keeps l a h)

  pub behaved-Holds :
      (f : State K V F → State K V F) (s : State K V F) → Behaves f → Holds s.1 → Holds (f s).1
  behaved-Holds f s b h = subst Holds (sym (b s).1) (act_all-Holds (b s).0 s.1 h)

  callback-Holds :
      (callback : Option (State K V F → State K V F))
      → MayBehave callback
      → KeepsIf (λ s. Holds s.1) callback
  callback-Holds none b = tt
  callback-Holds (some f) b = λ s h. behaved-Holds f s b h

  wakeup-Holds : KeepsIf {S = State K V F} (λ s. Holds s.1) (some (λ s. (s.0, handle_wakeup s.1)))
  wakeup-Holds = λ s h. drains s.1 h

  event-Holds :
      (c : Channel) (owner : Bool) (now id : ℕ) (s : State K V F)
      → Holds s.1
      → Holds (handle_event c owner (callbacks_of wakeup_channel callbacks alive call now id) s).1
  event-Holds c owner now id s h = elim (Bool-cases (id == wakeup_channel)) [
    | inl e ↦ rw e (
        handle_event-Holds (λ s. Holds s.1) c owner
          (wakeup_callbacks wakeup_channel callbacks alive call) s tt tt wakeup-Holds tt h)
    | inr e ↦
        let on = callbacks now id in
        let b = calm now id in
        rw e (
          handle_event-Holds (λ s. Holds s.1) c owner on s (callback-Holds on.close b.0)
            (callback-Holds on.error b.1) (callback-Holds on.read b.2) (callback-Holds on.write b.3)
            h)
  ]

  pub handle_active-Holds :
      (now : ℕ) (ids : List ℕ) (s : State K V F)
      → Holds s.1
      → Holds (handle_active wakeup_channel callbacks alive call now ids s).1
  unfolding handle_active
  handle_active-Holds now [] s h = h
  handle_active-Holds now (id ∷ ids) s h =
      handle_active-Holds now ids _ (event-Holds (s.0.poller.channel id) (alive s.0 id) now id s h)

-- `Holds` is kept by the callbacks, and by the read of the wakeup descriptor.
module _ {K V F : Type 0} (wakeup_channel : ℕ) (callbacks : ℕ → ℕ → Callbacks (State K V F))
    (alive : Reactor K V → ℕ → Bool) (call : F → State K V F → State K V F)
    (Holds : State K V F → Type 0)
    (keeps : (now id : ℕ)
      → KeepsIf Holds (callbacks now id).close
        × KeepsIf Holds (callbacks now id).error
        × KeepsIf Holds (callbacks now id).read
        × KeepsIf Holds (callbacks now id).write)
    (drains : (s : State K V F) → Holds s → Holds (s.0, handle_wakeup s.1)) where
  event-Kept :
      (c : Channel) (owner : Bool) (now id : ℕ) (s : State K V F)
      → Holds s
      → Holds (handle_event c owner (callbacks_of wakeup_channel callbacks alive call now id) s)
  event-Kept c owner now id s h = elim (Bool-cases (id == wakeup_channel)) [
    | inl e ↦ rw e (
        handle_event-Holds Holds c owner (wakeup_callbacks wakeup_channel callbacks alive call) s tt
          tt drains tt h)
    | inr e ↦
        let on = callbacks now id in
        let k = keeps now id in rw e (handle_event-Holds Holds c owner on s k.0 k.1 k.2 k.3 h)
  ]

  pub handle_active-Kept :
      (now : ℕ) (ids : List ℕ) (s : State K V F)
      → Holds s
      → Holds (handle_active wakeup_channel callbacks alive call now ids s)
  unfolding handle_active
  handle_active-Kept now [] s h = h
  handle_active-Kept now (id ∷ ids) s h =
      handle_active-Kept now ids _ (event-Kept (s.0.poller.channel id) (alive s.0 id) now id s h)
