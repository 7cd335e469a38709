-- ===== src/Connection/Sent.antt =====
-- The connections of Connection.antt under the view of Net.antt: what is handed over for sending is
-- what the sockets and the output buffers hold.
use my_testserver.Prelude.{
  ℕ, ◌+◌, ◌^◌, ◌<◌, ◌≤◌, ◌≡◌, refl, sym, ap, ap₂, subst, ◌∙◌, inl, inr, true, false, List, [], ◌∷◌,
  ◌++◌, length, Bytes, ◌==◌, ==_iff, if◌then◌else◌, arith, append_assoc, append-nil, Bool-cases,
}
use my_testserver.Net.{Net}
use my_testserver.Connection.{Connection, handle_close}
use my_testserver.Connection.Stream.{IsSound, given, send-Takes}
use my_testserver.Connection.Steps.{handle_write-Keeps, shutdown-Keeps, handle_close-Keeps}
use my_testserver.Connection.Run.{
  Event, sends, writable, shuts_down, closes, step, run, next_state, accepted, Faultless, traffic,
  run-stream, handle_write-state, shutdown-state,
}
use my_testserver.Connection.View.{
  net_step, net_run, Connections, step_at, run_all, Happening, happen_all, events_of, OnOwnLoops,
  happen_all-own, sent_to, new_bytes, net_step-state, net_step-sent,
}

-- One event of one connection.
record Stepped (c d : Connection) (e : Event) : Type 0 where
  sound : IsSound d
  holds : given d ≡ given c ++ accepted c.state (e ∷ [])
  same_state : d.state ≡ next_state c.state e
  grown : length d.output.store ≤ length c.output.store + traffic (e ∷ [])

step-state :
    (c : Connection) (e : Event)
    → IsSound c
    → length c.output.store + traffic (e ∷ []) < 2 ^ 63
    → Faultless (e ∷ [])
    → (step c e).state ≡ next_state c.state e
unfolding step handle_close
step-state c (sends bytes w) s h ok = (send-Takes c bytes w s (omega arith) ok.0).1.same_state
step-state c (writable w) s h ok = handle_write-state c w
step-state c shuts_down s h ok = shutdown-state c
step-state c closes s h ok = refl

step-grown :
    (c : Connection) (e : Event)
    → IsSound c
    → length c.output.store + traffic (e ∷ []) < 2 ^ 63
    → Faultless (e ∷ [])
    → length (step c e).output.store ≤ length c.output.store + traffic (e ∷ [])
unfolding step
step-grown c (sends bytes w) s h ok =
    let t = (send-Takes c bytes w s (omega arith) ok.0).1 in ground (arith, t.grown)
step-grown c (writable w) s h ok = omega (arith, (handle_write-Keeps c w s).same_size)
step-grown c shuts_down s h ok = omega (arith, (shutdown-Keeps c s).same_size)
step-grown c closes s h ok = omega (arith, (handle_close-Keeps c s).same_size)

step-Stepped :
    (c : Connection) (e : Event)
    → IsSound c
    → length c.output.store + traffic (e ∷ []) < 2 ^ 63
    → Faultless (e ∷ [])
    → Stepped c (step c e) e
unfolding run
step-Stepped c e s h ok =
    let r = run-stream (e ∷ []) s h ok in
    record {
      sound = r.0;
      holds = r.1;
      same_state = step-state c e s h ok;
      grown = step-grown c e s h ok;
    }

abbrev pub all_traffic : List (ℕ × Event) → ℕ
all_traffic [] = 0
all_traffic ((conn, e) ∷ es) = traffic (e ∷ []) + all_traffic es

abbrev pub AllFaultless : List (ℕ × Event) → Type 0
AllFaultless [] = Unit {0}
AllFaultless ((conn, e) ∷ es) = Faultless (e ∷ []) × AllFaultless es

-- The connection is in the state that the chat server sees, and holds what was sent to it, behind the
-- bytes `old`; `room` bytes more leave its buffer below 2^63.
pub record Implements (net : Net) (k : ℕ) (c : Connection) (old : Bytes) : Type 0 where
  pub sound : IsSound c
  pub same_state : c.state ≡ net.state k
  pub holds : given c ≡ old ++ sent_to k net.sent

here-Implements :
    (net : Net) (k : ℕ) (c : Connection) (e : Event) (old : Bytes)
    → Implements net k c old
    → length c.output.store + traffic (e ∷ []) < 2 ^ 63
    → Faultless (e ∷ [])
    → Implements (net_step net k e) k (step c e) old
here-Implements net k c e old i h ok =
    let t = step-Stepped c e i.sound h ok in
    let at_k : (k == k) ≡ true = ground (arith, ==_iff k k) in
    let state : (net_step net k e).state k ≡ next_state (net.state k) e =
      net_step-state net k e k
      ∙ ap (λ b. if b then next_state (net.state k) e else net.state k) at_k in
    let now : new_bytes net k e k ≡ accepted (net.state k) (e ∷ []) =
      ap (λ b. if b then accepted (net.state k) (e ∷ []) else []) at_k in
    record {
      sound = t.sound;
      same_state = t.same_state ∙ ap (λ state. next_state state e) i.same_state ∙ sym state;
      holds =
          t.holds
          ∙ ap₂ (λ g state. g ++ accepted state (e ∷ [])) i.holds i.same_state
          ∙ append_assoc old (sent_to k net.sent) (accepted (net.state k) (e ∷ []))
          ∙ ap (λ rest. old ++ rest)
              (ap (λ b. sent_to k net.sent ++ b) (sym now) ∙ sym (net_step-sent net k e k));
    }

away-Implements :
    (net : Net) (conn k : ℕ) (c : Connection) (e : Event) (old : Bytes)
    → (k == conn) ≡ false
    → Implements net k c old
    → Implements (net_step net conn e) k c old
away-Implements net conn k c e old other i =
    let none_new : new_bytes net conn e k ≡ [] =
      ap (λ b. if b then accepted (net.state conn) (e ∷ []) else []) other in
    record {
      sound = i.sound;
      same_state =
          i.same_state
          ∙ sym (
              net_step-state net conn e k
              ∙ ap (λ b. if b then next_state (net.state conn) e else net.state k) other);
      holds =
          i.holds
          ∙ ap (λ rest. old ++ rest)
              (sym (
                net_step-sent net conn e k
                ∙ ap (λ b. sent_to k net.sent ++ b) none_new
                ∙ append-nil (sent_to k net.sent)));
    }

step_at-Implements :
    (net : Net) (cs : Connections) (conn : ℕ) (e : Event) (k : ℕ) (old : Bytes)
    → Implements net k (cs k) old
    → length (cs k).output.store + traffic (e ∷ []) < 2 ^ 63
    → Faultless (e ∷ [])
    → Implements (net_step net conn e) k (step_at cs conn e k) old
step_at-Implements net cs conn e k old i h ok = elim (Bool-cases (k == conn)) [
  | inl same ↦
      subst (λ b. Implements (net_step net conn e) k (if b then step (cs conn) e else cs k) old)
        (sym same)
        (subst (λ j. Implements (net_step net j e) k (step (cs j) e) old) ((==_iff k conn).0 same)
          (here-Implements net k (cs k) e old i h ok))
  | inr other ↦
      subst (λ b. Implements (net_step net conn e) k (if b then step (cs conn) e else cs k) old)
        (sym other) (away-Implements net conn k (cs k) e old other i)
]

step_at-grown :
    (cs : Connections) (conn : ℕ) (e : Event) (k : ℕ)
    → IsSound (cs k)
    → length (cs k).output.store + traffic (e ∷ []) < 2 ^ 63
    → Faultless (e ∷ [])
    → length (step_at cs conn e k).output.store ≤ length (cs k).output.store + traffic (e ∷ [])
step_at-grown cs conn e k s h ok = elim (Bool-cases (k == conn)) [
  | inl same ↦
      subst
        (λ b.
          length (if b then step (cs conn) e else cs k).output.store
          ≤ length (cs k).output.store + traffic (e ∷ []))
        (sym same)
        (subst
          (λ j. length (step (cs j) e).output.store ≤ length (cs k).output.store + traffic (e ∷ []))
          ((==_iff k conn).0 same) (step-grown (cs k) e s h ok))
  | inr other ↦ rw other (omega arith)
]

run_all-Implements :
    (es : List (ℕ × Event)) (net : Net) (cs : Connections) (k : ℕ) (old : Bytes)
    → Implements net k (cs k) old
    → length (cs k).output.store + all_traffic es < 2 ^ 63
    → AllFaultless es
    → Implements (net_run net es) k (run_all cs es k) old
unfolding net_run run_all
run_all-Implements [] net cs k old i h ok = i
run_all-Implements ((conn, e) ∷ es) net cs k old i h (ok, oks) =
    run_all-Implements es (net_step net conn e) (step_at cs conn e) k old
      (step_at-Implements net cs conn e k old i (omega arith) ok)
      (omega (arith, step_at-grown cs conn e k i.sound (omega arith) ok)) oks

-- Over every sequence of sends, writable sockets, shutdowns and closes of many connections, each
-- on the thread of the connection's own loop, whatever the sockets take and without a broken
-- connection, each connection implements the view that the chat server has of it: it is sound,
-- it is in the state of the view, and what its socket took followed by what waits is what it was
-- before and the messages that the view lists as sent to it, in order; the sizes stay below
-- 2^63; a send from the thread of another loop is not among these events.
pub happen_all-Implements :
    (loop_of : ℕ → ℕ) (hs : List Happening) (net : Net) (cs : Connections) (k : ℕ) (old : Bytes)
    → OnOwnLoops loop_of hs
    → Implements net k (cs k) old
    → length (cs k).output.store + all_traffic (events_of hs) < 2 ^ 63
    → AllFaultless (events_of hs)
    → Implements (net_run net (events_of hs)) k (happen_all loop_of cs hs k) old
happen_all-Implements loop_of hs net cs k old own i h ok =
    subst (λ ds. Implements (net_run net (events_of hs)) k (ds k) old)
      (sym (happen_all-own loop_of cs hs own))
      (run_all-Implements (events_of hs) net cs k old i h ok)
