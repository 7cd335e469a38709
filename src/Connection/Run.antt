-- ===== src/Connection/Run.antt =====
-- Any sequence of sends, writable sockets, shutdowns and closes of one connection.
use my_testserver.Prelude.{
  ℕ, ◌+◌, ◌^◌, ◌<◌, ◌≤◌, ◌≡◌, refl, sym, ap, subst, ◌∙◌, inl, inr, Bool, true, false, List, [], ◌∷◌,
  ◌++◌, length, Bytes, if◌then◌else◌, arith, append_assoc, append-nil, Bool-cases,
}
use my_testserver.Buffer.{readable_bytes, retrieve, retrieve_all}
use my_testserver.Net.{StateE, is_connected, disconnecting, disconnected}
use my_testserver.Connection.{
  Connection, Write, room, is_fault, handle_close, shutdown_in_loop, complete, is_disconnecting,
  flushed, handle_write, send_here, shutdown,
}
use my_testserver.Connection.Stream.{IsSound, given, send-Takes, nothing_readable}
use my_testserver.Connection.Steps.{handle_write-Keeps, shutdown-Keeps, handle_close-Keeps}

-- What may happen to a connection between its start and its end. With a send or a writable socket
-- comes what `write` meets.
pub data Event : Type 0 where
  sends : Bytes → Write → Event
  writable : Write → Event
  shuts_down closes : Event

unfoldable pub step : Connection → Event → Connection
step c (sends bytes w) = send_here c bytes w
step c (writable w) = handle_write c w
step c shuts_down = shutdown c
step c closes = handle_close c

unfoldable pub run : Connection → List Event → Connection
run c [] = c
run c (e ∷ es) = run (step c e) es

-- The states alone, and the bytes that are sent while the state is connected.
abbrev pub next_state : StateE → Event → StateE
next_state state (sends bytes w) = state
next_state state (writable w) = state
next_state state shuts_down = if is_connected state then disconnecting else state
next_state state closes = disconnected

abbrev pub accepted : StateE → List Event → Bytes
accepted state [] = []
accepted state (sends bytes w ∷ es) =
    (if is_connected state then bytes else []) ++ accepted (next_state state (sends bytes w)) es
accepted state (writable w ∷ es) = accepted (next_state state (writable w)) es
accepted state (shuts_down ∷ es) = accepted (next_state state shuts_down) es
accepted state (closes ∷ es) = accepted (next_state state closes) es

-- No send meets a broken connection.
abbrev pub Faultless : List Event → Type 0
Faultless [] = Unit {0}
Faultless (sends bytes w ∷ es) = (is_fault w ≡ false) × Faultless es
Faultless (writable w ∷ es) = Faultless es
Faultless (shuts_down ∷ es) = Faultless es
Faultless (closes ∷ es) = Faultless es

abbrev pub traffic : List Event → ℕ
traffic [] = 0
traffic (sends bytes w ∷ es) = length bytes + traffic es
traffic (writable w ∷ es) = traffic es
traffic (shuts_down ∷ es) = traffic es
traffic (closes ∷ es) = traffic es

pub handle_write-state : (c : Connection) (w : Write) → (handle_write c w).state ≡ c.state
unfolding handle_write flushed complete shutdown_in_loop
handle_write-state c w = ground arith

pub shutdown-state :
    (c : Connection)
    → (shutdown c).state ≡ (if is_connected c.state then disconnecting else c.state)
unfolding shutdown shutdown_in_loop
shutdown-state c = ground arith

length-accepted_now : (up : Bool) (bytes : Bytes) → length (if up then bytes else []) ≤ length bytes
length-accepted_now true bytes = omega arith
length-accepted_now false bytes = omega arith

-- Over any sequence of sends, writable sockets, shutdowns and closes of a connection on its own
-- loop, whatever the socket takes of each write and without a broken connection, what the socket
-- took followed by what waits in the output buffer is exactly what it was before and the bytes
-- sent while connected, in order; the channel waits for room exactly while bytes wait and the
-- connection is not down, and the write side is shut down only with no bytes waiting; the sizes
-- together stay below 2^63.
pub run-stream :
    (es : List Event) {c : Connection}
    → IsSound c
    → length c.output.store + traffic es < 2 ^ 63
    → Faultless es
    → IsSound (run c es) × (given (run c es) ≡ given c ++ accepted c.state es)
unfolding run step handle_close
run-stream [] {c} s h ok = (s, sym (append-nil (given c)))
run-stream (sends bytes w ∷ es) {c} s h ok =
    let (sound, t) = send-Takes c bytes w s (omega arith) ok.0 in
    let now = if is_connected c.state then bytes else [] in
    let rest =
      run-stream es sound (omega (arith, t.grown, length-accepted_now (is_connected c.state) bytes))
        ok.1 in
    (
      rest.0,
      rest.1
          ∙ ap (λ state. given (send_here c bytes w) ++ accepted state es) t.same_state
          ∙ ap (λ g. g ++ accepted c.state es) t.holds
          ∙ append_assoc (given c) now (accepted c.state es),
    )
run-stream (writable w ∷ es) {c} s h ok =
    let k = handle_write-Keeps c w s in
    let rest = run-stream es k.sound (omega (arith, k.same_size)) ok in
    (
      rest.0,
      rest.1
          ∙ ap (λ g. g ++ accepted (handle_write c w).state es) k.holds
          ∙ ap (λ state. given c ++ accepted state es) (handle_write-state c w),
    )
run-stream (shuts_down ∷ es) {c} s h ok =
    let k = shutdown-Keeps c s in
    let rest = run-stream es k.sound (omega (arith, k.same_size)) ok in
    (
      rest.0,
      rest.1
          ∙ ap (λ g. g ++ accepted (shutdown c).state es) k.holds
          ∙ ap (λ state. given c ++ accepted state es) (shutdown-state c),
    )
run-stream (closes ∷ es) {c} s h ok =
    let k = handle_close-Keeps c s in run-stream es k.sound (omega (arith, k.same_size)) ok

-- One writable socket with room for all that waits.
handle_write_drains :
    (c : Connection) (n : ℕ)
    → c.writing ≡ true
    → is_disconnecting c.state ≡ true
    → 0 < readable_bytes c.output
    → readable_bytes c.output ≤ n
    → ((handle_write c (room n)).shut ≡ true)
      × (readable_bytes (handle_write c (room n)).output ≡ 0)
unfolding handle_write flushed complete shutdown_in_loop retrieve retrieve_all
handle_write_drains c n w d p h = ground arith

shutdown-idle :
    (c : Connection) (n : ℕ)
    → is_connected c.state ≡ true
    → c.writing ≡ false
    → handle_write (shutdown c) (room n) ≡ record c { state = disconnecting; shut = true }
unfolding shutdown shutdown_in_loop handle_write
shutdown-idle c n up idle = ground arith

shutdown-busy :
    (c : Connection)
    → is_connected c.state ≡ true
    → c.writing ≡ true
    → shutdown c ≡ record c { state = disconnecting }
unfolding shutdown shutdown_in_loop
shutdown-busy c up busy = ground arith

all_on_wire : (d : Connection) → IsSound d → readable_bytes d.output ≡ 0 → d.wire ≡ given d
all_on_wire d s e =
    sym (append-nil d.wire) ∙ ap (λ r. d.wire ++ r) (sym (nothing_readable d.output s.valid e))

shut_and_drained :
    (c : Connection) (n : ℕ)
    → IsSound c
    → is_connected c.state ≡ true
    → readable_bytes c.output ≤ n
    → ((handle_write (shutdown c) (room n)).shut ≡ true)
      × (readable_bytes (handle_write (shutdown c) (room n)).output ≡ 0)
shut_and_drained c n s up h = elim (Bool-cases c.writing) [
  | inl busy ↦
      subst
        (λ d.
          ((handle_write d (room n)).shut ≡ true)
          × (readable_bytes (handle_write d (room n)).output ≡ 0))
        (sym (shutdown-busy c up busy))
        (handle_write_drains (record c { state = disconnecting }) n busy refl
          (ground (arith, s.interest)) h)
  | inr idle ↦
      subst (λ d. (d.shut ≡ true) × (readable_bytes d.output ≡ 0)) (sym (shutdown-idle c n up idle))
        (refl, ground (arith, s.interest))
]

-- After shutdown of a sound connected connection, one writable socket with room for the waiting
-- bytes is enough: all bytes are on the wire, and the write side is shut down.
pub shutdown-delivers :
    (c : Connection) (n : ℕ)
    → IsSound c
    → is_connected c.state ≡ true
    → readable_bytes c.output ≤ n
    → ((handle_write (shutdown c) (room n)).shut ≡ true)
      × ((handle_write (shutdown c) (room n)).wire ≡ given c)
shutdown-delivers c n s up h =
    let (shut, empty) = shut_and_drained c n s up h in
    let first = shutdown-Keeps c s in
    let second = handle_write-Keeps (shutdown c) (room n) first.sound in
    (
      shut,
      all_on_wire (handle_write (shutdown c) (room n)) second.sound empty
          ∙ second.holds
          ∙ first.holds,
    )
