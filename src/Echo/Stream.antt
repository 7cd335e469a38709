-- ===== src/Echo/Stream.antt =====
-- The echo server over a run of readable events.
use my_testserver.Prelude.{
  ◌+◌, ◌^◌, ◌<◌, ◌≤◌, ◌≡◌, refl, sym, ap, subst, ◌∙◌, true, false, List, [], ◌∷◌, ◌++◌, length,
  length-append, Bytes, ltb, arith, if◌then◌else◌, append_assoc, append-nil,
}
use my_testserver.Buffer.{moved, readable, read_fd, retrieve_all_as_string}
use my_testserver.Buffer.Valid.{IsValid, HasPut, read_fd-HasPut}
use my_testserver.Buffer.Contents.{retrieve_all_as_string_lem}
use my_testserver.Net.{is_connected}
use my_testserver.Connection.{
  Connection, message, Write, is_fault, handle_read, send, send_here, send_in_loop, send_connected,
  write_now, keep_rest, complete, mark, wait_for_room,
}
use my_testserver.Connection.Stream.{IsSound, given, send-Takes}
use my_testserver.Echo.{on_message, serve}

-- A connected connection whose input was all taken.
pub record IsReady (c : Connection) : Type 0 where
  pub sound : IsSound c
  pub valid : IsValid c.input
  pub empty : readable c.input ≡ []
  pub up : is_connected c.state ≡ true

abbrev pub received : List (Bytes × Write) → Bytes
received [] = []
received ((bytes, w) ∷ rest) = bytes ++ received rest

-- Every read finds bytes, and no send meets a broken connection.
abbrev pub Calm : List (Bytes × Write) → Type 0
Calm [] = Unit {0}
Calm ((bytes, w) ∷ rest) = (0 < length bytes) × (is_fault w ≡ false) × Calm rest

-- What `handleRead` and `onMessage` make of a connection, up to the call of `send`.
abbrev taken : Connection → Bytes → Connection
taken c bytes = record c {
  input = (retrieve_all_as_string (read_fd c.input (moved bytes))).1;
  called = c.called ++ (message ∷ []);
}

send-input : (c : Connection) (bytes : Bytes) (w : Write) → (send_here c bytes w).input ≡ c.input
unfolding send send_in_loop send_connected write_now keep_rest complete mark wait_for_room
send-input c bytes w = ground arith

on_message_lem :
    (c : Connection) (bytes : Bytes) (w : Write)
    → 0 < length bytes
    → on_message (handle_read c (moved bytes)) w
      ≡ send_here (taken c bytes) (retrieve_all_as_string (read_fd c.input (moved bytes))).0 w
unfolding on_message handle_read
on_message_lem c bytes w some_bytes =
    let found : ltb 0 (length bytes) ≡ true = ground arith in rw found refl

taken-IsSound : (c : Connection) (bytes : Bytes) → IsSound c → IsSound (taken c bytes)
taken-IsSound c bytes s = record { valid = s.valid; interest = s.interest; drained = s.drained }

-- One readable event.
record Echoes (c d : Connection) (bytes : Bytes) : Type 0 where
  ready : IsReady d
  holds : given d ≡ given c ++ bytes
  grown_output : length d.output.store ≤ length c.output.store + length bytes
  grown_input : length d.input.store ≤ length c.input.store + length bytes

on_message-Echoes :
    (c : Connection) (bytes : Bytes) (w : Write)
    → IsReady c
    → 0 < length bytes
    → length c.input.store + length bytes < 2 ^ 63
    → length c.output.store + length bytes < 2 ^ 63
    → is_fault w ≡ false
    → Echoes c (on_message (handle_read c (moved bytes)) w) bytes
on_message-Echoes c bytes w r some_bytes small_input small_output ok =
    let p : HasPut c.input (read_fd c.input (moved bytes)) bytes =
      read_fd-HasPut bytes r.valid small_input in
    let out = retrieve_all_as_string_lem (read_fd c.input (moved bytes)) p.valid in
    let same : (retrieve_all_as_string (read_fd c.input (moved bytes))).0 ≡ bytes =
      out.0 ∙ p.holds ∙ ap (λ b. b ++ bytes) r.empty in
    let t = send-Takes (taken c bytes) bytes w (taken-IsSound c bytes r.sound) small_output ok in
    let d = send_here (taken c bytes) bytes w in
    let input : d.input ≡ (taken c bytes).input = send-input (taken c bytes) bytes w in
    subst (λ d. Echoes c d bytes)
      (sym (on_message_lem c bytes w some_bytes ∙ ap (λ b. send_here (taken c bytes) b w) same))
      (record {
        ready = record {
          sound = t.0;
          valid = subst IsValid (sym input) out.2;
          empty = ap readable input ∙ out.1;
          up = ap is_connected t.1.same_state ∙ r.up;
        };
        holds = t.1.holds ∙ ap (λ b. given c ++ (if b then bytes else [])) r.up;
        grown_output = ground (arith, t.1.grown, r.up);
        grown_input = omega (arith, ap (λ b. length b.store) input, out.3, p.grown);
      })

-- Over every sequence of readable events with bytes, on a connected sound connection with no
-- input left, whatever the socket takes of each write and without a broken connection, the echo
-- server sends back exactly the bytes received, in order: what the socket took followed by what
-- waits is what it was before and the bytes received; the sizes stay below 2^63.
pub serve-echoes :
    (events : List (Bytes × Write)) {c : Connection}
    → IsReady c
    → Calm events
    → length c.input.store + length (received events) < 2 ^ 63
    → length c.output.store + length (received events) < 2 ^ 63
    → IsReady (serve c events) × (given (serve c events) ≡ given c ++ received events)
unfolding serve
serve-echoes [] {c} r calm hi ho = (r, sym (append-nil (given c)))
serve-echoes ((bytes, w) ∷ rest) {c} r (some_bytes, ok, calm) hi ho =
    let size = length-append bytes (received rest) in
    let e =
      on_message-Echoes c bytes w r some_bytes (omega (arith, size)) (omega (arith, size)) ok in
    let (ready, holds) =
      serve-echoes rest e.ready calm (omega (arith, size, e.grown_input))
        (omega (arith, size, e.grown_output)) in
    (
      ready,
      holds ∙ ap (λ g. g ++ received rest) e.holds ∙ append_assoc (given c) bytes (received rest),
    )
