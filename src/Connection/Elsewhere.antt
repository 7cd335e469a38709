-- ===== src/Connection/Elsewhere.antt =====
-- TcpConnection::send from a thread other than the connection's: the queued call holds the address of
-- the caller's bytes, and reads them when the loop runs it.
use my_testserver.Prelude.{
  ℕ, ◌+◌, ◌^◌, ◌<◌, ◌≡◌, sym, ap, ◌∙◌, true, false, length-take, [], ◌++◌, length, take, Bytes,
  if◌then◌else◌, arith,
}
use my_testserver.Net.{is_connected}
use my_testserver.Connection.{
  Connection, Write, is_fault, deferred_send, enqueue, send, send_here, send_in_loop,
}
use my_testserver.Connection.Stream.{IsSound, given, send-Takes}

-- The queued call, in a memory that maps addresses to the bytes from there on.
unfoldable pub run_deferred : (ℕ → Bytes) → Connection → ℕ → ℕ → Write → Connection
run_deferred memory c address len w = send_in_loop c (take len (memory address)) w

connected_send :
    (c : Connection) (bytes : Bytes) (w : Write)
    → is_connected c.state ≡ true
    → send_here c bytes w ≡ send_in_loop c bytes w
unfolding send
connected_send c bytes w up = ap (λ b. if b then send_in_loop c bytes w else c) up

queued_send :
    (c : Connection) (address : ℕ) (buf : Bytes) (w : Write)
    → is_connected c.state ≡ true
    → send false c address buf w ≡ enqueue c (deferred_send address (length buf))
unfolding send
queued_send c address buf w up =
    ap (λ b. if b then enqueue c (deferred_send address (length buf)) else c) up

-- A send from another thread than that of the connection only queues a call; the call puts on
-- the wire, or into the output buffer, not the bytes of the string but as many bytes as it had
-- from its address at the time when the loop runs the call; the connection is connected at both
-- times, and then sound and not broken.
pub run_deferred_reads :
    (memory : ℕ → Bytes) (before c : Connection) (address : ℕ) (buf : Bytes) (now w : Write)
    → is_connected before.state ≡ true
    → IsSound c
    → is_connected c.state ≡ true
    → length c.output.store + length buf < 2 ^ 63
    → is_fault w ≡ false
    → (send false before address buf now ≡ enqueue before (deferred_send address (length buf)))
      × (given (run_deferred memory c address (length buf) w)
          ≡ given c ++ take (length buf) (memory address))
unfolding run_deferred
run_deferred_reads memory before c address buf now w open_before s up h ok =
    let bytes = take (length buf) (memory address) in
    let short : length c.output.store + length bytes < 2 ^ 63 =
      omega (arith, length-take (length buf) (memory address)) in
    (
      queued_send before address buf now open_before,
      ap given (sym (connected_send c bytes w up))
          ∙ (send-Takes c bytes w s short ok).1.holds
          ∙ ap (λ b. given c ++ (if b then bytes else [])) up,
    )
