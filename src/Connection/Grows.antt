-- ===== src/Connection/Grows.antt =====
-- TcpConnection::send on every connection, a broken one too: what it keeps.
use my_testserver.Prelude.{
  ℕ, ◌+◌, ◌^◌, ◌<◌, ◌≤◌, ◌≡◌, refl, sym, ◌∙◌, inl, inr, true, not, ◌&&◌, length, Bytes, ◌==◌, arith,
  Bool-cases, length-take,
}
use my_testserver.Buffer.{readable_bytes}
use my_testserver.Net.{is_connected}
use my_testserver.Connection.{Connection, Write, wrote, is_fault, send_connected, send, send_here}
use my_testserver.Connection.Stream.{
  IsSound, Takes, Interested, keep_rest-Takes, write_now-Takes, send_connected-Takes,
  keep_rest-Interested, write_now-Interested, send_connected-Interested, send_in_loop-up,
}

-- `d` is sound, in the state of `c`, and its output buffer has grown by `n` bytes at most.
pub record Grows (c d : Connection) (n : ℕ) : Type 0 where
  pub sound : IsSound d
  pub same_state : d.state ≡ c.state
  pub grown : length d.output.store ≤ length c.output.store + n

Takes-Grows :
    {c d : Connection} {taken : Bytes} (n : ℕ)
    → IsSound c
    → Takes c d taken
    → is_connected c.state ≡ true
    → length taken ≤ n
    → Interested d
    → Grows c d n
Takes-Grows n s t up short i = record {
  sound = record {
    valid = t.valid;
    interest = λ d. i;
    drained = λ shut. absurd (ground (arith, s.drained (sym t.same_shut ∙ shut)));
  };
  same_state = t.same_state;
  grown = omega (arith, t.grown);
}

-- A send on a connection that may be broken: its bytes may be lost.
fault-Grows :
    (c : Connection) (bytes : Bytes) (w : Write)
    → IsSound c
    → length c.output.store + length bytes < 2 ^ 63
    → is_connected c.state ≡ true
    → is_fault w ≡ true
    → Interested c
    → Grows c (send_connected c bytes w) (length bytes)
unfolding send_connected
fault-Grows c bytes w s h up f i =
    elim (Bool-cases (not c.writing && readable_bytes c.output == 0)) [
      | inl e ↦
          rw (e, f)
            (Takes-Grows (length bytes) s (write_now-Takes c bytes w s.valid (ground arith)) up
              (omega (arith, length-take (wrote w (length bytes)) bytes))
              (write_now-Interested c bytes w i))
      | inr e ↦ rw e (
          Takes-Grows (length bytes) s (keep_rest-Takes c bytes s.valid h) up (omega arith)
            (keep_rest-Interested c bytes s.valid h i))
    ]

pub send-Grows :
    (c : Connection) (bytes : Bytes) (w : Write)
    → IsSound c
    → length c.output.store + length bytes < 2 ^ 63
    → Grows c (send_here c bytes w) (length bytes)
unfolding send
send-Grows c bytes w s h = elim (Bool-cases (is_connected c.state)) [
  | inl up ↦
      let (same, not_down) = send_in_loop-up c bytes w up in
      let i = s.interest not_down in
      elim (Bool-cases (is_fault w)) [
        | inl f ↦ rw (up, same) (fault-Grows c bytes w s h up f i)
        | inr ok ↦
            rw (up, same)
              (Takes-Grows (length bytes) s (send_connected-Takes c bytes w s.valid h ok) up
                (omega arith) (send_connected-Interested c bytes w s.valid h i))
      ]
  | inr down ↦ rw down (record { sound = s; same_state = refl; grown = omega arith })
]
