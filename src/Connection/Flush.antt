-- ===== src/Connection/Flush.antt =====
-- TcpConnection::handleWrite: from the output buffer to the socket.
use my_testserver.Prelude.{
  ℕ, ◌≤◌, ◌≡◌, sym, ap, subst, ◌∙◌, true, false, ◌++◌, take, arith, append_assoc, take-append-drop,
}
use my_testserver.Buffer.{readable, readable_bytes, retrieve}
use my_testserver.Buffer.Valid.{IsValid}
use my_testserver.Buffer.Contents.{readable-retrieve}
use my_testserver.Net.{is_connected}
use my_testserver.Connection.{Connection, Write, wrote, shutdown_in_loop, complete, flushed}
use my_testserver.Connection.Stream.{IsSound, given}

-- `handleWrite` moves bytes from the buffer to the socket.
pub taken_moves :
    (c : Connection) (n : ℕ)
    → IsValid c.output
    → n ≤ readable_bytes c.output
    → (c.wire ++ take n (readable c.output)) ++ readable (retrieve c.output n) ≡ given c
taken_moves c n v h =
    append_assoc c.wire (take n (readable c.output)) (readable (retrieve c.output n))
    ∙ ap (λ r. c.wire ++ (take n (readable c.output) ++ r)) (readable-retrieve c.output n v)
    ∙ ap (λ r. c.wire ++ r) (take-append-drop n (readable c.output))

pub flushed-fields :
    (c : Connection)
    → ((flushed c).wire ≡ c.wire) × ((flushed c).output ≡ c.output) × ((flushed c).state ≡ c.state)
unfolding flushed shutdown_in_loop complete
flushed-fields c = ground arith

pub flushed-IsSound :
    (c : Connection)
    → IsValid c.output
    → c.writing ≡ true
    → (c.shut ≡ true → (readable_bytes c.output ≡ 0) × (is_connected c.state ≡ false))
    → IsSound (flushed c)
unfolding flushed shutdown_in_loop complete
flushed-IsSound c v w d = record {
  valid = subst IsValid (sym (flushed-fields c).1) v;
  interest = λ up. ground arith;
  drained = λ shut. ground arith;
}

pub wrote_le : (w : Write) (len : ℕ) → wrote w len ≤ len
wrote_le w len = ground arith
