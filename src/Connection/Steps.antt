-- ===== src/Connection/Steps.antt =====
-- TcpConnection::handleWrite, shutdown and handleClose, as steps of one connection.
use my_testserver.Prelude.{
  ℕ, ◌≡◌, refl, sym, ap, ap₂, subst, ◌∙◌, inl, inr, ◌⊎◌, true, List, [], ◌∷◌, ◌++◌, ltb, Bool-cases,
  length, take, arith,
}
use my_testserver.Buffer.{
  Buffer, Io, failed, moved, readable, readable_bytes, retrieve, retrieve_all, read_fd,
}
use my_testserver.Buffer.Valid.{retrieve-IsValid, length-retrieve}
use my_testserver.Connection.{
  Connection, Callback, message, Write, wrote, handle_close, shutdown_in_loop, flushed, handle_read,
  handle_write, shutdown,
}
use my_testserver.Connection.Stream.{IsSound, given}
use my_testserver.Connection.Flush.{taken_moves, flushed-fields, flushed-IsSound, wrote_le}

-- `d` is sound and holds what `c` holds.
pub record Keeps (c d : Connection) : Type 0 where
  pub sound : IsSound d
  pub holds : given d ≡ given c
  pub same_size : length d.output.store ≡ length c.output.store

pub Keeps-trans : {c d e : Connection} → Keeps c d → Keeps d e → Keeps c e
Keeps-trans p q = record {
  sound = q.sound;
  holds = q.holds ∙ p.holds;
  same_size = q.same_size ∙ p.same_size;
}

pub Keeps-refl : {c : Connection} → IsSound c → Keeps c c
Keeps-refl s = record { sound = s; holds = refl; same_size = refl }

abbrev written : Connection → ℕ → Connection
written c n = record c { wire = c.wire ++ take n (readable c.output); output = retrieve c.output n }

empty_stays : (b : Buffer) (n : ℕ) → readable_bytes b ≡ 0 → readable_bytes (retrieve b n) ≡ 0
unfolding retrieve retrieve_all
empty_stays b n h = ground arith

flushed-Keeps :
    (c : Connection) (w : Write)
    → IsSound c
    → c.writing ≡ true
    → Keeps c (flushed (written c (wrote w (readable_bytes c.output))))
flushed-Keeps c w s busy = record {
  sound =
      flushed-IsSound (written c n) (retrieve-IsValid n s.valid) busy
        λ shut. let (none_left, down) = s.drained shut in (empty_stays c.output n none_left, down);
  holds =
      ap₂ (λ a b. a ++ readable b) f.0 f.1
      ∙ taken_moves c n s.valid (wrote_le w (readable_bytes c.output));
  same_size = ap (λ b. length b.store) f.1 ∙ length-retrieve c.output n;
}
  where
    n : ℕ
    n = wrote w (readable_bytes c.output)

    f :
        ((flushed (written c n)).wire ≡ (written c n).wire)
        × ((flushed (written c n)).output ≡ (written c n).output)
        × ((flushed (written c n)).state ≡ c.state)
    f = flushed-fields (written c n)

handle_write-cases :
    (c : Connection) (w : Write)
    → (handle_write c w ≡ c)
      ⊎ ((c.writing ≡ true)
          × (handle_write c w ≡ flushed (written c (wrote w (readable_bytes c.output)))))
unfolding handle_write
handle_write-cases c w = ground arith

pub handle_write-Keeps : (c : Connection) (w : Write) → IsSound c → Keeps c (handle_write c w)
handle_write-Keeps c w s = elim (handle_write-cases c w) [
  | inl e ↦ subst (Keeps c) (sym e) (record { sound = s; holds = refl; same_size = refl })
  | inr (busy, e) ↦ subst (Keeps c) (sym e) (flushed-Keeps c w s busy)
]

pub shutdown-Keeps : (c : Connection) → IsSound c → Keeps c (shutdown c)
unfolding shutdown shutdown_in_loop
shutdown-Keeps c s = record {
  sound = record {
    valid = ground (arith, s.valid);
    interest = λ up. ground (arith, s.interest);
    drained = λ shut. ground (arith, s.interest, s.drained);
  };
  holds = ground arith;
  same_size = ground arith;
}

pub handle_close-Keeps : (c : Connection) → IsSound c → Keeps c (handle_close c)
unfolding handle_close
handle_close-Keeps c s = record {
  sound = record {
    valid = s.valid;
    interest = λ up. absurd (ground arith);
    drained = λ shut. ((s.drained shut).0, refl);
  };
  holds = refl;
  same_size = refl;
}

-- The input and the calls do not matter.
input-Keeps :
    (c : Connection) (b : Buffer) (calls : List Callback)
    → IsSound c
    → Keeps c (record c { input = b; called = calls })
input-Keeps c b calls s = record {
  sound = record { valid = s.valid; interest = s.interest; drained = s.drained };
  holds = refl;
  same_size = refl;
}

pub handle_read-Keeps : (c : Connection) (io : Io) → IsSound c → Keeps c (handle_read c io)
unfolding handle_read
handle_read-Keeps c (failed e) s = input-Keeps c (read_fd c.input (failed e)) c.called s
handle_read-Keeps c (moved bytes) s =
    let b = read_fd c.input (moved bytes) in
    elim (Bool-cases (ltb 0 (length bytes))) [
      | inl e ↦ rw e (input-Keeps c b (c.called ++ (message ∷ [])) s)
      | inr e ↦ rw e (
          Keeps-trans (input-Keeps c b c.called s)
            (handle_close-Keeps (record c { input = b }) (input-Keeps c b c.called s).sound))
    ]
