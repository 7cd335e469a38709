-- ===== src/Connection/Waiting.antt =====
-- What happens to a connection keeps its flags those of its state and its output buffer.
use my_testserver.Prelude.{
  ◌+◌, ◌^◌, ◌<◌, ◌≤◌, ◌≡◌, refl, sym, ap, ◌∙◌, inl, inr, true, false, not, length, Bytes, arith,
}
use my_testserver.Buffer.{readable_bytes}
use my_testserver.Buffer.Valid.{IsValid}
use my_testserver.Connection.{
  Connection, Write, connect_established, connect_destroyed, handle_close, shutdown_in_loop, send,
  shutdown,
}
use my_testserver.Connection.Stream.{IsSound, is_down}
use my_testserver.Connection.Grows.{send-Grows}
use my_testserver.Connection.Steps.{handle_write-Keeps, shutdown-Keeps, handle_close-Keeps}
use my_testserver.Connection.Run.{handle_write-state}
use my_testserver.Connection.Interest.{
  Act, closes, shuts_down, destroys, writable, sends, act, load, unnoted, IsWaiting, write-methods,
  write-reading, send-reading, shutdown-methods,
}

-- A connection as the constructor leaves it, whatever callbacks the user has set since.
pub record IsNew (c : Connection) : Type 0 where
  pub valid : IsValid c.output
  pub empty : readable_bytes c.output ≡ 0
  pub deaf : c.reading ≡ false
  pub silent : c.writing ≡ false
  pub unshut : c.shut ≡ false

pub established-IsWaiting : (c : Connection) → IsNew c → IsWaiting (connect_established (unnoted c))
unfolding connect_established
established-IsWaiting c n = record {
  sound = record {
    valid = n.valid;
    interest = λ up. ground (arith, n.empty, n.silent);
    drained = λ shut. absurd (ground (arith, n.unshut));
  };
  input = refl;
  silent = λ down. absurd (ground arith);
}

unnoted-IsSound : (c : Connection) → IsSound c → IsSound (unnoted c)
unnoted-IsSound c s = record { valid = s.valid; interest = s.interest; drained = s.drained }

destroyed-IsSound : (c : Connection) → IsSound c → IsSound (act c destroys)
unfolding connect_destroyed
destroyed-IsSound c s = record {
  valid = ground (arith, s.valid);
  interest = λ up. ground (arith, s.interest);
  drained = λ shut. ground (arith, s.drained);
}

-- A writable socket and a send do not move the state.
same-input :
    (c d : Connection)
    → IsWaiting c
    → d.reading ≡ c.reading
    → d.state ≡ c.state
    → d.reading ≡ not (is_down d.state)
same-input c d v r e = r ∙ v.input ∙ ap (λ state. not (is_down state)) (sym e)

write-silent :
    (c : Connection) (w : Write) → c.writing ≡ false → (act c (writable w)).writing ≡ false
write-silent c w h = elim (write-methods c w) [ inl (m, e) ↦ e ∙ h | inr (m, e) ↦ e ]

send-silent :
    (c : Connection) (bytes : Bytes) (w : Write)
    → is_down c.state ≡ true
    → (act c (sends bytes w)).writing ≡ c.writing
unfolding send
send-silent c bytes w h = ground arith

shutdown-down : (c : Connection) → is_down (act c shuts_down).state ≡ is_down c.state
unfolding shutdown shutdown_in_loop
shutdown-down c = ground arith

pub act-IsWaiting :
    (c : Connection) (a : Act)
    → IsWaiting c
    → length c.output.store + load a < 2 ^ 63
    → IsWaiting (act c a)
unfolding handle_close connect_destroyed
act-IsWaiting c closes v h = record {
  sound = (handle_close-Keeps (unnoted c) (unnoted-IsSound c v.sound)).sound;
  input = refl;
  silent = λ down. refl;
}
act-IsWaiting c shuts_down v h =
    let s = shutdown-methods c in
    let same = shutdown-down c in
    record {
      sound = (shutdown-Keeps (unnoted c) (unnoted-IsSound c v.sound)).sound;
      input = s.1 ∙ v.input ∙ ap not (sym same);
      silent = λ down. s.2 ∙ v.silent (sym same ∙ down);
    }
act-IsWaiting c destroys v h = record {
  sound = destroyed-IsSound c v.sound;
  input = ground (arith, v.input);
  silent = λ down. ground (arith, v.silent);
}
act-IsWaiting c (writable w) v h =
    let same = handle_write-state (unnoted c) w in
    record {
      sound = (handle_write-Keeps (unnoted c) w (unnoted-IsSound c v.sound)).sound;
      input = same-input c (act c (writable w)) v (write-reading c w) same;
      silent = λ down. write-silent c w (v.silent (ap is_down (sym same) ∙ down));
    }
act-IsWaiting c (sends bytes w) v h =
    let g = send-Grows (unnoted c) bytes w (unnoted-IsSound c v.sound) h in
    record {
      sound = g.sound;
      input = same-input c (act c (sends bytes w)) v (send-reading c bytes w) g.same_state;
      silent = λ down.
          let was = ap is_down (sym g.same_state) ∙ down in
          send-silent c bytes w was ∙ v.silent was;
    }

pub act-grown :
    (c : Connection) (a : Act)
    → IsWaiting c
    → length c.output.store + load a < 2 ^ 63
    → length (act c a).output.store ≤ length c.output.store + load a
unfolding handle_close connect_destroyed
act-grown c closes v h = omega arith
act-grown c shuts_down v h =
    omega (arith, (shutdown-Keeps (unnoted c) (unnoted-IsSound c v.sound)).same_size)
act-grown c destroys v h = ground arith
act-grown c (writable w) v h =
    omega (arith, (handle_write-Keeps (unnoted c) w (unnoted-IsSound c v.sound)).same_size)
act-grown c (sends bytes w) v h =
    (send-Grows (unnoted c) bytes w (unnoted-IsSound c v.sound) h).grown
