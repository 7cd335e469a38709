-- ===== src/Channel/Closing.antt =====
-- Which events of its channel close a connection, and how often.
use Prim.Native.Nat.{bit_and, bit_or}
use my_testserver.Prelude.{
  ℕ, suc, ◌+◌, ◌≡◌, refl, sym, ap, subst, ◌∙◌, inl, inr, Bool, true, false, not, ◌&&◌, ◌||◌, some,
  List, [], ◌∷◌, ◌++◌, ltb, length, arith, Bool-cases,
}
use my_testserver.Prelude.Bits.{bit_and_one, bit_and_two, bit_and_three}
use my_testserver.Buffer.{read_fd, Io, failed, moved}
use my_testserver.Net.{disconnected}
use my_testserver.Connection.{
  Connection, Callback, connection, message, close, write_complete, high_water_mark, deferred_send,
  Write, handle_close, handle_read, handle_write, flushed, complete, shutdown_in_loop,
}
use my_testserver.Channel.{
  Channel, call_if, any_bit, epollin, epollpri, epollout, epollerr, epollhup, handle_event,
  handle_event_with_guard,
}
use my_testserver.Channel.Events.{connection_callbacks}

-- How often the close callback was called.
abbrev pub closes : List Callback → ℕ
closes [] = 0
closes (close ∷ calls) = closes calls + 1
closes (connection ∷ calls) = closes calls
closes (message ∷ calls) = closes calls
closes (write_complete ∷ calls) = closes calls
closes (high_water_mark n ∷ calls) = closes calls
closes (deferred_send address len ∷ calls) = closes calls

closes-append : (xs ys : List Callback) → closes (xs ++ ys) ≡ closes xs + closes ys
closes-append [] ys = omega arith
closes-append (close ∷ xs) ys = omega (arith, closes-append xs ys)
closes-append (connection ∷ xs) ys = closes-append xs ys
closes-append (message ∷ xs) ys = closes-append xs ys
closes-append (write_complete ∷ xs) ys = closes-append xs ys
closes-append (high_water_mark n ∷ xs) ys = closes-append xs ys
closes-append (deferred_send address len ∷ xs) ys = closes-append xs ys

-- Nothing is closed between `c` and `d`.
abbrev pub Stays : Connection → Connection → Type 0
Stays c d = closes d.called ≡ closes c.called

-- `c` is closed once, and `d` is what it becomes.
pub record Closed (c d : Connection) : Type 0 where
  pub once : closes d.called ≡ closes c.called + 1
  pub down : d.state ≡ disconnected
  pub silent : d.writing ≡ false
  pub same_wire : d.wire ≡ c.wire

handle_close-Closed : (c : Connection) → Closed c (handle_close c)
unfolding handle_close
handle_close-Closed c = record {
  once = omega (
    arith,
    closes-append (c.called ++ (connection ∷ [])) (close ∷ []),
    closes-append c.called (connection ∷ []),
  );
  down = refl;
  silent = refl;
  same_wire = refl;
}

abbrev pub Outcome : Bool → Connection → Connection → Type 0
Outcome true c d = Closed c d
Outcome false c d = Stays c d

positive : (n : ℕ) → ltb 0 (suc n) ≡ true
positive n = ground arith

-- The peer has ended: `read` returns 0.
abbrev pub at_end : Io → Bool
at_end (failed e) = false
at_end (moved []) = true
at_end (moved (x ∷ bytes)) = false

handle_read-Outcome : (c : Connection) (io : Io) → Outcome (at_end io) c (handle_read c io)
unfolding handle_read
handle_read-Outcome c (failed e) = refl
handle_read-Outcome c (moved []) =
    let d = handle_close-Closed (record c { input = read_fd c.input (moved []) }) in
    record { once = d.once; down = d.down; silent = d.silent; same_wire = d.same_wire }
handle_read-Outcome c (moved (x ∷ bytes)) =
    rw (positive (length bytes)) (closes-append c.called (message ∷ []) ∙ omega arith)

handle_write-called : (c : Connection) (w : Write) → (handle_write c w).called ≡ c.called
unfolding handle_write flushed complete shutdown_in_loop
handle_write-called c w = ground arith

handle_write-idle : (c : Connection) (w : Write) → c.writing ≡ false → handle_write c w ≡ c
unfolding handle_write
handle_write-idle c w idle = rw idle refl

-- A writable socket behind what was read.
write-Outcome :
    (b closed : Bool) (w : Write) (c d : Connection)
    → Outcome closed c d
    → Outcome closed c (call_if b (some (λ d. handle_write d w)) d)
write-Outcome false closed w c d h = h
write-Outcome true false w c d same = ap closes (handle_write-called d w) ∙ same
write-Outcome true true w c d h = subst (Closed c) (sym (handle_write-idle d w h.silent)) h

error_only_logs : (b : Bool) (c : Connection) → call_if b (some (λ d. d)) c ≡ c
error_only_logs false c = refl
error_only_logs true c = refl

abbrev pub hung_up : ℕ → Bool
hung_up revents = any_bit (bit_and revents epollhup) && not (any_bit (bit_and revents epollin))

no_read :
    (revents : ℕ)
    → bit_and revents epollpri ≡ 0
    → hung_up revents ≡ true
    → any_bit (bit_and revents (bit_or epollin epollpri)) ≡ false
no_read revents calm e =
    ground (arith, bit_and_one revents, bit_and_two revents, bit_and_three revents)

read-Outcome :
    (b : Bool) (io : Io) (c : Connection)
    → Outcome (b && at_end io) c (call_if b (some (λ d. handle_read d io)) c)
read-Outcome false io c = refl
read-Outcome true io c = handle_read-Outcome c io

abbrev pub to_read : ℕ → Bool
to_read revents = any_bit (bit_and revents (bit_or epollin epollpri))

guard-Outcome :
    (revents : ℕ) (io : Io) (w : Write) (c : Connection)
    → bit_and revents epollpri ≡ 0
    → Outcome
        (hung_up revents || (to_read revents && at_end io))
        c
        (handle_event_with_guard revents (connection_callbacks io w) c)
unfolding handle_event_with_guard
guard-Outcome revents io w c calm = elim (Bool-cases (hung_up revents)) [
  | inl e ↦
      rw
        (
          e,
          no_read revents calm e,
          error_only_logs (any_bit (bit_and revents epollerr)) (handle_close c),
        )
        (write-Outcome (any_bit (bit_and revents epollout)) true w c (handle_close c)
          (handle_close-Closed c))
  | inr e ↦
      rw (e, error_only_logs (any_bit (bit_and revents epollerr)) c)
        (write-Outcome (any_bit (bit_and revents epollout)) (to_read revents && at_end io) w c _
          (read-Outcome (to_read revents) io c))
]

-- When an event closes its connection: the owner is there, and the peer hung up with nothing to
-- read, or a read finds the end.
abbrev pub closing : Channel → Bool → Io → Bool
closing channel alive io =
    (not channel.tied || alive)
    && (hung_up channel.revents || (to_read channel.revents && at_end io))

-- An event without EPOLLPRI closes its connection, exactly once and with no byte written, if the
-- owner is alive or was not tied and either the peer hung up with nothing to read or a read
-- finds the end; any other such event does not call the close callback.
pub handle_event_closes :
    (channel : Channel) (alive : Bool) (io : Io) (w : Write) (c : Connection)
    → bit_and channel.revents epollpri ≡ 0
    → Outcome
        (closing channel alive io)
        c
        (handle_event channel alive (connection_callbacks io w) c)
unfolding handle_event
handle_event_closes channel alive io w c calm = elim (Bool-cases channel.tied) [
  | inl t ↦ elim (Bool-cases alive) [
    | inl a ↦ rw (t, a) (guard-Outcome channel.revents io w c calm)
    | inr a ↦ rw (t, a) refl
  ]
  | inr t ↦ rw t (guard-Outcome channel.revents io w c calm)
]
