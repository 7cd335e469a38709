-- ===== src/Channel/Events.antt =====
-- Channel::handleEventWithGuard on the channel of a TcpConnection, with the callbacks that the
-- constructor of TcpConnection sets.
use Prim.Native.Nat.{bit_and, bit_or}
use my_testserver.Prelude.{ℕ, inl, inr, Bool, true, false, not, ◌&&◌, some, Bool-cases}
use my_testserver.Buffer.{Io}
use my_testserver.Connection.{Connection, Write, handle_close, handle_read, handle_write}
use my_testserver.Connection.Stream.{IsSound}
use my_testserver.Connection.Steps.{
  Keeps, Keeps-trans, Keeps-refl, handle_close-Keeps, handle_read-Keeps, handle_write-Keeps,
}
use my_testserver.Channel.{
  Channel, Callbacks, no_callbacks, set_read_callback, set_write_callback, set_close_callback,
  set_error_callback, call_if, any_bit, epollin, epollpri, epollout, epollerr, epollhup,
  handle_event, handle_event_with_guard,
}

-- What the constructor of a connection sets; `handleError` only logs. What the socket does comes as
-- `io` and `w`.
abbrev pub connection_callbacks : Io → Write → Callbacks Connection
connection_callbacks io w =
    let on₁ = set_read_callback no_callbacks (λ c. handle_read c io) in
    let on₂ = set_write_callback on₁ (λ c. handle_write c w) in
    let on₃ = set_close_callback on₂ handle_close in set_error_callback on₃ (λ c. c)

call_if-Keeps :
    (b : Bool) (callback : Connection → Connection) (c : Connection)
    → IsSound c
    → ((d : Connection) → IsSound d → Keeps d (callback d))
    → Keeps c (call_if b (some callback) c)
call_if-Keeps false callback c s k = Keeps-refl s
call_if-Keeps true callback c s k = k c s

guard-Keeps :
    (revents : ℕ) (io : Io) (w : Write) (c : Connection)
    → IsSound c
    → Keeps c (handle_event_with_guard revents (connection_callbacks io w) c)
unfolding handle_event_with_guard
guard-Keeps revents io w c s =
    let k₁ =
      call_if-Keeps (any_bit (bit_and revents epollhup) && not (any_bit (bit_and revents epollin)))
        handle_close c s (λ d. handle_close-Keeps d) in
    let k₂ = Keeps-trans k₁ (
      call_if-Keeps (any_bit (bit_and revents epollerr)) (λ d. d) _ k₁.sound
        (λ d t. Keeps-refl t)) in
    let k₃ = Keeps-trans k₂ (
      call_if-Keeps (any_bit (bit_and revents (bit_or epollin epollpri))) (λ d. handle_read d io) _
        k₂.sound (λ d. handle_read-Keeps d io)) in
    Keeps-trans k₃ (
      call_if-Keeps (any_bit (bit_and revents epollout)) (λ d. handle_write d w) _ k₃.sound
        (λ d. handle_write-Keeps d w))

-- Whatever events a channel receives, handling them with the callbacks of its connection keeps
-- the connection sound, and keeps the bytes on the wire followed by those that wait the same as
-- before.
handle_event-Keeps :
    (channel : Channel) (alive : Bool) (io : Io) (w : Write) (c : Connection)
    → IsSound c
    → Keeps c (handle_event channel alive (connection_callbacks io w) c)
unfolding handle_event
handle_event-Keeps channel alive io w c s = elim (Bool-cases channel.tied) [
  | inl t ↦ elim (Bool-cases alive) [
    | inl a ↦ rw (t, a) (guard-Keeps channel.revents io w c s)
    | inr a ↦ rw (t, a) (Keeps-refl s)
  ]
  | inr t ↦ rw t (guard-Keeps channel.revents io w c s)
]
