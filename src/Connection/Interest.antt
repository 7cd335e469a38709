-- ===== src/Connection/Interest.antt =====
-- What a connection waits for, and what the methods of its channel that it calls make of the events of
-- the channel.
use my_testserver.Prelude.{
  ℕ, ◌+◌, ◌≡◌, refl, sym, ap, ap₂, ◌∙◌, inl, inr, ◌⊎◌, Bool, true, false, not, ◌&&◌, List, [], ◌∷◌,
  length, Bytes, ◌==◌, arith,
}
use my_testserver.Buffer.{readable_bytes}
use my_testserver.Connection.{
  Connection, Method, reads_on, writes_on, writes_off, all_off, removed, Write, connect_destroyed,
  handle_close, handle_write, send, send_here, shutdown, send_in_loop, send_connected, write_now,
  keep_rest, complete, mark, wait_for_room, flushed, shutdown_in_loop,
}
use my_testserver.Connection.Stream.{IsSound, is_down}
use my_testserver.Channel.{with_reading, with_writing, without_writing, none_event}

-- What happens to an established connection.
pub data Act : Type 0 where
  closes shuts_down destroys : Act
  writable : Write → Act
  sends : Bytes → Write → Act

-- The methods that it calls are noted from none on.
abbrev pub unnoted : Connection → Connection
unnoted c = record c { methods = [] }

abbrev pub act : Connection → Act → Connection
act c closes = handle_close (unnoted c)
act c shuts_down = shutdown (unnoted c)
act c destroys = connect_destroyed (unnoted c)
act c (writable w) = handle_write (unnoted c) w
act c (sends bytes w) = send_here (unnoted c) bytes w

abbrev pub act_all : Connection → List Act → Connection
act_all c [] = c
act_all c (a ∷ acts) = act_all (act c a) acts

abbrev pub load : Act → ℕ
load closes = 0
load shuts_down = 0
load destroys = 0
load (writable w) = 0
load (sends bytes w) = length bytes

abbrev pub load_all : List Act → ℕ
load_all [] = 0
load_all (a ∷ acts) = load a + load_all acts

-- The events that go with an interest in input and in room.
abbrev pub events_for : Bool → Bool → ℕ
events_for false false = 0
events_for true false = 3
events_for false true = 4
events_for true true = 7

-- A connection that is up waits for input, and for room while its output buffer holds bytes.
abbrev pub awaited : Connection → ℕ
awaited c =
    events_for (not (is_down c.state)) (not (is_down c.state) && not (readable_bytes c.output == 0))

-- What a method does to the events of the channel.
abbrev pub change : Method → ℕ → ℕ
change reads_on = with_reading
change writes_on = with_writing
change writes_off = without_writing
change all_off = λ events. none_event
change removed = λ events. events

abbrev pub change_all : List Method → ℕ → ℕ
change_all [] events = events
change_all (m ∷ ms) events = change_all ms (change m events)

-- The flags of the connection are those of its state and its buffer.
pub record IsWaiting (c : Connection) : Type 0 where
  pub sound : IsSound c
  pub input : c.reading ≡ not (is_down c.state)
  pub silent : is_down c.state ≡ true → c.writing ≡ false

-- The events that the flags stand for.
abbrev pub flagged : Connection → ℕ
flagged c = events_for c.reading c.writing

pub flagged-awaited : (c : Connection) → IsWaiting c → flagged c ≡ awaited c
flagged-awaited c v = ap₂ events_for v.input (ground (arith, v.silent, v.sound.interest))

enabled_writing : (r w : Bool) → with_writing (events_for r w) ≡ events_for r true
enabled_writing false false = refl
enabled_writing true false = refl
enabled_writing false true = refl
enabled_writing true true = refl

disabled_writing : (r w : Bool) → without_writing (events_for r w) ≡ events_for r false
disabled_writing false false = refl
disabled_writing true false = refl
disabled_writing false true = refl
disabled_writing true true = refl

-- An act that calls no method, enableWriting, or disableWriting.
none-changed :
    (c d : Connection)
    → d.methods ≡ []
    → d.reading ≡ c.reading
    → d.writing ≡ c.writing
    → change_all d.methods (flagged c) ≡ flagged d
none-changed c d m r w = ap (λ ms. change_all ms (flagged c)) m ∙ sym (ap₂ events_for r w)

on-changed :
    (c d : Connection)
    → d.methods ≡ writes_on ∷ []
    → d.reading ≡ c.reading
    → d.writing ≡ true
    → change_all d.methods (flagged c) ≡ flagged d
on-changed c d m r w =
    ap (λ ms. change_all ms (flagged c)) m
    ∙ enabled_writing c.reading c.writing
    ∙ sym (ap₂ events_for r w)

off-changed :
    (c d : Connection)
    → d.methods ≡ writes_off ∷ []
    → d.reading ≡ c.reading
    → d.writing ≡ false
    → change_all d.methods (flagged c) ≡ flagged d
off-changed c d m r w =
    ap (λ ms. change_all ms (flagged c)) m
    ∙ disabled_writing c.reading c.writing
    ∙ sym (ap₂ events_for r w)

pub write-methods :
    (c : Connection) (w : Write)
    → (((act c (writable w)).methods ≡ []) × ((act c (writable w)).writing ≡ c.writing))
      ⊎ (((act c (writable w)).methods ≡ writes_off ∷ []) × ((act c (writable w)).writing ≡ false))
unfolding handle_write flushed complete shutdown_in_loop
write-methods c w = ground arith

pub write-reading : (c : Connection) (w : Write) → (act c (writable w)).reading ≡ c.reading
unfolding handle_write flushed complete shutdown_in_loop
write-reading c w = ground arith

pub send-methods :
    (c : Connection) (bytes : Bytes) (w : Write)
    → (((act c (sends bytes w)).methods ≡ []) × ((act c (sends bytes w)).writing ≡ c.writing))
      ⊎ (((act c (sends bytes w)).methods ≡ writes_on ∷ [])
          × ((act c (sends bytes w)).writing ≡ true))
unfolding send send_in_loop send_connected write_now keep_rest complete mark wait_for_room
send-methods c bytes w = ground arith

pub send-reading :
    (c : Connection) (bytes : Bytes) (w : Write) → (act c (sends bytes w)).reading ≡ c.reading
unfolding send send_in_loop send_connected write_now keep_rest complete mark wait_for_room
send-reading c bytes w = ground arith

pub shutdown-methods :
    (c : Connection)
    → ((act c shuts_down).methods ≡ [])
      × ((act c shuts_down).reading ≡ c.reading)
      × ((act c shuts_down).writing ≡ c.writing)
unfolding shutdown shutdown_in_loop
shutdown-methods c = (ground arith, ground arith, ground arith)

destroy-changed :
    (c : Connection) → change_all (act c destroys).methods (flagged c) ≡ flagged (act c destroys)
unfolding connect_destroyed
destroy-changed c = ground arith

pub act-changed :
    (c : Connection) (a : Act) → change_all (act c a).methods (flagged c) ≡ flagged (act c a)
unfolding handle_close
act-changed c closes = refl
act-changed c shuts_down =
    let s = shutdown-methods c in none-changed c (act c shuts_down) s.0 s.1 s.2
act-changed c destroys = destroy-changed c
act-changed c (writable w) = elim (write-methods c w) [
  | inl (m, e) ↦ none-changed c (act c (writable w)) m (write-reading c w) e
  | inr (m, e) ↦ off-changed c (act c (writable w)) m (write-reading c w) e
]
act-changed c (sends bytes w) = elim (send-methods c bytes w) [
  | inl (m, e) ↦ none-changed c (act c (sends bytes w)) m (send-reading c bytes w) e
  | inr (m, e) ↦ on-changed c (act c (sends bytes w)) m (send-reading c bytes w) e
]
