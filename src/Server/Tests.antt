-- ===== src/Server/Tests.antt =====
-- Runs of ChatServer.cpp, and the theorems about it at inputs that meet their hypotheses.
use Prim.Native.Nat.{bit_and}
use my_testserver.Prelude.Keys.{number_keys}
use my_testserver.Prelude.{
  ℕ, ◌+◌, ◌^◌, ◌<◌, ◌≢◌, ◌&&◌, ◌≡◌, refl, not, true, false, none, some, List, [], ◌∷◌, ◌++◌, Bytes,
  codes, eqb, length, arith, is_empty, if◌then◌else◌,
}
use my_testserver.Prelude.Assoc.{get, has, Distinct}
use my_testserver.Platform.Toy.{toy, ann}
use my_testserver.Net.{connected, disconnected}
use my_testserver.Buffer.{Buffer, readable, readable_bytes, append}
use my_testserver.Buffer.Valid.{IsValid}
use my_testserver.Frame.{Frame, parse_frame, parsed, rejected, is_supported, unmask}
use my_testserver.Session.{get_connection}
use my_testserver.Session.Laws
use my_testserver.Service.{Service, handle_chat, broadcast_message}
use my_testserver.Server.{
  Server, state_of, done, thrown, out_of_fuel, ◌>>=◌, on_message, on_login, on_chat, on_connection,
  get_current_username,
}
use my_testserver.Server.Loop.{seen, speaks_websocket, on_message_ends}
use my_testserver.Server.Deliver.{Text, AreTexts, stream, text_wire}
use my_testserver.Protocol.{msg_type_chat, field_msg_type}
use my_testserver.Frame.Wire.{wire}
use my_testserver.Service.Chat.{passes}
use my_testserver.Session.Laws.{reached, copies}
use my_testserver.Server.Broadcast.{on_message-broadcasts}
use my_testserver.Server.Delivery.{receive-deliver}
use my_testserver.Server.Others.{messages, connects, ticks}
use my_testserver.Server.Segments.{IsCut}
use my_testserver.Server.Reads.{
  Read, Group, AreCompleted, joined, all_texts, receive, deliver_groups,
}
use my_testserver.Server.Identity.{login_then_chat, on_connection_down}
use my_testserver.Server.Crash.{on_message_untyped, on_message_stalls, on_message_unsupported}

abbrev zeros : Bytes
zeros = 0 ∷ 0 ∷ 0 ∷ 0 ∷ []

-- "ann" is online over connection 1, and connection 2 has shaken hands.
abbrev server : Server ℕ
server = record {
  service = record {
    sessions = (ann, record { conn = 1; last_heartbeat = 7 }) ∷ [];
    net = record { state = λ conn. connected; sent = [] };
    db = 0;
    users_linked = true;
    messages_linked = true;
  };
  states =
      (1, record { is_websocket = true; handshake_complete = true; username = ann })
      ∷ (2, record { is_websocket = true; handshake_complete = true; username = [] })
      ∷ [];
}

-- What the buffer holds, behind eight bytes.
abbrev holding : Bytes → Buffer
holding bytes = record {
  store = 0 ∷ 0 ∷ 0 ∷ 0 ∷ 0 ∷ 0 ∷ 0 ∷ 0 ∷ bytes;
  reader_index = 8;
  writer_index = 8 + length bytes;
}

-- The message "{}", unmasked by a key of zeros.
abbrev braces : Text
braces = record { key = zeros; body = codes "{}" }

abbrev braces_wire : Bytes
braces_wire = 0x81 ∷ 0x82 ∷ 0 ∷ 0 ∷ 0 ∷ 0 ∷ 123 ∷ 125 ∷ []

shaken : speaks_websocket server 2 ≡ true
unfolding get
shaken = refl

twice-IsValid : IsValid (holding (braces_wire ++ braces_wire))
twice-IsValid = omega arith

abbrev two_frames : Buffer
two_frames = holding (braces_wire ++ (braces_wire ++ (0x81 ∷ [])))

two-IsValid : IsValid two_frames
two-IsValid = omega arith

two-streamed : readable two_frames ≡ stream (braces ∷ braces ∷ []) ++ (0x81 ∷ [])
unfolding readable unmask
two-streamed = refl

cut-rejected : parse_frame zeros (0x81 ∷ []) ≡ rejected
unfolding parse_frame
cut-rejected = refl

two-AreTexts : AreTexts (braces ∷ braces ∷ [])
two-AreTexts = ((refl, refl, omega arith), ((refl, refl, omega arith), tt))

-- A chat message of connection 1, in the name of "ann", and the start of another frame.
abbrev chat : Text
chat = record { key = zeros; body = msg_type_chat }

abbrev chatting : Buffer
chatting = holding (0x81 ∷ 0x84 ∷ 0 ∷ 0 ∷ 0 ∷ 0 ∷ (msg_type_chat ++ (0x81 ∷ [])))

-- The two frames, cut inside the header of the first one and inside the payload of the second one,
-- and the start of a third frame. Between the reads connection 3 comes up, and "ann" says something.
abbrev cut_reads : List Read
cut_reads =
    record { meanwhile = []; time = 9; first = 0x81; others = 0x82 ∷ 0 ∷ [] }
    ∷ record {
      meanwhile = connects 3 ∷ messages 1 zeros chatting 9 ∷ ticks ∷ [];
      time = 10;
      first = 0;
      others = 0 ∷ 0 ∷ 123 ∷ 125 ∷ 0x81 ∷ 0x82 ∷ 0 ∷ 0 ∷ 0 ∷ 0 ∷ 123 ∷ [];
    }
    ∷ record { meanwhile = []; time = 11; first = 125; others = 0x81 ∷ [] }
    ∷ []

abbrev no_bytes : Buffer
no_bytes = holding []

no_bytes-IsValid : IsValid no_bytes
no_bytes-IsValid = omega arith

none-IsCut : IsCut (readable no_bytes)
unfolding readable
none-IsCut = record {
  of = braces;
  ok = two-AreTexts.0;
  count = 0;
  missing = omega arith;
  same = refl;
}

one-IsCut : IsCut (0x81 ∷ [])
one-IsCut = record {
  of = braces;
  ok = two-AreTexts.0;
  count = 1;
  missing = omega arith;
  same = refl;
}

reads-streamed :
    readable no_bytes ++ joined cut_reads ≡ stream (braces ∷ braces ∷ []) ++ (0x81 ∷ [])
unfolding readable unmask
reads-streamed = refl

receive-deliver_example :
    (groups : List Group) × (left : Buffer) × AreCompleted
      (readable no_bytes)
      cut_reads
      groups
      (0x81 ∷ [])
    × (all_texts groups ≡ braces ∷ braces ∷ [])
    × (readable left ≡ 0x81 ∷ [])
    × (receive toy 5 zeros server 2 no_bytes cut_reads
        ≡ ◌>>=◌ {B = Server ℕ × Buffer}
            (deliver_groups toy 5 server 2 groups)
            (λ s'. done (s', left)))
receive-deliver_example =
    receive-deliver toy cut_reads (braces ∷ braces ∷ []) (0x81 ∷ []) 5 zeros server 2 no_bytes
      shaken (refl, (refl, (refl, tt))) two-AreTexts no_bytes-IsValid none-IsCut one-IsCut
      reads-streamed (omega arith) (omega arith)

chatting-IsValid : IsValid chatting
chatting-IsValid = omega arith

chatting-readable : readable chatting ≡ text_wire chat ++ (0x81 ∷ [])
unfolding readable unmask
chatting-readable = refl

chatting-typed : toy.get_text msg_type_chat field_msg_type ≡ some msg_type_chat
unfolding eqb
chatting-typed = refl

shaken_too : speaks_websocket server 1 ≡ true
unfolding get
shaken_too = refl

broadcast-short :
    length (broadcast_message toy (state_of server 1).username msg_type_chat 9) < 2 ^ 64
unfolding broadcast_message
broadcast-short = omega arith

on_message-broadcasts_example :
    (service : Service ℕ) × (left : Buffer) × (on_message toy 5 zeros server 1 chatting 9
      ≡ done (record server { service = service }, left))
    × (readable left ≡ 0x81 ∷ [])
    × (service.sessions ≡ server.service.sessions)
    × (service.net ≡ (
        if passes toy server.service (state_of server 1).username msg_type_chat
        then record server.service.net {
          sent =
              server.service.net.sent
              ++ copies
                  (wire true 1 none
                    (broadcast_message toy (state_of server 1).username msg_type_chat 9))
                  (reached server.service.net.state [] server.service.sessions);
        }
        else server.service.net))
on_message-broadcasts_example =
    on_message-broadcasts toy 5 zeros server 1 chatting 9 chat (0x81 ∷ []) msg_type_chat
      msg_type_chat shaken_too (refl, refl, omega arith) chatting-IsValid chatting-readable
      one-IsCut (omega arith) refl chatting-typed refl broadcast-short

room : readable_bytes two_frames < 100
room = omega arith

on_message_ends_example : on_message toy 100 zeros server 2 two_frames 9 ≢ out_of_fuel
on_message_ends_example = on_message_ends toy 100 zeros server 2 two_frames 9 two-IsValid room

two-first : readable two_frames ≡ text_wire braces ++ (braces_wire ++ (0x81 ∷ []))
unfolding readable unmask
two-first = refl

untyped : toy.get_text (codes "{}") (codes "msgType") ≡ none
unfolding eqb
untyped = refl

on_message_untyped_example : on_message toy 5 zeros server 2 two_frames 9 ≡ thrown
on_message_untyped_example =
    on_message_untyped toy 4 zeros server 2 two_frames 9 braces (braces_wire ++ (0x81 ∷ []))
      (codes "{}") shaken two-IsValid two-AreTexts.0 two-first refl untyped

-- The first part of a message in two fragments, and a ping.
abbrev fragment : Buffer
fragment = holding (0x01 ∷ 0x81 ∷ 0 ∷ 0 ∷ 0 ∷ 0 ∷ 65 ∷ [])

abbrev ping : Buffer
ping = holding (0x89 ∷ 0x80 ∷ 0 ∷ 0 ∷ 0 ∷ 0 ∷ [])

abbrev fragment_parsed : Frame
fragment_parsed = record { message = codes "A"; frame_len = 7; opcode = 1; fin = false }

fragment-parses : parse_frame zeros (readable fragment) ≡ parsed fragment_parsed
unfolding parse_frame readable unmask
fragment-parses = refl

fragment-IsValid : IsValid fragment
fragment-IsValid = omega arith

on_message_stalls_example :
    on_message toy 5 zeros server 2 (append fragment braces_wire) 9
    ≡ done (seen server 2, append fragment braces_wire)
on_message_stalls_example =
    on_message_stalls toy 4 zeros server 2 fragment braces_wire 9 fragment_parsed shaken
      fragment-IsValid (omega arith) fragment-parses refl

ping-IsValid : IsValid ping
ping-IsValid = omega arith

ping-readable : readable ping ≡ 0x89 ∷ 0x80 ∷ 0 ∷ 0 ∷ 0 ∷ 0 ∷ []
unfolding readable
ping-readable = refl

ping-refused : is_supported (bit_and 0x89 0x0F) ≡ false
unfolding is_supported
ping-refused = refl

on_message_unsupported_example :
    on_message toy 5 zeros server 2 (append ping braces_wire) 9
    ≡ done (seen server 2, append ping braces_wire)
on_message_unsupported_example =
    on_message_unsupported toy 4 zeros server 2 ping braces_wire 9 0x89 0x80 (0 ∷ 0 ∷ 0 ∷ 0 ∷ [])
      shaken ping-IsValid (omega arith) ping-readable ping-refused

-- A login of connection 2 as "ann", who is online, and a chat message after it.
login_then_chat_example :
    (on_login toy server 2 ann 9 >>= λ s₁. on_chat toy s₁ 2 (codes "hi") 10) ≡ (
      on_login toy server 2 ann 9 >>= λ s₁.
      done (record s₁ { service = handle_chat toy s₁.service ann (codes "hi") 10 }))
login_then_chat_example =
    login_then_chat toy server 2 ann (codes "hi") ann (codes "hi") 9 10 refl refl

abbrev gone : Server ℕ
gone = record server {
  service = record server.service { net = record { state = λ conn. disconnected; sent = [] } };
}

gone-IsValid : Laws.IsValid gone.service.sessions
unfolding has
gone-IsValid = (refl, tt)

gone-Distinct : Distinct gone.states
unfolding has
gone-Distinct = (refl, (refl, tt))

on_connection_down_example :
    (get (on_connection toy gone 1).states 1 ≡ none)
    × (get_connection (on_connection toy gone 1).service.sessions ann ≡ (
        if not (is_empty (get_current_username gone 1)) && eqb (get_current_username gone 1) ann
        then none
        else get_connection gone.service.sessions ann))
on_connection_down_example = on_connection_down toy gone 1 ann refl gone-IsValid gone-Distinct
