-- ===== src/Server/Broadcast.antt =====
-- A chat message on its way: `ChatServer::onMessage`, `handleWebSocketMessage` and
-- `ChatService::handleChat`, down to the frames that the users get.
use my_testserver.Prelude.{
  ℕ, ◌^◌, ◌<◌, ◌≡◌, refl, sym, ap, ◌∙◌, true, some, none, [], ◌∷◌, ◌++◌, length, Bytes, eqb, arith,
  append-nil, if◌then◌else◌,
}
use my_testserver.Platform.{Platform}
use my_testserver.Buffer.{Buffer, readable}
use my_testserver.Buffer.Valid.{IsValid}
use my_testserver.Frame.Wire.{wire}
use my_testserver.Protocol.{msg_type_chat, field_msg_type, field_content}
use my_testserver.Session.Laws.{reached, copies}
use my_testserver.Service.{Service, handle_chat, broadcast_message}
use my_testserver.Service.Chat.{passes, handle_chat-net, handle_chat-sessions}
use my_testserver.Server.{
  Server, done, ◌>>=◌, state_of, dispatch, handle_parsed, handle_websocket_message, on_chat,
  on_message,
}
use my_testserver.Server.Loop.{speaks_websocket}
use my_testserver.Server.Keeps.{seen_same}
use my_testserver.Server.Segments.{IsCut, cut-rejected}
use my_testserver.Server.Deliver.{Text, IsText, text_wire, behind, deliver, on_message-deliver}

module _ (platform : Platform) where
  open platform use {Db, Json, parse, get_text, value_text}

  -- The server behind a chat message.
  abbrev chatted : Server Db → ℕ → Bytes → ℕ → Server Db
  chatted s conn content now = record s {
    service = handle_chat platform s.service (state_of s conn).username content now;
  }

  dispatch_chat :
      (s : Server Db) (conn : ℕ) (j : Json) (content : Bytes) (now : ℕ)
      → value_text j field_content ≡ some content
      → dispatch platform s conn j msg_type_chat now ≡ done (chatted s conn content now)
  unfolding dispatch eqb on_chat
  dispatch_chat s conn j content now h = rw h refl

  handler_chat :
      (s : Server Db) (conn : ℕ) (message : Bytes) (j : Json) (content : Bytes) (now : ℕ)
      → speaks_websocket s conn ≡ true
      → parse message ≡ some j
      → get_text j field_msg_type ≡ some msg_type_chat
      → value_text j field_content ≡ some content
      → handle_websocket_message platform s conn message now ≡ done (chatted s conn content now)
  unfolding handle_websocket_message handle_parsed
  handler_chat s conn message j content now open_ p m c =
      ap (λ t. handle_parsed platform t conn (parse message) now) (seen_same s conn open_)
      ∙ rw (p, m) (dispatch_chat s conn j content now c)

  -- After the handshake, once a valid buffer starts with a complete text frame of a client
  -- (final, masked, not empty, of a size that can be stored), with at most a part of another
  -- frame behind it, whose message is JSON of type chat with a text content, onMessage takes
  -- exactly that frame out of the buffer, keeps the sessions, and sends the broadcast of the
  -- content in the name of the user of the connection, as one unmasked text frame of RFC 6455,
  -- once to every connected user, if the content is not empty, the user is online and the
  -- database has the user, and sends nothing otherwise; the broadcast is shorter than 2^64
  -- bytes, and the fuel above 1.
  pub on_message-broadcasts :
      (fuel : ℕ) (stale : Bytes) (s : Server Db) (conn : ℕ) (b : Buffer) (now : ℕ) (t : Text)
      (rest : Bytes) (j : Json) (content : Bytes)
      → speaks_websocket s conn ≡ true
      → IsText t
      → IsValid b
      → readable b ≡ text_wire t ++ rest
      → IsCut rest
      → 1 < fuel
      → parse t.body ≡ some j
      → get_text j field_msg_type ≡ some msg_type_chat
      → value_text j field_content ≡ some content
      → length (broadcast_message platform (state_of s conn).username content now) < 2 ^ 64
      → (service : Service Db) × (left : Buffer) × (on_message platform fuel stale s conn b now
          ≡ done (record s { service = service }, left))
        × (readable left ≡ rest)
        × (service.sessions ≡ s.service.sessions)
        × (service.net ≡ (
            if passes platform s.service (state_of s conn).username content
            then record s.service.net {
              sent =
                  s.service.net.sent
                  ++ copies
                      (wire true 1 none
                        (broadcast_message platform (state_of s conn).username content now))
                      (reached s.service.net.state [] s.service.sessions);
            }
            else s.service.net))
  unfolding deliver
  on_message-broadcasts fuel stale s conn b now t rest j content open_ ok v e cut enough p m c
        small =
      let handed =
        on_message-deliver platform (t ∷ []) rest fuel stale s conn b now open_ (ok, tt) v
          (e ∙ ap (λ x. x ++ rest) (sym (append-nil (text_wire t)))) (cut-rejected stale rest cut)
          (omega (arith, enough)) in
      (
        handle_chat platform s.service (state_of s conn).username content now,
        behind b (t ∷ []),
        handed.1
            ∙ ap (λ r. deliver platform r conn (t ∷ []) now >>= λ s'. done (s', behind b (t ∷ [])))
                (seen_same s conn open_)
            ∙ ap (λ o. (o >>= λ s'. done s') >>= λ s'. done (s', behind b (t ∷ [])))
                (handler_chat s conn t.body j content now open_ p m c),
        handed.0,
        handle_chat-sessions platform s.service (state_of s conn).username content now,
        handle_chat-net platform s.service (state_of s conn).username content now small,
      )
