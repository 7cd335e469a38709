-- ===== src/Server/Crash.antt =====
-- ChatServer::onMessage: exceptions that leave it, and frames that it does not take.
use my_testserver.Prelude.{
  ℕ, suc, ◌+◌, ◌^◌, ◌<◌, ◌≢◌, ◌==◌, ◌≡◌, refl, ap, ◌∙◌, inl, inr, true, false, none, some, ◌∷◌,
  ◌++◌, Bytes, length, Bool-cases,
}
use Prim.Native.Nat.{bit_and}
use my_testserver.Platform.{Platform}
use my_testserver.Buffer.{Buffer, readable, readable_bytes, append}
use my_testserver.Buffer.Valid.{IsValid, append-HasPut}
use my_testserver.Frame.{Frame, parsed, rejected, parse_frame, is_supported}
use my_testserver.Frame.Stream.{parse_frame-append, parse_frame_unsupported}
use my_testserver.Protocol.{field_msg_type}
use my_testserver.Server.{
  Server, Outcome, done, thrown, handle_websocket_message, handle_parsed, frame_round, frame_loop,
  on_message,
}
use my_testserver.Server.Loop.{speaks_websocket, seen, on_message_loops}
use my_testserver.Server.Deliver.{Text, IsText, text_wire, loop_takes, loop_rests}

module _ (platform : Platform) where
  open platform use {Db, Json, parse, get_text}

  untyped_throws :
      (s : Server Db) (conn : ℕ) (payload : Bytes) (j : Json) (now : ℕ)
      → parse payload ≡ some j
      → get_text j field_msg_type ≡ none
      → handle_websocket_message platform s conn payload now ≡ thrown
  unfolding handle_websocket_message handle_parsed
  untyped_throws s conn payload j now p t = rw (p, t) refl

  -- A JSON text message whose msgType is missing or no text makes onMessage end by an exception.
  pub on_message_untyped :
      (fuel : ℕ) (stale : Bytes) (s : Server Db) (conn : ℕ) (b : Buffer) (now : ℕ) (t : Text)
      (rest : Bytes) (j : Json)
      → speaks_websocket s conn ≡ true
      → IsValid b
      → IsText t
      → readable b ≡ text_wire t ++ rest
      → parse t.body ≡ some j
      → get_text j field_msg_type ≡ none
      → on_message platform (suc fuel) stale s conn b now ≡ thrown
  on_message_untyped fuel stale s conn b now t rest j h v ok e p g =
      on_message_loops platform (suc fuel) stale s conn b now h
      ∙ loop_takes platform fuel stale (seen s conn) conn b now t rest v ok e
      ∙ rw (untyped_throws (seen s conn) conn t.body j now p g) refl

  round_stalls :
      (next : Buffer → Server Db → Outcome (Server Db × Buffer)) (s : Server Db) (conn : ℕ)
      (b : Buffer) (now : ℕ) (f : Frame)
      → f.fin ≡ false
      → frame_round platform next s conn b now (parsed f) ≡ done (s, b)
  unfolding frame_round
  round_stalls next s conn b now f h = rw h refl

  loop_stalls :
      (fuel : ℕ) (stale : Bytes) (s : Server Db) (conn : ℕ) (b : Buffer) (now : ℕ) (f : Frame)
      → parse_frame stale (readable b) ≡ parsed f
      → f.fin ≡ false
      → frame_loop platform (suc fuel) stale s conn b now ≡ done (s, b)
  unfolding frame_loop
  loop_stalls fuel stale s conn b now f e h = elim (Bool-cases (readable_bytes b == 0)) [
    | inl z ↦ rw (z, frame_loop) refl
    | inr z ↦
        rw (z, frame_loop, e)
          (round_stalls (λ b' s'. frame_loop platform fuel stale s' conn b' now) s conn b now f h)
  ]

  -- Once the first readable frame of a valid buffer is one without FIN, onMessage changes
  -- nothing and consumes nothing, whatever bytes arrive behind it.
  pub on_message_stalls :
      (fuel : ℕ) (stale : Bytes) (s : Server Db) (conn : ℕ) (b : Buffer) (more : Bytes) (now : ℕ)
      (f : Frame)
      → speaks_websocket s conn ≡ true
      → IsValid b
      → length b.store + length more < 2 ^ 63
      → parse_frame stale (readable b) ≡ parsed f
      → f.fin ≡ false
      → on_message platform (suc fuel) stale s conn (append b more) now
        ≡ done (seen s conn, append b more)
  on_message_stalls fuel stale s conn b more now f h v room e stop =
      on_message_loops platform (suc fuel) stale s conn (append b more) now h
      ∙ loop_stalls fuel stale (seen s conn) conn (append b more) now f
          (ap (parse_frame stale) (append-HasPut more v room).holds
            ∙ parse_frame-append stale (readable b) more accepted
            ∙ e)
          stop
    where
      accepted : parse_frame stale (readable b) ≢ rejected
      accepted r = cc

  -- Once a valid buffer starts with a frame that is neither text nor close, such as a ping,
  -- onMessage changes nothing and consumes nothing, whatever bytes arrive behind it.
  pub on_message_unsupported :
      (fuel : ℕ) (stale : Bytes) (s : Server Db) (conn : ℕ) (b : Buffer) (more : Bytes) (now : ℕ)
      (first second : ℕ) (rest : Bytes)
      → speaks_websocket s conn ≡ true
      → IsValid b
      → length b.store + length more < 2 ^ 63
      → readable b ≡ first ∷ second ∷ rest
      → is_supported (bit_and first 0x0F) ≡ false
      → on_message platform (suc fuel) stale s conn (append b more) now
        ≡ done (seen s conn, append b more)
  on_message_unsupported fuel stale s conn b more now first second rest h v room e bad =
      on_message_loops platform (suc fuel) stale s conn (append b more) now h
      ∙ loop_rests platform fuel stale (seen s conn) conn (append b more) now (
          ap (parse_frame stale) ((append-HasPut more v room).holds ∙ ap (λ t. t ++ more) e)
          ∙ parse_frame_unsupported stale first second (rest ++ more) bad)
