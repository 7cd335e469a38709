-- ===== src/Server/Loop.antt =====
-- ChatServer::onMessage: the loop over the frames in the buffer, and how long it runs.
use my_testserver.Prelude.{
  ℕ, zero, suc, ◌<◌, ◌≡◌, ◌≢◌, refl, ap, inl, inr, Bool, true, false, ◌&&◌, Option, none, some,
  arith, length, Bytes, length-drop, ◌==◌, Bool-cases,
}
use my_testserver.Platform.{Platform}
use my_testserver.Buffer.{Buffer, readable, readable_bytes, retrieve}
use my_testserver.Buffer.Valid.{IsValid, length-readable, no_wrap, retrieve-IsValid}
use my_testserver.Buffer.Contents.{readable-retrieve}
use my_testserver.Frame.{Frame, Parsed, parsed, rejected, length_error, parse_frame}
use my_testserver.Frame.Stream.{parse_frame_bounds}
use my_testserver.Protocol.{field_msg_type}
use my_testserver.Server.{
  Server, Outcome, done, thrown, exited, out_of_fuel, ◌>>=◌, or_throw, handle_websocket_message,
  handle_parsed, dispatch, on_register, on_login, on_chat, on_get_history, take_frame, resume,
  frame_round, frame_loop, set_state, state_of, on_message,
}

-- The handshake is done.
abbrev pub speaks_websocket : {Db : Type 0} → Server Db → ℕ → Bool
speaks_websocket s conn = (state_of s conn).is_websocket && (state_of s conn).handshake_complete

-- The server after `connectionStates_[conn]`.
abbrev pub seen : {Db : Type 0} → Server Db → ℕ → Server Db
seen s conn = set_state s conn (state_of s conn)

-- No handler loops.
module _ (platform : Platform) where
  open platform use {Db, Json, parse, get_text}

  dispatch_ends :
      (s : Server Db) (conn : ℕ) (j : Json) (msg_type : Bytes) (now : ℕ)
      → dispatch platform s conn j msg_type now ≢ out_of_fuel
  unfolding dispatch on_register on_login on_chat on_get_history
  dispatch_ends s conn j msg_type now = ground arith

  typed_ends :
      (s : Server Db) (conn : ℕ) (j : Json) (now : ℕ) (msg_type : Option Bytes)
      → (or_throw msg_type >>= λ t. dispatch platform s conn j t now) ≢ out_of_fuel
  typed_ends s conn j now none e = cc
  typed_ends s conn j now (some t) e = dispatch_ends s conn j t now e

  parsed_ends :
      (s : Server Db) (conn : ℕ) (now : ℕ) (j : Option Json)
      → handle_parsed platform s conn j now ≢ out_of_fuel
  unfolding handle_parsed
  parsed_ends s conn now none e = cc
  parsed_ends s conn now (some j) e = typed_ends s conn j now (get_text j field_msg_type) e

  handler_ends :
      (s : Server Db) (conn : ℕ) (message : Bytes) (now : ℕ)
      → handle_websocket_message platform s conn message now ≢ out_of_fuel
  unfolding handle_websocket_message
  handler_ends s conn message now =
      parsed_ends (set_state s conn (state_of s conn)) conn now (parse message)

  pair_ends :
      (go_on : Bool) (m : Outcome (Server Db))
      → m ≢ out_of_fuel
      → ◌>>=◌ {B = Bool × Server Db} m (λ s. done (go_on, s)) ≢ out_of_fuel
  pair_ends go_on (done s) h e = cc
  pair_ends go_on thrown h e = cc
  pair_ends go_on exited h e = cc
  pair_ends go_on out_of_fuel h e = h refl

  take_frame_ends :
      (s : Server Db) (conn : ℕ) (f : Frame) (now : ℕ)
      → take_frame platform s conn f now ≢ out_of_fuel
  unfolding take_frame
  take_frame_ends s conn f now = ground (
    arith,
    pair_ends true (handle_websocket_message platform s conn f.message now)
        (handler_ends s conn f.message now),
  )

  -- A round takes a frame of two bytes at least away from the buffer.
  pub retrieve_shrinks :
      (stale : Bytes) (b : Buffer) (f : Frame)
      → IsValid b
      → parse_frame stale (readable b) ≡ parsed f
      → (readable_bytes (retrieve b f.frame_len) < readable_bytes b)
        × IsValid (retrieve b f.frame_len)
  retrieve_shrinks stale b f v e =
      let w = retrieve-IsValid f.frame_len v in
      (
        omega (
          arith,
          parse_frame_bounds stale (readable b) f e,
          length-readable b v,
          length-readable (retrieve b f.frame_len) w,
          no_wrap v,
          no_wrap w,
          ap length (readable-retrieve b f.frame_len v),
          length-drop f.frame_len (readable b),
        ),
        w,
      )

  resumed_ends :
      (next : Server Db → Outcome (Server Db × Buffer)) (b : Buffer)
      (m : Outcome (Bool × Server Db))
      → m ≢ out_of_fuel
      → ((s : Server Db) → next s ≢ out_of_fuel)
      → (m >>= resume platform next b) ≢ out_of_fuel
  resumed_ends next b (done (true, s)) h k e = k s e
  resumed_ends next b (done (false, s)) h k e = cc
  resumed_ends next b thrown h k e = cc
  resumed_ends next b exited h k e = cc
  resumed_ends next b out_of_fuel h k e = h refl

  round_ends :
      (next : Buffer → Server Db → Outcome (Server Db × Buffer)) (s : Server Db) (conn : ℕ)
      (b : Buffer) (now : ℕ) (p : Parsed)
      → ((f : Frame)
          → p ≡ parsed f
          → (s' : Server Db) → next (retrieve b f.frame_len) s' ≢ out_of_fuel)
      → frame_round platform next s conn b now p ≢ out_of_fuel
  unfolding frame_round
  round_ends next s conn b now rejected k = λ e. cc
  round_ends next s conn b now length_error k = λ e. cc
  round_ends next s conn b now (parsed f) k = elim (Bool-cases f.fin) [
    | inl e ↦ rw e (
        resumed_ends (next (retrieve b f.frame_len)) b (take_frame platform s conn f now)
          (take_frame_ends s conn f now) (k f refl))
    | inr e ↦ rw e (λ d. cc)
  ]

  pub frame_loop_ends :
      (fuel : ℕ) (stale : Bytes) (s : Server Db) (conn : ℕ) (b : Buffer) (now : ℕ)
      → IsValid b
      → readable_bytes b < fuel
      → frame_loop platform fuel stale s conn b now ≢ out_of_fuel
  unfolding frame_loop
  frame_loop_ends zero stale s conn b now v h = absurd (omega arith)
  frame_loop_ends (suc fuel) stale s conn b now v h = elim (Bool-cases (readable_bytes b == 0)) [
    | inl e ↦ rw (e, frame_loop) (λ k. cc)
    | inr more ↦
        rw (more, frame_loop)
          (round_ends (λ b' s'. frame_loop platform fuel stale s' conn b' now) s conn b now
            (parse_frame stale (readable b))
            λ f e s'.
              let less = retrieve_shrinks stale b f v e in
              frame_loop_ends fuel stale s' conn (retrieve b f.frame_len) now less.1 (omega arith))
  ]

  pub on_message_loops :
      (fuel : ℕ) (stale : Bytes) (s : Server Db) (conn : ℕ) (b : Buffer) (now : ℕ)
      → speaks_websocket s conn ≡ true
      → on_message platform fuel stale s conn b now
        ≡ frame_loop platform fuel stale (seen s conn) conn b now
  unfolding on_message
  on_message_loops fuel stale s conn b now h = ground arith

  -- On a valid buffer, onMessage ends after at most one round more than the buffer has readable
  -- bytes: fuel above their number is never used up.
  pub on_message_ends :
      (fuel : ℕ) (stale : Bytes) (s : Server Db) (conn : ℕ) (b : Buffer) (now : ℕ)
      → IsValid b
      → readable_bytes b < fuel
      → on_message platform fuel stale s conn b now ≢ out_of_fuel
  unfolding on_message
  on_message_ends fuel stale s conn b now v h =
      ground (arith, frame_loop_ends fuel stale (seen s conn) conn b now v h)
