-- ===== src/Server/Deliver.antt =====
-- ChatServer::onMessage: the text messages in the buffer, and the calls of handleWebSocketMessage.
use my_testserver.Prelude.{
  ℕ, zero, suc, ◌+◌, ◌≤◌, ◌<◌, ◌≡◌, refl, sym, ap, ◌∙◌, inl, inr, fun_ext, Bool, true, false, some,
  List, [], ◌∷◌, ◌++◌, arith, length, Bytes, drop, is_empty, length-append, drop-append_self,
  append_assoc, ◌==◌, Bool-cases,
}
use my_testserver.Platform.{Platform}
use my_testserver.Buffer.{Buffer, readable, readable_bytes, retrieve}
use my_testserver.Buffer.Valid.{IsValid, length-readable, retrieve-IsValid}
use my_testserver.Buffer.Contents.{readable-retrieve}
use my_testserver.Frame.{parsed, rejected, parse_frame, max_size}
use my_testserver.Frame.Wire.{wire, header_length}
use my_testserver.Frame.Parse.{parse_frame-wire, length-wire, frame_of}
use my_testserver.Server.Loop.{speaks_websocket, seen, on_message_loops}
use my_testserver.Server.{
  Server, Outcome, done, thrown, exited, out_of_fuel, ◌>>=◌, handle_websocket_message, take_frame,
  resume, frame_round, frame_loop, on_message,
}

-- A text message as a client sends it.
pub record Text : Type 0 where
  pub key : Bytes
  pub body : Bytes

abbrev pub IsText : Text → Type 0
IsText t = (length t.key ≡ 4) × (is_empty t.body ≡ false) × (length t.body ≤ max_size)

abbrev pub AreTexts : List Text → Type 0
AreTexts [] = Unit {0}
AreTexts (t ∷ ts) = IsText t × AreTexts ts

abbrev pub text_wire : Text → Bytes
text_wire t = wire true 0x1 (some t.key) t.body

abbrev pub stream : List Text → Bytes
stream [] = []
stream (t ∷ ts) = text_wire t ++ stream ts

abbrev pub text_length : Text → ℕ
text_length t = header_length (some t.key) (length t.body) + length t.body

-- The buffer behind the frames.
abbrev pub behind : Buffer → List Text → Buffer
behind b [] = b
behind b (t ∷ ts) = behind (retrieve b (text_length t)) ts

module _ (platform : Platform) where
  open platform use {Db}

  -- The handler on each message in turn.
  unfoldable pub deliver : Server Db → ℕ → List Text → ℕ → Outcome (Server Db)
  deliver s conn [] now = done s
  deliver s conn (t ∷ ts) now =
      handle_websocket_message platform s conn t.body now >>= λ s'. deliver s' conn ts now

  -- The buffer is left alone where no frame is complete.
  pub loop_rests :
      (fuel : ℕ) (stale : Bytes) (s : Server Db) (conn : ℕ) (b : Buffer) (now : ℕ)
      → parse_frame stale (readable b) ≡ rejected
      → frame_loop platform (suc fuel) stale s conn b now ≡ done (s, b)
  unfolding frame_loop
  loop_rests fuel stale s conn b now e = elim (Bool-cases (readable_bytes b == 0)) [
    | inl z ↦ rw (z, frame_loop) refl
    | inr z ↦ rw (z, frame_loop, e) refl
  ]

  resume-bind :
      (next : Server Db → Outcome (Server Db × Buffer)) (b : Buffer) (m : Outcome (Server Db))
      → (◌>>=◌ {B = Bool × Server Db} m (λ s. done (true, s)) >>= resume platform next b)
        ≡ (m >>= next)
  resume-bind next b (done s) = refl
  resume-bind next b thrown = refl
  resume-bind next b exited = refl
  resume-bind next b out_of_fuel = refl

  take_frame_text :
      (s : Server Db) (conn : ℕ) (t : Text) (n now : ℕ)
      → is_empty t.body ≡ false
      → take_frame platform s conn
          (record { message = t.body; frame_len = n; opcode = 1; fin = true })
          now
        ≡ ◌>>=◌ {B = Bool × Server Db}
            (handle_websocket_message platform s conn t.body now)
            (λ s'. done (true, s'))
  unfolding take_frame
  take_frame_text s conn t n now h = rw h refl

  pub loop_takes :
      (fuel : ℕ) (stale : Bytes) (s : Server Db) (conn : ℕ) (b : Buffer) (now : ℕ) (t : Text)
      (rest : Bytes)
      → IsValid b
      → IsText t
      → readable b ≡ text_wire t ++ rest
      → frame_loop platform (suc fuel) stale s conn b now ≡ (
          handle_websocket_message platform s conn t.body now >>= λ s'.
          frame_loop platform fuel stale s' conn (retrieve b (text_length t)) now)
  unfolding frame_loop
  loop_takes fuel stale s conn b now t rest v ok e =
      rw (nonempty, frame_loop)
        (ap (frame_round platform next s conn b now) (
            ap (parse_frame stale) e
            ∙ parse_frame-wire stale true 1 (some t.key) t.body rest (inl refl) ok.0 ok.2)
          ∙ round)
    where
      next : Buffer → Server Db → Outcome (Server Db × Buffer)
      next b' s' = frame_loop platform fuel stale s' conn b' now

      nonempty : (readable_bytes b == 0) ≡ false
      nonempty = ground (
        arith,
        length-readable b v,
        ap length e,
        length-append (text_wire t) rest,
        length-wire true 1 (some t.key) t.body,
      )

      round :
          frame_round platform next s conn b now
            (parsed (frame_of stale true 1 (some t.key) t.body))
          ≡ (handle_websocket_message platform s conn t.body now
              >>= next (retrieve b (text_length t)))
      round =
          unfold frame_round in
          (ap (λ m. m >>= resume platform (next (retrieve b (text_length t))) b)
              (take_frame_text s conn t (text_length t) now ok.1)
            ∙ resume-bind (next (retrieve b (text_length t))) b
                (handle_websocket_message platform s conn t.body now))

  pub bind_assoc :
      (m : Outcome (Server Db)) (f : Server Db → Outcome (Server Db)) (b : Buffer)
      → (m >>= λ s. ◌>>=◌ {B = Server Db × Buffer} (f s) (λ s'. done (s', b)))
        ≡ ◌>>=◌ {B = Server Db × Buffer} (m >>= f) (λ s'. done (s', b))
  bind_assoc (done s) f b = refl
  bind_assoc thrown f b = refl
  bind_assoc exited f b = refl
  bind_assoc out_of_fuel f b = refl

  pub readable_behind :
      (b : Buffer) (t : Text) (rest : Bytes)
      → IsValid b
      → readable b ≡ text_wire t ++ rest
      → readable (retrieve b (text_length t)) ≡ rest
  readable_behind b t rest v e =
      readable-retrieve b (text_length t) v
      ∙ ap (drop (text_length t)) e
      ∙ ap (λ n. drop n (text_wire t ++ rest)) (sym (length-wire true 1 (some t.key) t.body))
      ∙ drop-append_self (text_wire t) rest

  pub frame_loop-deliver :
      (texts : List Text) (rest : Bytes) (fuel : ℕ) (stale : Bytes) (s : Server Db) (conn : ℕ)
      (b : Buffer) (now : ℕ)
      → AreTexts texts
      → IsValid b
      → readable b ≡ stream texts ++ rest
      → parse_frame stale rest ≡ rejected
      → length texts < fuel
      → (readable (behind b texts) ≡ rest)
        × (frame_loop platform fuel stale s conn b now
            ≡ (deliver s conn texts now >>= λ s'. done (s', behind b texts)))
  unfolding deliver
  frame_loop-deliver texts rest zero stale s conn b now ok v e stop h = absurd (omega arith)
  frame_loop-deliver [] rest (suc fuel) stale s conn b now ok v e stop h =
      (e, loop_rests fuel stale s conn b now (ap (parse_frame stale) e ∙ stop))
  frame_loop-deliver (t ∷ ts) rest (suc fuel) stale s conn b now ok v e stop h =
      let e' = e ∙ append_assoc (text_wire t) (stream ts) rest in
      let v' = retrieve-IsValid (text_length t) v in
      let later = readable_behind b t (stream ts ++ rest) v e' in
      (
        (frame_loop-deliver ts rest fuel stale s conn (retrieve b (text_length t)) now ok.1 v' later
            stop (omega arith)).0,
        loop_takes fuel stale s conn b now t (stream ts ++ rest) v ok.0 e'
            ∙ ap (λ f. handle_websocket_message platform s conn t.body now >>= f)
                (fun_ext λ s'.
                  (frame_loop-deliver ts rest fuel stale s' conn (retrieve b (text_length t)) now
                    ok.1 v' later stop (omega arith)).1)
            ∙ bind_assoc (handle_websocket_message platform s conn t.body now)
                (λ s'. deliver s' conn ts now) (behind (retrieve b (text_length t)) ts),
      )

  -- After the handshake, on a valid buffer that starts with complete text frames of a client
  -- (final, masked, not empty, of a size that can be stored) followed by bytes that parseFrame
  -- refuses, onMessage does what handleWebSocketMessage does on the message of each, once and in
  -- order, up to an exception, and leaves exactly the bytes behind them in the buffer; the fuel
  -- is above the number of frames.
  pub on_message-deliver :
      (texts : List Text) (rest : Bytes) (fuel : ℕ) (stale : Bytes) (s : Server Db) (conn : ℕ)
      (b : Buffer) (now : ℕ)
      → speaks_websocket s conn ≡ true
      → AreTexts texts
      → IsValid b
      → readable b ≡ stream texts ++ rest
      → parse_frame stale rest ≡ rejected
      → length texts < fuel
      → (readable (behind b texts) ≡ rest)
        × (on_message platform fuel stale s conn b now
            ≡ (deliver (seen s conn) conn texts now >>= λ s'. done (s', behind b texts)))
  on_message-deliver texts rest fuel stale s conn b now open_ ok v e stop h =
      let (left, handed) =
        frame_loop-deliver texts rest fuel stale (seen s conn) conn b now ok v e stop h in
      (left, on_message_loops platform fuel stale s conn b now open_ ∙ handed)
