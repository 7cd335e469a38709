-- ===== src/Server/Others.antt =====
-- What happens on the other connections, and on the timer, leaves the state of a connection alone.
use my_testserver.Prelude.Keys.{number_keys}
use my_testserver.Prelude.{
  ℕ, zero, suc, ◌≡◌, ◌∙◌, ap, inl, inr, Bool, true, false, not, ◌&&◌, Option, none, some, List, [],
  ◌∷◌, Bytes, arith, ◌==◌, Bool-cases, is_empty,
}
use my_testserver.Prelude.Assoc.{get, assign, get-assign, get-erase_other}
use my_testserver.Platform.{Platform}
use my_testserver.Buffer.{Buffer, readable, readable_bytes, retrieve}
use my_testserver.Net.{conn_connected}
use my_testserver.Service.{Service, keep_mysql_alive}
use my_testserver.Frame.{Frame, Parsed, parsed, rejected, length_error, parse_frame}
use my_testserver.Server.{
  Server, ConnectionState, Outcome, done, ◌>>=◌, handle_websocket_message, take_frame, resume,
  frame_round, frame_loop, shake_hands, on_message, on_connection, on_timer, kept_alive, leave,
  set_state, state_of,
}
use my_testserver.Server.Identity.{leave-states}
use my_testserver.Server.Keeps.{States, Ends, bind-Ends, After, handler-After}

-- An event beside the reads of a connection: bytes of another connection in its buffer, another
-- connection that comes up or goes down, and the timer.
pub data Other : Type 0 where
  messages : ℕ → Bytes → Buffer → ℕ → Other
  connects : ℕ → Other
  ticks : Other

abbrev pub beside : ℕ → Other → Bool
beside conn (messages other stale b now) = not (other == conn)
beside conn (connects other) = not (other == conn)
beside conn ticks = true

abbrev pub all_beside : ℕ → List Other → Bool
all_beside conn [] = true
all_beside conn (o ∷ more) = beside conn o && all_beside conn more

-- `Holds` is kept by every change of the state of `other`.
module _ (platform : Platform) (Holds : States → Type 0) (other : ℕ)
    (sets : (states : States) (state : ConnectionState)
      → Holds states
      → Holds (assign states other state)) where
  open platform use {Db}

  handled :
      (s : Server Db) (message : Bytes) (now : ℕ)
      → Holds s.states
      → After Holds (handle_websocket_message platform s other message now)
  handled s message now h =
      handler-After platform Holds other (λ states k. sets states _ k)
        (λ states username k. sets states _ k) s message now h

  frame-Ends :
      (s : Server Db) (f : Frame) (now : ℕ)
      → Holds s.states
      → Ends (λ r. Holds r.1.states) (take_frame platform s other f now)
  unfolding take_frame
  frame-Ends s f now h = elim (Bool-cases (f.opcode == 0x1)) [
    | inl e ↦ elim (Bool-cases (is_empty f.message)) [
      | inl n ↦ rw (e, n) h
      | inr n ↦
          rw (e, n)
            (bind-Ends (λ t. Holds t.states) (λ r. Holds r.1.states)
              (handle_websocket_message platform s other f.message now) _
              (handled s f.message now h) (λ t k. k))
    ]
    | inr e ↦ elim (Bool-cases (f.opcode == 0x8)) [ inl c ↦ rw (e, c) h | inr c ↦ rw (e, c) h ]
  ]

  resumed-Ends :
      (next : Server Db → Outcome (Server Db × Buffer)) (b : Buffer) (r : Bool × Server Db)
      → ((s : Server Db) → Holds s.states → Ends (λ r. Holds r.0.states) (next s))
      → Holds r.1.states
      → Ends (λ r. Holds r.0.states) (resume platform next b r)
  resumed-Ends next b (true, s) k h = k s h
  resumed-Ends next b (false, s) k h = h

  round-Ends :
      (next : Buffer → Server Db → Outcome (Server Db × Buffer)) (s : Server Db) (b : Buffer)
      (now : ℕ) (p : Parsed)
      → ((c : Buffer) (s' : Server Db) → Holds s'.states → Ends (λ r. Holds r.0.states) (next c s'))
      → Holds s.states
      → Ends (λ r. Holds r.0.states) (frame_round platform next s other b now p)
  unfolding frame_round
  round-Ends next s b now rejected k h = h
  round-Ends next s b now length_error k h = tt
  round-Ends next s b now (parsed f) k h = elim (Bool-cases f.fin) [
    | inl e ↦ rw e (
        bind-Ends (λ r. Holds r.1.states) (λ r. Holds r.0.states)
          (take_frame platform s other f now) (resume platform (next (retrieve b f.frame_len)) b)
          (frame-Ends s f now h)
          (λ r g. resumed-Ends (next (retrieve b f.frame_len)) b r (k (retrieve b f.frame_len)) g))
    | inr e ↦ rw e h
  ]

  loop-Ends :
      (fuel : ℕ) (stale : Bytes) (s : Server Db) (b : Buffer) (now : ℕ)
      → Holds s.states
      → Ends (λ r. Holds r.0.states) (frame_loop platform fuel stale s other b now)
  unfolding frame_loop
  loop-Ends zero stale s b now h = tt
  loop-Ends (suc fuel) stale s b now h = elim (Bool-cases (readable_bytes b == 0)) [
    | inl e ↦ rw (e, frame_loop) h
    | inr e ↦
        rw (e, frame_loop)
          (round-Ends (λ b' s'. frame_loop platform fuel stale s' other b' now) s b now
            (parse_frame stale (readable b)) (λ c s' g. loop-Ends fuel stale s' c now g) h)
  ]

  shaken :
      (s : Server Db) (request : Bytes)
      → Holds s.states
      → Holds (shake_hands platform s other request).states
  unfolding shake_hands
  shaken s request h = ground (
    arith,
    h,
    sets s.states (record (state_of s other) { is_websocket = true; handshake_complete = true }) h,
  )

  pub message-Ends :
      (fuel : ℕ) (stale : Bytes) (s : Server Db) (b : Buffer) (now : ℕ)
      → Holds s.states
      → Ends (λ r. Holds r.0.states) (on_message platform fuel stale s other b now)
  unfolding on_message
  message-Ends fuel stale s b now h =
      let looked : Holds (set_state s other (state_of s other)).states = sets s.states _ h in
      elim (Bool-cases (state_of s other).handshake_complete) [
        | inl e ↦ elim (Bool-cases (state_of s other).is_websocket) [
          | inl w ↦
              rw (e, w) (loop-Ends fuel stale (set_state s other (state_of s other)) b now looked)
          | inr w ↦ rw (e, w) looked
        ]
        | inr e ↦ rw e (shaken (set_state s other (state_of s other)) _ looked)
      ]

-- The events, one after another; `fuel` is for the loop of each onMessage.
module _ (platform : Platform) (fuel : ℕ) where
  open platform use {Db}

  abbrev pub happens : Server Db → Other → Outcome (Server Db)
  happens s (messages other stale b now) =
      on_message platform fuel stale s other b now >>= λ r. done r.0
  happens s (connects other) = done (on_connection platform s other)
  happens s ticks = on_timer platform s

  abbrev pub all_happen : Server Db → List Other → Outcome (Server Db)
  all_happen s [] = done s
  all_happen s (o ∷ more) = happens s o >>= λ s'. all_happen s' more

  module _ (conn : ℕ) (found : Option ConnectionState) where
    abbrev Finds : States → Type 0
    Finds states = get states conn ≡ found

    Finds-assign :
        (other : ℕ) (states : States) (state : ConnectionState)
        → (other == conn) ≡ false
        → Finds states
        → Finds (assign states other state)
    Finds-assign other states state apart h =
        ground (arith, apart, h, get-assign states other conn state)

    connection-Finds :
        (s : Server Db) (other : ℕ)
        → (other == conn) ≡ false
        → Finds s.states
        → Finds (on_connection platform s other).states
    unfolding on_connection
    connection-Finds s other apart h = elim (Bool-cases (conn_connected s.service.net other)) [
      | inl e ↦ rw e (Finds-assign other s.states _ apart h)
      | inr e ↦ rw e (
          get-erase_other (leave platform s (get s.states other)).states other conn apart
          ∙ ap (λ states. get states conn) (leave-states platform s (get s.states other))
          ∙ h)
    ]

    timer-Finds : (s : Server Db) → Finds s.states → After Finds (on_timer platform s)
    unfolding on_timer
    timer-Finds s h = kept-Finds (keep_mysql_alive platform s.service)
      where
        kept-Finds : (service : Option (Service Db)) → After Finds (kept_alive platform s service)
        kept-Finds none = tt
        kept-Finds (some service) = h

    happens-Finds :
        (s : Server Db) (o : Other)
        → beside conn o ≡ true
        → Finds s.states
        → After Finds (happens s o)
    happens-Finds s (messages other stale b now) apart h =
        bind-Ends (λ r. Finds r.0.states) (λ t. Finds t.states)
          (on_message platform fuel stale s other b now) (λ r. done r.0)
          (message-Ends platform Finds other
            (λ states state k. Finds-assign other states state (ground (arith, apart)) k) fuel stale
            s b now h)
          (λ r k. k)
    happens-Finds s (connects other) apart h = connection-Finds s other (ground (arith, apart)) h
    happens-Finds s ticks apart h = timer-Finds s h

    pub all_happen-Finds :
        (s : Server Db) (os : List Other)
        → all_beside conn os ≡ true
        → Finds s.states
        → After Finds (all_happen s os)
    all_happen-Finds s [] apart h = h
    all_happen-Finds s (o ∷ more) apart h =
        bind-Ends (λ t. Finds t.states) (λ t. Finds t.states) (happens s o) _
          (happens-Finds s o (ground (arith, apart)) h)
          (λ t k. all_happen-Finds t more (ground (arith, apart)) k)
