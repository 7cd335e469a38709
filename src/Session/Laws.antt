-- ===== src/Session/Laws.antt =====
-- What the session table promises.
use my_testserver.Prelude.Keys.{bytes_keys}
use my_testserver.Prelude.{
  ℕ, ◌≡◌, sym, ap, ◌∙◌, true, false, not, ◌&&◌, Option, none, some, List, [], ◌∷◌, ◌++◌, map, Bytes,
  eqb, eqb_iff, arith, inl, inr, Option-cases, Bool-cases, if◌then◌else◌, append_assoc, append-nil,
}
use my_testserver.Prelude.Assoc.{
  get, has-get, Distinct, get-assign, get-erase, assign-Distinct, erase-Distinct,
}
use my_testserver.Net.{Net, StateE, is_connected, send}
use my_testserver.Session.{
  Session, Sessions, add_session, remove_session, get_connection, is_online, update_heartbeat,
  touched, broadcast_to_all,
}

-- No user has two sessions.
abbrev pub IsValid : Sessions → Type 0
IsValid sessions = Distinct sessions

pub add_session-IsValid :
    (sessions : Sessions) (username : Bytes) (conn now : ℕ)
    → IsValid sessions
    → IsValid (add_session sessions username conn now)
unfolding add_session
add_session-IsValid sessions username conn now v = assign-Distinct sessions username _ v

pub remove_session-IsValid :
    (sessions : Sessions) (username : Bytes)
    → IsValid sessions
    → IsValid (remove_session sessions username)
unfolding remove_session
remove_session-IsValid sessions username v = erase-Distinct sessions username v

pub update_heartbeat-IsValid :
    (sessions : Sessions) (username : Bytes) (now : ℕ)
    → IsValid sessions
    → IsValid (update_heartbeat sessions username now)
unfolding update_heartbeat
update_heartbeat-IsValid sessions username now v = keep (get sessions username)
  where
    keep : (found : Option Session) → IsValid (touched sessions username now found)
    keep none = v
    keep (some session) = assign-Distinct sessions username _ v

-- The connection of one user changes by a login or a removal of that user alone.
pub get_connection-add_session :
    (sessions : Sessions) (username other : Bytes) (conn now : ℕ)
    → get_connection (add_session sessions username conn now) other
      ≡ (if eqb username other then some conn else get_connection sessions other)
unfolding get_connection add_session
get_connection-add_session sessions username other conn now =
    ground
      (arith, get-assign sessions username other (record { conn = conn; last_heartbeat = now }))

pub get_connection-remove_session :
    (sessions : Sessions) (username other : Bytes)
    → IsValid sessions
    → get_connection (remove_session sessions username) other
      ≡ (if eqb username other then none else get_connection sessions other)
unfolding get_connection remove_session
get_connection-remove_session sessions username other v =
    ground (arith, get-erase sessions username other v)

-- A heartbeat moves no session to another connection.
pub get_connection-update_heartbeat :
    (sessions : Sessions) (username other : Bytes) (now : ℕ)
    → get_connection (update_heartbeat sessions username now) other ≡ get_connection sessions other
unfolding get_connection update_heartbeat
get_connection-update_heartbeat sessions username other now =
    elim (Option-cases (get sessions username)) [
      | inl e ↦ ap (λ found. get_connection (touched sessions username now found) other) e
      | inr (session, e) ↦
          ap (λ found. get_connection (touched sessions username now found) other) e
          ∙ ground (
            arith,
            e,
            get-assign sessions username other (record session { last_heartbeat = now }),
            eqb_iff username other,
          )
    ]

-- Who is not online has no connection.
pub get_connection-offline :
    (sessions : Sessions) (username : Bytes)
    → is_online sessions username ≡ false
    → get_connection sessions username ≡ none
unfolding is_online get_connection
get_connection-offline sessions username h = ground (arith, has-get sessions username)

-- Whom a broadcast reaches: the connected users but the excluded one.
abbrev pub reached : (ℕ → StateE) → Bytes → Sessions → List ℕ
reached state exclude [] = []
reached state exclude ((username, session) ∷ rest) =
    if not (eqb username exclude) && is_connected (state session.conn)
    then session.conn ∷ reached state exclude rest
    else reached state exclude rest

abbrev pub copies : Bytes → List ℕ → List (ℕ × Bytes)
copies message conns = map (λ conn. (conn, message)) conns

-- One round that sends, and one that does not.
broadcast_send :
    (net : Net) (username : Bytes) (session : Session) (message exclude : Bytes)
    → (not (eqb username exclude) && is_connected (net.state session.conn)) ≡ true
    → send net session.conn message
      ≡ record net { sent = net.sent ++ ((session.conn, message) ∷ []) }
unfolding send
broadcast_send net username session message exclude h = ground arith

-- broadcastToAll hands one copy of the message to each connected user but the excluded one, in
-- the order of the table, to nobody else, and changes no connection's state.
pub broadcast_to_all_lem :
    (net : Net) (sessions : Sessions) (message exclude : Bytes)
    → broadcast_to_all net sessions message exclude
      ≡ record net { sent = net.sent ++ copies message (reached net.state exclude sessions) }
unfolding broadcast_to_all
broadcast_to_all_lem net [] message exclude =
    ap (λ s. record net { sent = s }) (sym (append-nil net.sent))
broadcast_to_all_lem net ((username, session) ∷ rest) message exclude =
    elim (Bool-cases (not (eqb username exclude) && is_connected (net.state session.conn))) [
      | inl e ↦
          rw (e, broadcast_send net username session message exclude e)
            (broadcast_to_all_lem _ rest message exclude
              ∙ ap (λ s. record net { sent = s })
                  (append_assoc net.sent ((session.conn, message) ∷ []) _))
      | inr e ↦ rw e (broadcast_to_all_lem net rest message exclude)
    ]
