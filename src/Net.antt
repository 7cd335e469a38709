-- ===== src/Net.antt =====
-- mymuduo/TcpConnection.cpp as the chat server sees it: the state of each connection, and what has
-- been handed to it for sending. A connection is named by a number, the identity of its object.
-- The bytes' way through the buffers and the socket is in Connection.antt.
use my_testserver.Prelude.{ℕ, Bool, true, false, List, [], ◌∷◌, ◌++◌, Bytes, ◌==◌, if◌then◌else◌}

-- `StateE`.
pub data StateE : Type 0 where
  disconnected disconnecting connected connecting : StateE

abbrev pub is_connected : StateE → Bool
is_connected connected = true
is_connected disconnected = false
is_connected disconnecting = false
is_connected connecting = false

pub record Net : Type 0 where
  pub state : ℕ → StateE
  -- What `send` accepted, in order.
  pub sent : List (ℕ × Bytes)

-- `conn->connected()`.
abbrev pub conn_connected : Net → ℕ → Bool
conn_connected net conn = is_connected (net.state conn)

-- `conn->send(buf)`.
unfoldable pub send : Net → ℕ → Bytes → Net
send net conn buf =
    if is_connected (net.state conn)
    then record net { sent = net.sent ++ ((conn, buf) ∷ []) }
    else net

-- `conn->shutdown()`.
unfoldable pub shutdown : Net → ℕ → Net
shutdown net conn =
    if is_connected (net.state conn)
    then record net { state = λ other. if other == conn then disconnecting else net.state other }
    else net
