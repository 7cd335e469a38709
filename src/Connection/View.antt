-- ===== src/Connection/View.antt =====
-- Events of many connections, in the view of Net.antt and in that of Connection.antt.
use my_testserver.Prelude.{
  ℕ, ◌≡◌, refl, sym, ap, ◌∙◌, Bool, true, List, [], ◌∷◌, ◌++◌, Bytes, ◌==◌, ==_iff, if◌then◌else◌,
  arith, append_assoc, append-nil,
}
use my_testserver.Net
use my_testserver.Net.{Net, StateE, is_connected, disconnecting, disconnected}
use my_testserver.Connection.{Connection, send}
use my_testserver.Connection.Run.{
  Event, sends, writable, shuts_down, closes, step, next_state, accepted,
}

-- An event of one connection, as the chat server sees it.
unfoldable pub net_step : Net → ℕ → Event → Net
net_step net conn (sends bytes w) = Net.send net conn bytes
net_step net conn (writable w) = net
net_step net conn shuts_down = Net.shutdown net conn
net_step net conn closes = record net {
  state = λ other. if other == conn then disconnected else net.state other;
}

unfoldable pub net_run : Net → List (ℕ × Event) → Net
net_run net [] = net
net_run net ((conn, e) ∷ es) = net_run (net_step net conn e) es

-- The same events of the connections themselves.
abbrev pub Connections : Type 0
Connections = ℕ → Connection

abbrev pub step_at : Connections → ℕ → Event → Connections
step_at cs conn e = λ k. if k == conn then step (cs conn) e else cs k

unfoldable pub run_all : Connections → List (ℕ × Event) → Connections
run_all cs [] = cs
run_all cs ((conn, e) ∷ es) = run_all (step_at cs conn e) es

-- An event on a thread; a send is of bytes at `address`.
pub record Happening : Type 0 where
  pub thread : ℕ
  pub conn : ℕ
  pub address : ℕ
  pub event : Event

-- `send` looks at its thread.
unfoldable pub step_by : Bool → ℕ → Connection → Event → Connection
step_by in_loop_thread address c (sends bytes w) = send in_loop_thread c address bytes w
step_by in_loop_thread address c (writable w) = step c (writable w)
step_by in_loop_thread address c shuts_down = step c shuts_down
step_by in_loop_thread address c closes = step c closes

-- The events, with the thread of the loop of each connection.
abbrev pub happen : (ℕ → ℕ) → Connections → Happening → Connections
happen loop_of cs h = λ k.
    if k == h.conn then step_by (h.thread == loop_of h.conn) h.address (cs h.conn) h.event else cs k

unfoldable pub happen_all : (ℕ → ℕ) → Connections → List Happening → Connections
happen_all loop_of cs [] = cs
happen_all loop_of cs (h ∷ hs) = happen_all loop_of (happen loop_of cs h) hs

-- The events without their threads.
abbrev pub events_of : List Happening → List (ℕ × Event)
events_of [] = []
events_of (h ∷ hs) = (h.conn, h.event) ∷ events_of hs

-- Each event is on the thread of the connection's own loop.
abbrev pub OnOwnLoops : (ℕ → ℕ) → List Happening → Type 0
OnOwnLoops loop_of [] = Unit {0}
OnOwnLoops loop_of (h ∷ hs) = (h.thread ≡ loop_of h.conn) × OnOwnLoops loop_of hs

step_by-own : (address : ℕ) (c : Connection) (e : Event) → step_by true address c e ≡ step c e
unfolding step_by step send
step_by-own address c (sends bytes w) = refl
step_by-own address c (writable w) = refl
step_by-own address c shuts_down = refl
step_by-own address c closes = refl

pub happen_all-own :
    (loop_of : ℕ → ℕ) (cs : Connections) (hs : List Happening)
    → OnOwnLoops loop_of hs
    → happen_all loop_of cs hs ≡ run_all cs (events_of hs)
unfolding happen_all run_all
happen_all-own loop_of cs [] own = refl
happen_all-own loop_of cs (h ∷ hs) (own, more) =
    ap (λ b. happen_all loop_of (after b) hs)
      (ground (arith, own, ==_iff h.thread (loop_of h.conn)))
    ∙ ap (λ d. happen_all loop_of (λ k. if k == h.conn then d else cs k) hs)
        (step_by-own h.address (cs h.conn) h.event)
    ∙ happen_all-own loop_of (step_at cs h.conn h.event) hs more
  where
    after : Bool → Connections
    after b = λ k. if k == h.conn then step_by b h.address (cs h.conn) h.event else cs k

-- All bytes that were sent to a connection.
abbrev pub sent_to : ℕ → List (ℕ × Bytes) → Bytes
sent_to k [] = []
sent_to k ((conn, bytes) ∷ rest) = (if k == conn then bytes else []) ++ sent_to k rest

sent_to-append :
    (k : ℕ) (xs ys : List (ℕ × Bytes)) → sent_to k (xs ++ ys) ≡ sent_to k xs ++ sent_to k ys
sent_to-append k [] ys = refl
sent_to-append k ((conn, bytes) ∷ xs) ys =
    let first = if k == conn then bytes else [] in
    ap (λ rest. first ++ rest) (sent_to-append k xs ys)
    ∙ sym (append_assoc first (sent_to k xs) (sent_to k ys))

pub net_step-state :
    (net : Net) (conn : ℕ) (e : Event) (k : ℕ)
    → (net_step net conn e).state k
      ≡ (if k == conn then next_state (net.state conn) e else net.state k)
unfolding net_step Net.send Net.shutdown
net_step-state net conn (sends bytes w) k = ground (arith, ==_iff k conn)
net_step-state net conn (writable w) k = ground (arith, ==_iff k conn)
net_step-state net conn shuts_down k = ground (arith, ==_iff k conn)
net_step-state net conn closes k = ground (arith, ==_iff k conn)

-- What an event hands over to connection `k`.
abbrev pub new_bytes : Net → ℕ → Event → ℕ → Bytes
new_bytes net conn e k = if k == conn then accepted (net.state conn) (e ∷ []) else []

pub net_step-sent :
    (net : Net) (conn : ℕ) (e : Event) (k : ℕ)
    → sent_to k (net_step net conn e).sent ≡ sent_to k net.sent ++ new_bytes net conn e k
unfolding net_step Net.send Net.shutdown
net_step-sent net conn (sends bytes w) k = ground (
  arith,
  sent_to-append k net.sent ((conn, bytes) ∷ []),
  append-nil (sent_to k net.sent),
  append-nil bytes,
)
net_step-sent net conn (writable w) k = ground (arith, append-nil (sent_to k net.sent))
net_step-sent net conn shuts_down k = ground (arith, append-nil (sent_to k net.sent))
net_step-sent net conn closes k = ground (arith, append-nil (sent_to k net.sent))
