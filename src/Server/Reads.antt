-- ===== src/Server/Reads.antt =====
-- `TcpConnection::handleRead` on one piece of a byte stream after another: `Buffer::readFd`, then the
-- message callback, which is `ChatServer::onMessage`.
use my_testserver.Prelude.{ℕ, ◌&&◌, ◌≡◌, refl, ap, ◌∙◌, true, List, [], ◌∷◌, ◌++◌, length, Bytes}
use my_testserver.Platform.{Platform}
use my_testserver.Buffer.{Buffer, retrieve, read_fd, moved}
use my_testserver.Buffer.Valid.{IsValid, retrieve-IsValid, length-retrieve}
use my_testserver.Server.{
  Server, Outcome, done, thrown, exited, out_of_fuel, found_state, ◌>>=◌, on_message,
  handle_websocket_message,
}
use my_testserver.Prelude.Keys.{number_keys}
use my_testserver.Prelude.Assoc.{get}
use my_testserver.Server.Others.{Other, all_beside, all_happen, all_happen-Finds}
use my_testserver.Server.Loop.{speaks_websocket}
use my_testserver.Server.Keeps.{StaysOpen, Ends, Speaks, bind-Ends, handler-StaysOpen}
use my_testserver.Server.Deliver.{Text, stream, text_length, behind, deliver}
use my_testserver.Server.Segments.{IsCut}

-- A read that brings bytes: what happens on other connections and on the timer before it, its time,
-- the first byte and the others. (A read of none is the end of the stream.)
pub record Read : Type 0 where
  pub meanwhile : List Other
  pub time : ℕ
  pub first : ℕ
  pub others : Bytes

abbrev pub came : Read → Bytes
came r = r.first ∷ r.others

abbrev pub joined : List Read → Bytes
joined [] = []
joined (r ∷ more) = (came r) ++ joined more

-- Nothing of it happens on the connection itself.
abbrev pub AreBeside : ℕ → List Read → Type 0
AreBeside conn [] = Unit {0}
AreBeside conn (r ∷ more) = (all_beside conn r.meanwhile ≡ true) × AreBeside conn more

-- The messages that are handled at a read.
abbrev pub Group : Type 0
Group = Read × List Text

abbrev pub all_texts : List Group → List Text
all_texts [] = []
all_texts (g ∷ more) = g.1 ++ all_texts more

-- The groups that the reads complete, one for each: the messages whose frames are whole
-- with its bytes, `held` being the bytes that waited for it. What is left waits for the next
-- read, and is `rest` at the end.
abbrev pub AreCompleted : Bytes → List Read → List Group → Bytes → Type 0
AreCompleted held [] [] rest = held ≡ rest
AreCompleted held [] (g ∷ groups) rest = ⊥
AreCompleted held (r ∷ reads) [] rest = ⊥
AreCompleted held (r ∷ reads) (g ∷ groups) rest =
    (next : Bytes) × (g.0 ≡ r)
    × (held ++ (came r) ≡ stream g.1 ++ next)
    × IsCut next
    × AreCompleted next reads groups rest

pub behind-IsValid : (b : Buffer) (texts : List Text) → IsValid b → IsValid (behind b texts)
behind-IsValid b [] v = v
behind-IsValid b (t ∷ ts) v =
    behind-IsValid (retrieve b (text_length t)) ts (retrieve-IsValid (text_length t) v)

pub length-behind :
    (b : Buffer) (texts : List Text) → length (behind b texts).store ≡ length b.store
length-behind b [] = refl
length-behind b (t ∷ ts) =
    length-behind (retrieve b (text_length t)) ts ∙ length-retrieve b (text_length t)

module _ {Db : Type 0} where
  imply-Ends :
      {P Q : Server Db → Type 0} (m : Outcome (Server Db))
      → ((s : Server Db) → P s → Q s)
      → Ends P m
      → Ends Q m
  imply-Ends (done s) k h = k s h
  imply-Ends thrown k h = tt
  imply-Ends exited k h = tt
  imply-Ends out_of_fuel k h = tt

  pub bind_done :
      {C : Type 0} (m : Outcome (Server Db)) (b : Buffer) (f : Server Db × Buffer → Outcome C)
      → (◌>>=◌ {B = Server Db × Buffer} m (λ s. done (s, b)) >>= f) ≡ (m >>= λ s. f (s, b))
  bind_done (done s) b f = refl
  bind_done thrown b f = refl
  bind_done exited b f = refl
  bind_done out_of_fuel b f = refl

  pub bind_open :
      {C : Type 0} (conn : ℕ) (m : Outcome (Server Db)) (f g : Server Db → Outcome C)
      → StaysOpen conn m
      → ((s : Server Db) → speaks_websocket s conn ≡ true → f s ≡ g s)
      → (m >>= f) ≡ (m >>= g)
  bind_open conn (done s) f g h e = e s h
  bind_open conn thrown f g h e = refl
  bind_open conn exited f g h e = refl
  bind_open conn out_of_fuel f g h e = refl

module _ (platform : Platform) where
  open platform use {Db}

  -- Each read in turn, up to an exception. `fuel` is for the loop of each onMessage.
  abbrev pub receive : ℕ → Bytes → Server Db → ℕ → Buffer → List Read → Outcome (Server Db × Buffer)
  receive fuel stale s conn b [] = done (s, b)
  receive fuel stale s conn b (r ∷ more) = all_happen platform fuel s r.meanwhile >>= λ s₁.
      on_message platform fuel stale s₁ conn (read_fd b (moved (came r))) r.time >>= λ next.
      receive fuel stale next.0 conn next.1 more

  -- The handler on the messages of each group, at the time of its read.
  abbrev pub deliver_groups : ℕ → Server Db → ℕ → List Group → Outcome (Server Db)
  deliver_groups fuel s conn [] = done s
  deliver_groups fuel s conn (g ∷ more) = all_happen platform fuel s g.0.meanwhile >>= λ s₁.
      deliver platform s₁ conn g.1 g.0.time >>= λ s'. deliver_groups fuel s' conn more

  pub meanwhile-StaysOpen :
      (fuel : ℕ) (s : Server Db) (conn : ℕ) (os : List Other)
      → all_beside conn os ≡ true
      → speaks_websocket s conn ≡ true
      → StaysOpen conn (all_happen platform fuel s os)
  meanwhile-StaysOpen fuel s conn os apart h =
      imply-Ends (all_happen platform fuel s os)
        (λ t k.
          ap (λ found. (found_state found).is_websocket && (found_state found).handshake_complete) k
          ∙ h)
        (all_happen-Finds platform fuel conn (get s.states conn) s os apart refl)

  pub deliver-StaysOpen :
      (s : Server Db) (conn : ℕ) (texts : List Text) (now : ℕ)
      → speaks_websocket s conn ≡ true
      → StaysOpen conn (deliver platform s conn texts now)
  unfolding deliver
  deliver-StaysOpen s conn [] now h = h
  deliver-StaysOpen s conn (t ∷ ts) now h =
      bind-Ends (λ s'. Speaks conn s'.states) (λ s'. Speaks conn s'.states)
        (handle_websocket_message platform s conn t.body now) _
        (handler-StaysOpen platform s conn t.body now h)
        (λ s' k. deliver-StaysOpen s' conn ts now k)
