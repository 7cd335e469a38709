-- ===== src/Service/Chat.antt =====
-- handleChat of ChatService.cpp: who gets a chat message.
use my_testserver.Prelude.{
  ℕ, ◌^◌, ◌<◌, ◌≡◌, refl, sym, inl, inr, Bool, true, false, not, ◌&&◌, Option, none, some, [], ◌++◌,
  Bytes, is_empty, arith, length, if◌then◌else◌, Bool-cases,
}
use my_testserver.Platform.{Platform}
use my_testserver.Dao.{User, get_user_by_username}
use my_testserver.Frame.{encode_frame}
use my_testserver.Frame.Wire.{wire}
use my_testserver.Frame.Parse.{encode_frame-wire}
use my_testserver.Session.{is_online}
use my_testserver.Session.Laws.{reached, copies, broadcast_to_all_lem}
use my_testserver.Service.{Service, post, handle_chat, broadcast_message}

abbrev pub is_found : Option User → Bool
is_found none = false
is_found (some user) = true

module _ (platform : Platform) where
  open platform use {Db}

  abbrev found : Service Db → Bytes → Option User × Db
  found s sender = get_user_by_username platform s.users_linked s.db sender

  -- Whether a message of `sender` is passed on.
  abbrev pub passes : Service Db → Bytes → Bytes → Bool
  passes s sender content =
      not (is_empty content) && (is_online s.sessions sender && is_found (found s sender).0)

  post-net :
      (s : Service Db) (sender content : Bytes) (now : ℕ) (user : Option User)
      → (post platform s sender content now user).net ≡ (
          if is_found user
          then record s.net {
            sent =
                s.net.sent
                ++ copies
                    (encode_frame (broadcast_message platform sender content now))
                    (reached s.net.state [] s.sessions);
          }
          else s.net)
  unfolding post
  post-net s sender content now none = refl
  post-net s sender content now (some user) =
      broadcast_to_all_lem s.net s.sessions
        (encode_frame (broadcast_message platform sender content now)) []

  -- handleChat sends the broadcast, as one unmasked text frame of RFC 6455, once to every
  -- connected user if the content is not empty, the sender is online and the database has the
  -- sender, and sends nothing otherwise; it needs a message shorter than 2^64 bytes.
  pub handle_chat-net :
      (s : Service Db) (sender content : Bytes) (now : ℕ)
      → length (broadcast_message platform sender content now) < 2 ^ 64
      → (handle_chat platform s sender content now).net ≡ (
          if passes s sender content
          then record s.net {
            sent =
                s.net.sent
                ++ copies
                    (wire true 1 none (broadcast_message platform sender content now))
                    (reached s.net.state [] s.sessions);
          }
          else s.net)
  unfolding handle_chat
  handle_chat-net s sender content now h =
      rw (sym (encode_frame-wire (broadcast_message platform sender content now) h))
        (elim (Bool-cases (is_empty content)) [
          | inl e ↦ rw e refl
          | inr e ↦ elim (Bool-cases (is_online s.sessions sender)) [
            | inl o ↦
                rw (e, o)
                  (post-net (record s { db = (found s sender).1 }) sender content now
                    (found s sender).0)
            | inr o ↦ rw (e, o) refl
          ]
        ])

  post-sessions :
      (s : Service Db) (sender content : Bytes) (now : ℕ) (user : Option User)
      → (post platform s sender content now user).sessions ≡ s.sessions
  unfolding post
  post-sessions s sender content now none = refl
  post-sessions s sender content now (some user) = refl

  pub handle_chat-sessions :
      (s : Service Db) (sender content : Bytes) (now : ℕ)
      → (handle_chat platform s sender content now).sessions ≡ s.sessions
  unfolding handle_chat
  handle_chat-sessions s sender content now = ground (
    arith,
    post-sessions (record s { db = (found s sender).1 }) sender content now (found s sender).0,
  )
