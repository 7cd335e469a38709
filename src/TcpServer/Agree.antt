-- ===== src/TcpServer/Agree.antt =====
-- The server against the book, one event at a time.
use my_testserver.Prelude.{
  ℕ, suc, ◌+◌, ◌^◌, ◌%◌, ◌<◌, ◌≤◌, ◌≡◌, refl, sym, ap, ap₂, subst, ◌∙◌, true, Option, none, some,
  List, [], ◌∷◌, ◌++◌, length, Bytes, ◌==◌, ==_iff, eqb_iff, eqb, if◌then◌else◌, arith,
}
use my_testserver.Prelude.Assoc.{
  get, assign, Distinct, get-assign, get-erase, assign-Distinct, erase-Distinct,
}
use my_testserver.Prelude.Keys.{bytes_keys}
use my_testserver.ThreadPool.{EventLoopThreadPool, get_next_loop}
use my_testserver.ThreadPool.Turns.{advance, running, get_next_loop_turns}
use my_testserver.TcpServer.{
  TcpConnection, establishes, destroys, TcpServer, conn_name, new_connection, handle_accept,
  remove_connection_in_loop,
}
use my_testserver.TcpServer.Names.{conn_name_injective}
use my_testserver.TcpServer.Book.{
  Event, accepts, ends, step, end_found, run, Book, enters, strikes, strike_found, note, keep_book,
  InRange, accepted,
}

module _ (s₀ : TcpServer) (base n : ℕ) (init : Option ℕ) (start_loop : ℕ → ℕ)
    (short : length s₀.ip_port ≤ 21) (some_loops : 0 < n) where
  abbrev pub loop_of : ℕ → ℕ
  loop_of k = start_loop (k % n)

  -- The server and the book agree.
  pub record Agrees (s : TcpServer) (b : Book) : Type 0 where
    pub same_name : s.name ≡ s₀.name
    pub same_ip_port : s.ip_port ≡ s₀.ip_port
    pub same_user : s.user ≡ s₀.user
    pub called : s.acceptor.has_callback ≡ true
    pub next_id : s.next_conn_id ≡ b.count + 1
    pub turn : s.pool ≡ advance (running base n init start_loop) b.count
    pub same_asked : s.asked ≡ b.asked
    pub distinct : Distinct s.connections
    pub looks : (id : ℕ) → id < 2 ^ 31 → get s.connections (conn_name s₀ id) ≡ b.live id
    pub named :
        (id : ℕ) (conn : TcpConnection) → b.live id ≡ some conn → conn.name ≡ conn_name s₀ id

  same_names : (s : TcpServer) (b : Book) (id : ℕ) → Agrees s b → conn_name s id ≡ conn_name s₀ id
  unfolding conn_name
  same_names s b id a =
      ap₂ (λ name ip_port. conn_name (record s₀ { name = name; ip_port = ip_port }) id) a.same_name
        a.same_ip_port

  -- Names are the same exactly if the numbers are.
  names_iff : (i j : ℕ) → i < 2 ^ 31 → j < 2 ^ 31 → eqb (conn_name s₀ i) (conn_name s₀ j) ≡ (j == i)
  names_iff i j hi hj = ground (
    arith,
    eqb_iff (conn_name s₀ i) (conn_name s₀ j),
    conn_name_injective s₀ i j short hi hj,
    ap (conn_name s₀) {x = i} {y = j},
    ==_iff j i,
  )

  -- A new connection that is made with a given loop and name.
  abbrev made : TcpServer → EventLoopThreadPool → TcpConnection → TcpServer
  made s pool conn = record s {
    pool = pool;
    next_conn_id = s.next_conn_id + 1;
    connections = assign s.connections conn.name conn;
    asked = s.asked ++ ((conn.loop, establishes conn) ∷ []);
  }

  abbrev next_conn : Book → ℕ → Bytes → TcpConnection
  next_conn b sockfd peer_addr = record {
    loop = loop_of b.count;
    name = conn_name s₀ (b.count + 1);
    sockfd = sockfd;
    peer_addr = peer_addr;
    user = s₀.user;
  }

  new_connection_lem :
      (s : TcpServer) (b : Book) (sockfd : ℕ) (peer_addr : Bytes)
      → Agrees s b
      → new_connection s sockfd peer_addr
        ≡ made s (get_next_loop s.pool).1 (next_conn b sockfd peer_addr)
  unfolding new_connection
  new_connection_lem s b sockfd peer_addr a =
      ap₂
        (λ loop name. made s (get_next_loop s.pool).1 (record {
          loop = loop;
          name = name;
          sockfd = sockfd;
          peer_addr = peer_addr;
          user = s.user;
        }))
        (ap (λ pool. (get_next_loop pool).0) a.turn
          ∙ get_next_loop_turns base n b.count init start_loop some_loops)
        (same_names s b s.next_conn_id a ∙ ap (conn_name s₀) a.next_id)
      ∙ ap
          (λ user.
            made s (get_next_loop s.pool).1 (record (next_conn b sockfd peer_addr) { user = user }))
          a.same_user

  made-Agrees :
      (s : TcpServer) (b : Book) (sockfd : ℕ) (peer_addr : Bytes)
      → Agrees s b
      → b.count + 1 < 2 ^ 31
      → Agrees
          (made s (get_next_loop s.pool).1 (next_conn b sockfd peer_addr))
          (enters (conn_name s₀) loop_of s₀.user b sockfd peer_addr)
  unfolding advance
  made-Agrees s b sockfd peer_addr a small = record {
    same_name = a.same_name;
    same_ip_port = a.same_ip_port;
    same_user = a.same_user;
    called = a.called;
    next_id = ap (λ k. k + 1) a.next_id;
    turn =
        ap (λ pool. (get_next_loop pool).1) a.turn
        ∙ ap (advance (running base n init start_loop)) {x = suc b.count} (omega arith);
    same_asked =
        ap (λ asked. asked ++ ((loop_of b.count, establishes (next_conn b sockfd peer_addr)) ∷ []))
          a.same_asked;
    distinct = assign-Distinct s.connections _ _ a.distinct;
    looks = λ id h.
        get-assign s.connections (conn_name s₀ (b.count + 1)) (conn_name s₀ id)
          (next_conn b sockfd peer_addr)
        ∙ ap₂ (λ same found. if same then some (next_conn b sockfd peer_addr) else found)
            (names_iff (b.count + 1) id small h) (a.looks id h);
    named = λ id conn h. ground (arith, ==_iff id (b.count + 1), a.named id conn);
  }

  removed-Agrees :
      (s : TcpServer) (b : Book) (id : ℕ) (conn : TcpConnection)
      → Agrees s b
      → id < 2 ^ 31
      → b.live id ≡ some conn
      → Agrees (remove_connection_in_loop s conn) (strikes (conn_name s₀) loop_of s₀.user b id conn)
  unfolding remove_connection_in_loop
  removed-Agrees s b id conn a small h =
      let same = a.named id conn h in
      record {
        same_name = a.same_name;
        same_ip_port = a.same_ip_port;
        same_user = a.same_user;
        called = a.called;
        next_id = a.next_id;
        turn = a.turn;
        same_asked = ap (λ asked. asked ++ ((conn.loop, destroys conn) ∷ [])) a.same_asked;
        distinct = erase-Distinct s.connections conn.name a.distinct;
        looks = λ j k.
            get-erase s.connections conn.name (conn_name s₀ j) a.distinct
            ∙ ap₂ (λ same found. if same then none else found)
                (ap (λ name. eqb name (conn_name s₀ j)) same ∙ names_iff id j small k)
                (a.looks j k);
        named = λ j other k. ground (arith, a.named j other);
      }

  accepting :
      (s : TcpServer) (sockfd : ℕ) (peer_addr : Bytes)
      → s.acceptor.has_callback ≡ true
      → handle_accept s (some (sockfd, peer_addr)) ≡ new_connection s sockfd peer_addr
  unfolding handle_accept
  accepting s sockfd peer_addr called =
      ap
        (λ b. if b then new_connection s sockfd peer_addr else record s {
          acceptor = record s.acceptor { closed = s.acceptor.closed ++ (sockfd ∷ []) };
        })
        called

  step-Agrees :
      (s : TcpServer) (b : Book) (e : Event)
      → Agrees s b
      → InRange (e ∷ [])
      → b.count + accepted (e ∷ []) < 2 ^ 31
      → Agrees (step s e) (note (conn_name s₀) loop_of s₀.user b e)
  unfolding step handle_accept note
  step-Agrees s b (accepts none) a r h = a
  step-Agrees s b (accepts (some (sockfd, peer_addr))) a r h =
      subst (λ t. Agrees t (enters (conn_name s₀) loop_of s₀.user b sockfd peer_addr))
        (sym (accepting s sockfd peer_addr a.called ∙ new_connection_lem s b sockfd peer_addr a))
        (made-Agrees s b sockfd peer_addr a h)
  step-Agrees s b (ends id) a (r, t) h =
      let looked = ap (get s.connections) (same_names s b id a) ∙ a.looks id r in
      subst
        (λ found.
          Agrees (end_found s found) (strike_found (conn_name s₀) loop_of s₀.user b id (b.live id)))
        (sym looked) (found-Agrees (b.live id) refl)
    where
      found-Agrees :
          (found : Option TcpConnection)
          → b.live id ≡ found
          → Agrees (end_found s found) (strike_found (conn_name s₀) loop_of s₀.user b id found)
      found-Agrees none e = a
      found-Agrees (some conn) e = removed-Agrees s b id conn a r e

  note-count :
      (b : Book) (e : Event)
      → (note (conn_name s₀) loop_of s₀.user b e).count ≤ b.count + accepted (e ∷ [])
  unfolding note
  note-count b (accepts none) = omega arith
  note-count b (accepts (some r)) = omega arith
  note-count b (ends id) = ground arith

  pub run-Agrees :
      (s : TcpServer) (b : Book) (es : List Event)
      → Agrees s b
      → InRange es
      → b.count + accepted es < 2 ^ 31
      → Agrees (run s es) (keep_book (conn_name s₀) loop_of s₀.user b es)
  unfolding run keep_book
  run-Agrees s b [] a r h = a
  run-Agrees s b (accepts none ∷ es) a r h =
      run-Agrees (step s (accepts none)) (note (conn_name s₀) loop_of s₀.user b (accepts none)) es
        (step-Agrees s b (accepts none) a tt (omega arith)) r
        (omega (arith, note-count b (accepts none)))
  run-Agrees s b (accepts (some from) ∷ es) a r h =
      run-Agrees (step s (accepts (some from)))
        (note (conn_name s₀) loop_of s₀.user b (accepts (some from))) es
        (step-Agrees s b (accepts (some from)) a tt (omega arith)) r
        (omega (arith, note-count b (accepts (some from))))
  run-Agrees s b (ends id ∷ es) a (r, rs) h =
      run-Agrees (step s (ends id)) (note (conn_name s₀) loop_of s₀.user b (ends id)) es
        (step-Agrees s b (ends id) a (r, tt) (omega arith)) rs
        (omega (arith, note-count b (ends id)))
