-- ===== src/Server/Delivery.antt =====
-- However a byte stream of text frames is cut into reads, each message is handled once.
use my_testserver.Prelude.{
  ℕ, ◌+◌, ◌^◌, ◌<◌, ◌≡◌, refl, sym, ap, subst, ◌∙◌, true, List, [], ◌∷◌, ◌++◌, arith, length, Bytes,
  length-append, append_assoc, append-nil,
}
use my_testserver.Platform.{Platform}
use my_testserver.Buffer.{Buffer, readable, retrieve, read_fd, moved}
use my_testserver.Buffer.Valid.{IsValid, HasPut, retrieve-IsValid, read_fd-HasPut}
use my_testserver.Server.{Server, done, ◌>>=◌, on_message}
use my_testserver.Prelude.Keys.{number_keys}
use my_testserver.Server.Others.{all_beside, all_happen}
use my_testserver.Server.Loop.{speaks_websocket}
use my_testserver.Server.Keeps.{seen_same}
use my_testserver.Server.Deliver.{
  Text, AreTexts, stream, text_length, text_wire, behind, deliver, bind_assoc, readable_behind,
  on_message-deliver,
}
use my_testserver.Server.Segments.{IsCut, Split, stream-Split, cut-rejected, cut-not_whole}
use my_testserver.Server.Reads.{
  came, Read, joined, AreBeside, Group, all_texts, AreCompleted, behind-IsValid, length-behind,
  bind_done, bind_open, receive, deliver_groups, meanwhile-StaysOpen, deliver-StaysOpen,
}

module _ (platform : Platform) where
  open platform use {Db}

  record Delivery (reads : List Read) (texts : List Text) (rest : Bytes) (fuel : ℕ) (stale : Bytes)
      (conn : ℕ) (b : Buffer) : Type 0 where
    groups : List Group
    left : Buffer
    arrived : AreCompleted (readable b) reads groups rest
    in_order : all_texts groups ≡ texts
    holds : readable left ≡ rest
    runs :
        (s : Server Db)
        → speaks_websocket s conn ≡ true
        → receive platform fuel stale s conn b reads
          ≡ (deliver_groups platform fuel s conn groups >>= λ s'. done (s', left))

  no_texts :
      (texts : List Text) (bytes rest : Bytes)
      → AreTexts texts
      → IsCut bytes
      → bytes ≡ stream texts ++ rest
      → (texts ≡ []) × (bytes ≡ rest)
  no_texts [] bytes rest ok c e = (refl, e)
  no_texts (t ∷ ts) bytes rest ok c e = absurd (
      cut-not_whole bytes t (stream ts ++ rest) c ok.0
        (e ∙ append_assoc (text_wire t) (stream ts) rest))

  readable-behind :
      (texts : List Text) (rest : Bytes) (b : Buffer)
      → IsValid b
      → readable b ≡ stream texts ++ rest
      → readable (behind b texts) ≡ rest
  readable-behind [] rest b v e = e
  readable-behind (t ∷ ts) rest b v e =
      readable-behind ts rest (retrieve b (text_length t)) (retrieve-IsValid (text_length t) v) (
        readable_behind platform b t (stream ts ++ rest) v
          (e ∙ append_assoc (text_wire t) (stream ts) rest))

  -- One read, and the rest of them.
  one_read :
      (r : Read) (more : List Read) (texts : List Text) (rest : Bytes) (fuel : ℕ) (stale : Bytes)
      (conn : ℕ) (b : Buffer)
      → HasPut b (read_fd b (moved (came r))) (came r)
      → (c : Split (readable (read_fd b (moved (came r)))) (joined more) texts rest)
      → readable (behind (read_fd b (moved (came r))) c.complete) ≡ c.pending
      → all_beside conn r.meanwhile ≡ true
      → length texts < fuel
      → Delivery more c.others rest fuel stale conn (behind (read_fd b (moved (came r))) c.complete)
      → Delivery (r ∷ more) texts rest fuel stale conn b
  one_read r more texts rest fuel stale conn b p c kept apart enough d = record {
    groups = (r, c.complete) ∷ d.groups;
    left = d.left;
    arrived = (
      c.pending,
      refl,
      sym p.holds ∙ c.held,
      c.cut,
      subst (λ t. AreCompleted t more d.groups rest) kept d.arrived,
    );
    in_order = ap (λ t. c.complete ++ t) d.in_order ∙ c.together;
    holds = d.holds;
    runs = λ s h.
        bind_open conn (all_happen platform fuel s r.meanwhile) _ _
          (meanwhile-StaysOpen platform fuel s conn r.meanwhile apart h) at_read
        ∙ bind_assoc platform (all_happen platform fuel s r.meanwhile) _ d.left;
  }
    where
      b₁ : Buffer
      b₁ = read_fd b (moved (came r))

      at_read :
          (s : Server Db)
          → speaks_websocket s conn ≡ true
          → (on_message platform fuel stale s conn b₁ r.time >>= λ next.
              receive platform fuel stale next.0 conn next.1 more)
            ≡ (◌>>=◌ {B = Server Db}
                  (deliver platform s conn c.complete r.time)
                  (λ s'. deliver_groups platform fuel s' conn d.groups)
                >>= λ s'. done (s', d.left))
      at_read s h =
          let handed =
            on_message-deliver platform c.complete c.pending fuel stale s conn b₁ r.time h
              c.complete_ok p.valid c.held (cut-rejected stale c.pending c.cut)
              (omega (arith, c.fewer, enough)) in
          ap (λ m. m >>= λ next. receive platform fuel stale next.0 conn next.1 more)
            (handed.1
              ∙ ap
                  (λ t. deliver platform t conn c.complete r.time >>= λ s'.
                    done (s', behind b₁ c.complete))
                  (seen_same s conn h))
          ∙ bind_done (deliver platform s conn c.complete r.time) (behind b₁ c.complete)
              (λ next. receive platform fuel stale next.0 conn next.1 more)
          ∙ bind_open conn (deliver platform s conn c.complete r.time) _ _
              (deliver-StaysOpen platform s conn c.complete r.time h) (λ s' k. d.runs s' k)
          ∙ bind_assoc platform (deliver platform s conn c.complete r.time)
              (λ s'. deliver_groups platform fuel s' conn d.groups) d.left

  deliver_reads :
      (reads : List Read) (texts : List Text) (rest : Bytes) (fuel : ℕ) (stale : Bytes) (conn : ℕ)
      (b : Buffer)
      → AreBeside conn reads
      → AreTexts texts
      → IsValid b
      → IsCut (readable b)
      → IsCut rest
      → readable b ++ joined reads ≡ stream texts ++ rest
      → length b.store + length (joined reads) < 2 ^ 63
      → length texts < fuel
      → Delivery reads texts rest fuel stale conn b
  deliver_reads [] texts rest fuel stale conn b apart ok v start end e room enough =
      let empty = no_texts texts (readable b) rest ok start (sym (append-nil (readable b)) ∙ e) in
      record {
        groups = [];
        left = b;
        arrived = empty.1;
        in_order = sym empty.0;
        holds = empty.1;
        runs = λ s h. refl;
      }
  deliver_reads (r ∷ more) texts rest fuel stale conn b apart ok v start end e room enough =
      let size = length-append (came r) (joined more) in
      let p = read_fd-HasPut (came r) v (omega (arith, room, size)) in
      let s = stream-Split texts (readable (read_fd b (moved (came r)))) (joined more) rest ok end (
        ap (λ t. t ++ joined more) p.holds
        ∙ append_assoc (readable b) (came r) (joined more)
        ∙ e) in
      let kept = readable-behind s.complete s.pending (read_fd b (moved (came r))) p.valid s.held in
      one_read r more texts rest fuel stale conn b p s kept apart.0 (omega (arith, enough)) (
        deliver_reads more s.others rest fuel stale conn
          (behind (read_fd b (moved (came r))) s.complete) apart.1 s.others_ok
          (behind-IsValid (read_fd b (moved (came r))) s.complete p.valid)
          (subst IsCut (sym kept) s.cut) end (ap (λ t. t ++ joined more) kept ∙ s.coming)
          (omega
            (arith, length-behind (read_fd b (moved (came r))) s.complete, p.grown, size, room))
          (omega (arith, enough, ap length s.together, length-append s.complete s.others)))

  -- However the byte stream of complete text frames of a client (final, masked, not empty, of a
  -- size that can be stored), with the start of one more behind them or not, is cut into reads
  -- of one byte or more, and whatever happens between the reads on other connections (messages,
  -- connections that come and go) and on the timer, the messages are handled exactly once each
  -- and in the order sent, each at the time of the read that completes its frame, up to an
  -- exception, and the bytes of the frame that is not complete are left in the buffer; the
  -- connection has shaken hands, the buffer is valid, starts with at most a part of a frame, and
  -- stays below 2^63 bytes; the fuel, also that of the events between, is above the number of
  -- messages.
  pub receive-deliver :
      (reads : List Read) (texts : List Text) (rest : Bytes) (fuel : ℕ) (stale : Bytes)
      (s : Server Db) (conn : ℕ) (b : Buffer)
      → speaks_websocket s conn ≡ true
      → AreBeside conn reads
      → AreTexts texts
      → IsValid b
      → IsCut (readable b)
      → IsCut rest
      → readable b ++ joined reads ≡ stream texts ++ rest
      → length b.store + length (joined reads) < 2 ^ 63
      → length texts < fuel
      → (groups : List Group) × (left : Buffer) × AreCompleted (readable b) reads groups rest
        × (all_texts groups ≡ texts)
        × (readable left ≡ rest)
        × (receive platform fuel stale s conn b reads
            ≡ (deliver_groups platform fuel s conn groups >>= λ s'. done (s', left)))
  receive-deliver reads texts rest fuel stale s conn b h apart ok v start end e room enough =
      let d = deliver_reads reads texts rest fuel stale conn b apart ok v start end e room enough in
      (d.groups, d.left, d.arrived, d.in_order, d.holds, d.runs s h)
