-- ===== src/Server/Segments.antt =====
-- A byte stream of text frames that TCP hands over in arbitrary pieces: `Buffer::readFd` and
-- `ChatServer::onMessage` once for each piece.
use my_testserver.Prelude.{
  ℕ, ◌+◌, ◌≤◌, ◌<◌, ◌≡◌, ◌≢◌, refl, sym, ap, ◌∙◌, inl, inr, true, some, List, [], ◌∷◌, ◌++◌, arith,
  length, Bytes, take, drop, length-append, length-take, append_assoc, append-nil, take-append-drop,
  take-append_le, take-append_self, drop-append_self, take-take, drop-append_le, leb, Bool-cases,
}
use my_testserver.Frame.{parse_frame, parsed, rejected}
use my_testserver.Frame.Parse.{parse_frame-wire, length-wire, frame_of}
use my_testserver.Frame.Stream.{parse_frame-prefix}
use my_testserver.Server.Deliver.{Text, IsText, AreTexts, stream, text_wire, text_length}

-- The first bytes of a text frame, none of them included, but not the whole frame.
pub record IsCut (bytes : Bytes) : Type 0 where
  pub of : Text
  pub ok : IsText of
  pub count : ℕ
  pub missing : count < text_length of
  pub same : bytes ≡ take count (text_wire of)

length-text_wire : (t : Text) → length (text_wire t) ≡ text_length t
length-text_wire t = length-wire true 1 (some t.key) t.body

pub cut-rejected : (stale bytes : Bytes) → IsCut bytes → parse_frame stale bytes ≡ rejected
cut-rejected stale bytes c =
    ap (parse_frame stale) c.same
    ∙ parse_frame-prefix stale true 1 (some c.of.key) c.of.body c.count (inl refl) c.ok.0 c.ok.2
        c.missing

-- A cut frame does not start with a whole one.
pub cut-not_whole :
    (bytes : Bytes) (t : Text) (rest : Bytes) → IsCut bytes → IsText t → bytes ≢ text_wire t ++ rest
cut-not_whole bytes t rest c ok e = rejected≢parsed (
    sym (cut-rejected [] bytes c)
    ∙ ap (parse_frame []) e
    ∙ parse_frame-wire [] true 1 (some t.key) t.body rest (inl refl) ok.0 ok.2)
  where
    rejected≢parsed : rejected ≢ parsed (frame_of [] true 1 (some t.key) t.body)
    rejected≢parsed e = cc

-- What comes first of two parts of a list.
module _ {ℓ} {A : Type ℓ} where
  first_part :
      (xs ys zs ws : List A)
      → xs ++ ys ≡ zs ++ ws
      → length xs ≤ length zs
      → xs ≡ take (length xs) zs
  first_part xs ys zs ws e h =
      sym (take-append_self xs ys) ∙ ap (take (length xs)) e ∙ take-append_le (length xs) zs ws h

  second_part :
      (xs ys zs ws : List A)
      → xs ++ ys ≡ zs ++ ws
      → length zs ≤ length xs
      → drop (length zs) xs ++ ys ≡ ws
  second_part xs ys zs ws e h =
      sym (drop-append_le (length zs) xs ys h) ∙ ap (drop (length zs)) e ∙ drop-append_self zs ws

  whole_part :
      (xs ys zs ws : List A)
      → xs ++ ys ≡ zs ++ ws
      → length zs ≤ length xs
      → xs ≡ zs ++ drop (length zs) xs
  whole_part xs ys zs ws e h =
      sym (take-append-drop (length zs) xs)
      ∙ ap (λ t. t ++ drop (length zs) xs)
          (sym (take-append_le (length zs) xs ys h)
            ∙ ap (take (length zs)) e
            ∙ take-append_self zs ws)

-- The frames that are complete in the first bytes of a stream, and the others.
pub record Split (bytes later : Bytes) (texts : List Text) (rest : Bytes) : Type 0 where
  pub complete : List Text
  pub others : List Text
  pub pending : Bytes
  pub together : complete ++ others ≡ texts
  pub complete_ok : AreTexts complete
  pub others_ok : AreTexts others
  pub fewer : length complete ≤ length texts
  pub cut : IsCut pending
  pub held : bytes ≡ stream complete ++ pending
  pub coming : pending ++ later ≡ stream others ++ rest

-- Where no frame is complete.
none_complete :
    (texts : List Text) (bytes later rest : Bytes)
    → AreTexts texts
    → IsCut bytes
    → bytes ++ later ≡ stream texts ++ rest
    → Split bytes later texts rest
none_complete texts bytes later rest ok c e = record {
  complete = [];
  others = texts;
  pending = bytes;
  together = refl;
  complete_ok = tt;
  others_ok = ok;
  fewer = omega arith;
  cut = c;
  held = refl;
  coming = e;
}

-- Fewer bytes of a cut frame.
shorter-IsCut : (bytes later rest : Bytes) → IsCut rest → bytes ++ later ≡ rest → IsCut bytes
shorter-IsCut bytes later rest c e = record {
  of = c.of;
  ok = c.ok;
  count = length bytes;
  missing = omega (arith, fits, c.missing);
  same =
      first_part bytes later rest [] (e ∙ sym (append-nil rest)) (omega (arith, sizes))
      ∙ ap (take (length bytes)) c.same
      ∙ take-take (length bytes) c.count (text_wire c.of) fits;
}
  where
    sizes : length bytes + length later ≡ length rest
    sizes = sym (length-append bytes later) ∙ ap length e

    fits : length bytes ≤ c.count
    fits = omega (arith, sizes, ap length c.same, length-take c.count (text_wire c.of))

start-IsCut :
    (t : Text) (bytes later others : Bytes)
    → IsText t
    → bytes ++ later ≡ text_wire t ++ others
    → length bytes < text_length t
    → IsCut bytes
start-IsCut t bytes later others ok e h = record {
  of = t;
  ok = ok;
  count = length bytes;
  missing = h;
  same = first_part bytes later (text_wire t) others e (omega (arith, length-text_wire t));
}

-- A complete frame before the others.
one_more :
    (t : Text) (ts : List Text) (bytes others later rest : Bytes)
    → IsText t
    → bytes ≡ text_wire t ++ others
    → Split others later ts rest
    → Split bytes later (t ∷ ts) rest
one_more t ts bytes others later rest ok e s = record {
  complete = t ∷ s.complete;
  others = s.others;
  pending = s.pending;
  together = ap (◌∷◌ t) s.together;
  complete_ok = (ok, s.complete_ok);
  others_ok = s.others_ok;
  fewer = omega (arith, s.fewer);
  cut = s.cut;
  held =
      e
      ∙ ap (λ x. text_wire t ++ x) s.held
      ∙ sym (append_assoc (text_wire t) (stream s.complete) s.pending);
  coming = s.coming;
}

pub stream-Split :
    (texts : List Text) (bytes later rest : Bytes)
    → AreTexts texts
    → IsCut rest
    → bytes ++ later ≡ stream texts ++ rest
    → Split bytes later texts rest
stream-Split [] bytes later rest ok c e =
    none_complete [] bytes later rest ok (shorter-IsCut bytes later rest c e) e
stream-Split (t ∷ ts) bytes later rest ok c e =
    let e' = e ∙ append_assoc (text_wire t) (stream ts) rest in
    let size = length-text_wire t in
    elim (Bool-cases (leb (length (text_wire t)) (length bytes))) [
      | inl h ↦
          let fits : length (text_wire t) ≤ length bytes = ground arith in
          one_more t ts bytes (drop (length (text_wire t)) bytes) later rest ok.0
            (whole_part bytes later (text_wire t) (stream ts ++ rest) e' fits)
            (stream-Split ts (drop (length (text_wire t)) bytes) later rest ok.1 c
              (second_part bytes later (text_wire t) (stream ts ++ rest) e' fits))
      | inr h ↦
          none_complete (t ∷ ts) bytes later rest ok
            (start-IsCut t bytes later (stream ts ++ rest) ok.0 e' (ground (arith, size))) e
    ]
