-- ===== src/Buffer/Valid.antt =====
-- The representation invariant of a buffer, and how the writing operations act on it.
use my_testserver.Prelude.{
  ℕ, ◌+◌, ◌-◌, ◌^◌, ◌≤◌, ◌<◌, ◌≡◌, refl, sym, ap, subst, ◌∙◌, append_assoc, take-append-drop, leb,
  inl, inr, Bool, ◌++◌, ltb, Bool-cases, arith, Bytes, length, length-take, length-drop,
  length-replicate, write_at, resize, drop, take,
}
use my_testserver.Prelude.Words.{add_size, sub_size}
use my_testserver.Prelude.Splice.{length-write_at, length-resize, window-resize, window-write_at}
use my_testserver.Buffer.{
  Buffer, new, readable_bytes, writable_bytes, prependable_bytes, cheap_prepend, readable, retrieve,
  make_space, ensure_writeable_bytes, put, append, read_fd, moved,
}

pub record IsValid (b : Buffer) : Type 0 where
  pub prepend : 8 ≤ b.reader_index
  pub ordered : b.reader_index ≤ b.writer_index
  pub within : b.writer_index ≤ length b.store
  pub small : length b.store < 2 ^ 63

-- No index arithmetic of a valid buffer wraps.
pub no_wrap :
    {b : Buffer}
    → IsValid b
    → (readable_bytes b ≡ b.writer_index - b.reader_index)
      × (writable_bytes b ≡ length b.store - b.writer_index)
no_wrap v = omega arith

pub length-readable :
    (b : Buffer) → IsValid b → length (readable b) ≡ b.writer_index - b.reader_index
unfolding readable
length-readable b v = omega (
  arith,
  length-take (readable_bytes b) (drop b.reader_index b.store),
  length-drop b.reader_index b.store,
)

pub new-IsValid : (size : ℕ) → size < 2 ^ 62 → IsValid (new size)
unfolding new
new-IsValid size h = omega (arith, length-replicate {A = ℕ} (8 + size) 0)

pub retrieve-IsValid : {b : Buffer} (len : ℕ) → IsValid b → IsValid (retrieve b len)
unfolding retrieve
retrieve-IsValid len v = ground arith

pub length-retrieve : (b : Buffer) (len : ℕ) → length (retrieve b len).store ≡ length b.store
unfolding retrieve
length-retrieve b len = ground arith

-- `c` holds what `b` holds, and has room for `len` bytes more.
pub record HasRoom (b c : Buffer) (len : ℕ) : Type 0 where
  pub valid : IsValid c
  pub room : c.writer_index + len ≤ length c.store
  pub used : c.writer_index - c.reader_index ≡ b.writer_index - b.reader_index
  pub same : readable c ≡ readable b
  pub grown : length c.store ≤ length b.store + len

grow-HasRoom :
    {b : Buffer} (len : ℕ)
    → IsValid b
    → length b.store + len < 2 ^ 63
    → length b.store - b.writer_index < len
    → HasRoom b (record b { store = resize b.store (add_size b.writer_index len) }) len
unfolding readable
grow-HasRoom {b} len v h g = record {
  valid = record {
    prepend = v.prepend;
    ordered = v.ordered;
    within = omega (arith, e);
    small = omega (arith, e);
  };
  room = omega (arith, e);
  used = omega arith;
  same = window-resize b.reader_index (readable_bytes b) _ b.store (omega arith) (omega arith);
  grown = omega (arith, e);
}
  where
    e : length (resize b.store (add_size b.writer_index len)) ≡ add_size b.writer_index len
    e = length-resize b.store _

compact-HasRoom :
    {b : Buffer} (len : ℕ)
    → IsValid b
    → len + (b.writer_index - b.reader_index) + 8 ≤ length b.store
    → HasRoom b
        (record b {
          store = write_at b.store 8 (readable b);
          reader_index = 8;
          writer_index = add_size 8 (readable_bytes b);
        })
        len
unfolding readable
compact-HasRoom {b} len v h = record {
  valid = record {
    prepend = omega arith;
    ordered = omega arith;
    within = omega (arith, l);
    small = omega (arith, l);
  };
  room = omega (arith, l);
  used = omega arith;
  same =
      window-write_at 8 8 _ b.store (unfold readable in readable b) (omega arith) (omega (arith, c))
        (omega (arith, c));
  grown = omega (arith, l);
}
  where
    l : length (write_at b.store 8 (readable b)) ≡ length b.store
    l = length-write_at b.store 8 (readable b)

    c : length (readable b) ≡ b.writer_index - b.reader_index
    c = length-readable b v

keep-HasRoom :
    {b : Buffer} (len : ℕ) → IsValid b → b.writer_index + len ≤ length b.store → HasRoom b b len
keep-HasRoom len v h = record { valid = v; room = h; used = refl; same = refl; grown = omega arith }

-- The test of `makeSpace`, with its `size_t` operations.
abbrev short : Buffer → ℕ → Bool
short b len = ltb (sub_size (add_size (writable_bytes b) (prependable_bytes b)) cheap_prepend) len

make_space-HasRoom :
    {b : Buffer} (len : ℕ)
    → IsValid b
    → length b.store + len < 2 ^ 63
    → length b.store - b.writer_index < len
    → HasRoom b (make_space b len) len
unfolding make_space
make_space-HasRoom {b} len v h g = elim (Bool-cases (short b len)) [
  | inl e ↦ rw e (grow-HasRoom len v h g)
  | inr e ↦ rw e (compact-HasRoom len v (ground arith))
]

-- ensureWriteableBytes makes room for the bytes asked for, by growing or by moving the readable
-- bytes to the front, and keeps the buffer valid and its readable bytes the same.
pub ensure-HasRoom :
    {b : Buffer} (len : ℕ)
    → IsValid b
    → length b.store + len < 2 ^ 63
    → HasRoom b (ensure_writeable_bytes b len) len
unfolding ensure_writeable_bytes
ensure-HasRoom {b} len v h = elim (Bool-cases (ltb (writable_bytes b) len)) [
  | inl e ↦ rw e (unfold make_space in make_space-HasRoom len v h (ground arith))
  | inr e ↦ rw e (keep-HasRoom len v (ground arith))
]

-- Bytes that fit are put behind the readable ones.
pub record HasPut (b c : Buffer) (bytes : Bytes) : Type 0 where
  pub valid : IsValid c
  pub holds : readable c ≡ readable b ++ bytes
  pub grown : length c.store ≤ length b.store + length bytes

length-put : (b : Buffer) (bytes : Bytes) → length (put b bytes).store ≡ length b.store
unfolding put
length-put b bytes = length-write_at b.store b.writer_index bytes

put-HasPut :
    {b : Buffer} (bytes : Bytes)
    → IsValid b
    → b.writer_index + length bytes ≤ length b.store
    → HasPut b (put b bytes) bytes
unfolding put readable
put-HasPut {b} bytes v h = record {
  valid = record {
    prepend = v.prepend;
    ordered = omega arith;
    within = omega (arith, l);
    small = omega (arith, l);
  };
  holds =
      window-write_at b.reader_index b.writer_index _ b.store bytes v.ordered (omega arith) h
      ∙ ap (λ n. take n (drop b.reader_index b.store) ++ bytes) (sym (no_wrap v).0);
  grown = omega (arith, l);
}
  where
    l : length (write_at b.store b.writer_index bytes) ≡ length b.store
    l = length-write_at b.store b.writer_index bytes

-- Appending never loses a byte, and keeps the buffer valid while the vector stays below 2^63.
pub append-HasPut :
    {b : Buffer} (bytes : Bytes)
    → IsValid b
    → length b.store + length bytes < 2 ^ 63
    → HasPut b (append b bytes) bytes
unfolding append
append-HasPut {b} bytes v h = record {
  valid = p.valid;
  holds = p.holds ∙ ap (λ t. t ++ bytes) r.same;
  grown = omega (arith, r.grown, length-put (ensure_writeable_bytes b (length bytes)) bytes);
}
  where
    r : HasRoom b (ensure_writeable_bytes b (length bytes)) (length bytes)
    r = ensure-HasRoom (length bytes) v h

    p : HasPut (ensure_writeable_bytes b (length bytes)) (append b bytes) bytes
    p = put-HasPut bytes r.valid r.room

-- `readv` past the vector's end: the first part fills the vector, the rest is appended.
spill-HasPut :
    {b : Buffer} (bytes : Bytes)
    → IsValid b
    → length b.store + length bytes < 2 ^ 63
    → writable_bytes b < length bytes
    → HasPut b
        (append
          (record b {
            store = write_at b.store b.writer_index (take (writable_bytes b) bytes);
            writer_index = length b.store;
          })
          (drop (writable_bytes b) bytes))
        bytes
unfolding put
spill-HasPut {b} bytes v h g = record {
  valid = second.valid;
  holds =
      second.holds
      ∙ ap (λ t. t ++ drop n bytes) (sym (ap readable same) ∙ first.holds)
      ∙ append_assoc (readable b) (take n bytes) (drop n bytes)
      ∙ ap (λ t. readable b ++ t) (take-append-drop n bytes);
  grown = omega (arith, second.grown, length-drop n bytes, l);
}
  where
    n : ℕ
    n = writable_bytes b

    l : length (write_at b.store b.writer_index (take n bytes)) ≡ length b.store
    l = length-write_at b.store b.writer_index (take n bytes)

    m : length (take n bytes) ≡ n
    m = omega (arith, length-take n bytes)

    full : Buffer
    full = record b {
      store = write_at b.store b.writer_index (take n bytes);
      writer_index = length b.store;
    }

    same : put b (take n bytes) ≡ full
    same = λ i. record b {
      store = write_at b.store b.writer_index (take n bytes);
      writer_index = end i;
    }
      where
        end : add_size b.writer_index (length (take n bytes)) ≡ length b.store
        end = omega (arith, m)

    first : HasPut b (put b (take n bytes)) (take n bytes)
    first = put-HasPut (take n bytes) v (omega (arith, m))

    second : HasPut full (append full (drop n bytes)) (drop n bytes)
    second =
        append-HasPut (drop n bytes) (subst IsValid same first.valid)
          (omega (arith, l, length-drop n bytes))

-- readFd keeps a valid buffer valid (indices ordered and inside the vector, no size_t wrap) and
-- puts the bytes read behind the readable ones, also when they overflow into extrabuf.
pub read_fd-HasPut :
    {b : Buffer} (bytes : Bytes)
    → IsValid b
    → length b.store + length bytes < 2 ^ 63
    → HasPut b (read_fd b (moved bytes)) bytes
unfolding read_fd
read_fd-HasPut {b} bytes v h = elim (Bool-cases (leb (length bytes) (writable_bytes b))) [
  | inl e ↦ rw e (put-HasPut bytes v (ground arith))
  | inr e ↦ rw e (spill-HasPut bytes v h (ground arith))
]
