-- ===== src/Buffer.antt =====
-- mymuduo/Buffer.h and mymuduo/Buffer.cpp: a byte buffer over one vector with a read and a write
-- index. `size_t` arithmetic wraps, as in the source.
pub mod Valid
pub mod Contents
pub mod Queue
mod Tests
use my_testserver.Prelude.{
  ℕ, ◌+◌, ◌≤◌, List, [], Option, none, some, length, take, drop, replicate, Bytes, find, search_at,
  resize, write_at, ltb, leb, if◌then◌else◌, codes,
}
use my_testserver.Prelude.Words.{add_size, sub_size}

pub record Buffer : Type 0 where
  pub store : Bytes
  pub reader_index : ℕ
  pub writer_index : ℕ

abbrev pub cheap_prepend : ℕ
cheap_prepend = 8

abbrev pub initial_size : ℕ
initial_size = 1024

-- `sizeof extrabuf`.
abbrev pub extra_size : ℕ
extra_size = 65536

-- The constructor.
unfoldable pub new : ℕ → Buffer
new size = record {
  store = replicate (cheap_prepend + size) 0;
  reader_index = cheap_prepend;
  writer_index = cheap_prepend;
}

abbrev pub readable_bytes : Buffer → ℕ
readable_bytes b = sub_size b.writer_index b.reader_index

abbrev pub writable_bytes : Buffer → ℕ
writable_bytes b = sub_size (length b.store) b.writer_index

abbrev pub prependable_bytes : Buffer → ℕ
prependable_bytes b = b.reader_index

-- The bytes from `peek()` on, as many as asked for.
pub peek : Buffer → ℕ → Bytes
peek b n = take n (drop b.reader_index b.store)

-- What stands in `[peek(), beginWrite())`.
unfoldable pub readable : Buffer → Bytes
unfolding peek
readable b = peek b (readable_bytes b)

-- The index of the match in the vector; `none` is `nullptr`.
pub find_crlf : Buffer → Option ℕ
unfolding readable
find_crlf b = search_at (codes "\r\n") (readable b) b.reader_index

unfoldable pub retrieve_all : Buffer → Buffer
retrieve_all b = record b { reader_index = cheap_prepend; writer_index = cheap_prepend }

unfoldable pub retrieve : Buffer → ℕ → Buffer
unfolding retrieve_all
retrieve b len =
    if ltb len (readable_bytes b)
    then record b { reader_index = add_size b.reader_index len }
    else retrieve_all b

pub retrieve_as_string : Buffer → ℕ → Bytes × Buffer
unfolding peek retrieve
retrieve_as_string b len = (peek b len, retrieve b len)

pub retrieve_all_as_string : Buffer → Bytes × Buffer
unfolding retrieve_as_string
retrieve_all_as_string b = retrieve_as_string b (readable_bytes b)

-- Either grow the vector, or move the readable bytes back to the front.
make_space : Buffer → ℕ → Buffer
unfolding readable
make_space b len =
    if ltb (sub_size (add_size (writable_bytes b) (prependable_bytes b)) cheap_prepend) len
    then record b { store = resize b.store (add_size b.writer_index len) }
    else record b {
      store = write_at b.store cheap_prepend (readable b);
      reader_index = cheap_prepend;
      writer_index = add_size cheap_prepend (readable_bytes b);
    }

pub ensure_writeable_bytes : Buffer → ℕ → Buffer
unfolding make_space
ensure_writeable_bytes b len = if ltb (writable_bytes b) len then make_space b len else b

-- `std::copy` to `beginWrite()`, and the move of the write index.
put : Buffer → Bytes → Buffer
put b bytes = record b {
  store = write_at b.store b.writer_index bytes;
  writer_index = add_size b.writer_index (length bytes);
}

pub append : Buffer → Bytes → Buffer
unfolding ensure_writeable_bytes put
append b bytes = put (ensure_writeable_bytes b (length bytes)) bytes

-- What `readv` or `write` returns: an error with its `errno`, or the bytes that it moved.
pub data Io : Type 0 where
  failed : ℕ → Io
  moved : Bytes → Io

-- How many bytes `readv` may bring: the free part of the vector, and `extrabuf` where that is
-- smaller than it.
abbrev pub read_limit : Buffer → ℕ
read_limit b =
    if ltb (writable_bytes b) extra_size then writable_bytes b + extra_size else writable_bytes b

-- `readv` fills the vector's free part first, and `extrabuf` with the rest.
pub read_fd : Buffer → Io → Buffer
unfolding put append
read_fd b (failed errno) = b
read_fd b (moved bytes) =
    if leb (length bytes) (writable_bytes b)
    then put b bytes
    else append
        (record b {
          store = write_at b.store b.writer_index (take (writable_bytes b) bytes);
          writer_index = length b.store;
        })
        (drop (writable_bytes b) bytes)
