-- ===== src/Buffer/Contents.antt =====
-- What the read side of a buffer returns and leaves behind, and what `findCRLF` finds.
use my_testserver.Prelude.{
  ℕ, zero, suc, ◌+◌, ◌-◌, ◌≤◌, ◌≡◌, refl, sym, ap, ap₂, ◌∙◌, inl, inr, List, [], ◌∷◌, arith, length,
  take, drop, ltb, Bool-cases, drop-length, drop-drop, codes,
}
use my_testserver.Prelude.Search.{IsFirst, search_at-IsFirst}
use my_testserver.Prelude.Words.{add_size, sub_size}
use my_testserver.Buffer.{
  Buffer, readable_bytes, readable, retrieve, retrieve_all, retrieve_all_as_string, find_crlf,
}
use my_testserver.Buffer.Valid.{
  IsValid, no_wrap, length-readable, retrieve-IsValid, length-retrieve,
}

take-nil {ℓ} : {A : Type ℓ} (n : ℕ) → take {A = A} n [] ≡ []
take-nil zero = refl
take-nil (suc n) = refl

drop-take {ℓ} : {A : Type ℓ} (n m : ℕ) (xs : List A) → drop n (take m xs) ≡ take (m - n) (drop n xs)
drop-take zero m xs = ap (λ k. take k xs) (omega arith)
drop-take (suc n) zero xs = ap (λ k. take k (drop (suc n) xs)) {x = 0} (omega arith)
drop-take (suc n) (suc m) [] = sym (take-nil (suc m - suc n))
drop-take (suc n) (suc m) (x ∷ xs) =
    drop-take n m xs ∙ ap (λ k. take k (drop n xs)) {y = suc m - suc n} (omega arith)

readable-retrieve_all : (b : Buffer) → readable (retrieve_all b) ≡ []
unfolding readable retrieve_all
readable-retrieve_all b = refl

readable_past :
    (b : Buffer) (len : ℕ)
    → IsValid b
    → len ≤ b.writer_index - b.reader_index
    → readable (record b { reader_index = add_size b.reader_index len }) ≡ drop len (readable b)
unfolding readable
readable_past b len v h =
    ap₂ (λ k r. take k (drop r b.store)) count start
    ∙ ap (take (readable_bytes b - len)) (sym (drop-drop len b.reader_index b.store))
    ∙ sym (drop-take len (readable_bytes b) (drop b.reader_index b.store))
  where
    start : add_size b.reader_index len ≡ b.reader_index + len
    start = omega arith

    count : sub_size b.writer_index (add_size b.reader_index len) ≡ readable_bytes b - len
    count = omega arith

-- `retrieve(len)` drops the first `len` readable bytes, and all of them if there are not so many.
pub readable-retrieve :
    (b : Buffer) (len : ℕ) → IsValid b → readable (retrieve b len) ≡ drop len (readable b)
unfolding retrieve
readable-retrieve b len v = elim (Bool-cases (ltb len (readable_bytes b))) [
  | inl e ↦ rw e (readable_past b len v (ground arith))
  | inr e ↦ rw e (
      readable-retrieve_all b
      ∙ sym (drop-length len (readable b) (ground (arith, length-readable b v))))
]

-- `retrieveAllAsString` returns what is readable and leaves nothing.
pub retrieve_all_as_string_lem :
    (b : Buffer)
    → IsValid b
    → ((retrieve_all_as_string b).0 ≡ readable b)
      × (readable (retrieve_all_as_string b).1 ≡ [])
      × IsValid (retrieve_all_as_string b).1
      × (length (retrieve_all_as_string b).1.store ≡ length b.store)
unfolding retrieve_all_as_string readable
retrieve_all_as_string_lem b v = (
  refl,
  readable-retrieve b (readable_bytes b) v
      ∙ drop-length (readable_bytes b) (readable b) (omega (arith, length-readable b v, no_wrap v)),
  retrieve-IsValid (readable_bytes b) v,
  length-retrieve b (readable_bytes b),
)

-- findCRLF returns the index of the first CR LF among the readable bytes, and null exactly when
-- there is none.
find_crlf-IsFirst : (b : Buffer) → IsFirst (codes "\r\n") (readable b) b.reader_index (find_crlf b)
unfolding find_crlf
find_crlf-IsFirst b = search_at-IsFirst (codes "\r\n") (readable b) b.reader_index
