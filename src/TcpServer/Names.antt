-- ===== src/TcpServer/Names.antt =====
-- The names of connections: no two connections of a server have the same.
use my_testserver.Prelude.{
  ℕ, ◌^◌, ◌<◌, ◌≤◌, ◌≡◌, sym, ap, ◌∙◌, ◌++◌, length, drop, Bytes, codes, arith, length-append,
  take_of_le, drop-append_self,
}
use my_testserver.Prelude.Int.{pos, to_string, length-to_string_le, to_string_injective}
use my_testserver.TcpServer.{TcpServer, conn_suffix, conn_name}

append_cancel : (xs ys zs : Bytes) → xs ++ ys ≡ xs ++ zs → ys ≡ zs
append_cancel xs ys zs e =
    sym (drop-append_self xs ys) ∙ ap (drop (length xs)) e ∙ drop-append_self xs zs

-- The suffix is not cut.
whole_suffix :
    (ip_port : Bytes) (id : ℕ)
    → length ip_port ≤ 21
    → id < 2 ^ 31
    → conn_suffix ip_port id ≡ codes "-" ++ (ip_port ++ (codes "#" ++ to_string (pos id)))
unfolding conn_suffix
whole_suffix ip_port id h small =
    let digits = to_string (pos id) in
    take_of_le 63 (codes "-" ++ (ip_port ++ (codes "#" ++ digits))) (
      omega (
        arith,
        h,
        length-append (codes "-") (ip_port ++ (codes "#" ++ digits)),
        length-append ip_port (codes "#" ++ digits),
        length-append (codes "#") digits,
        length-to_string_le 9 id (omega arith),
      ))

pub conn_name_injective :
    (s : TcpServer) (i j : ℕ)
    → length s.ip_port ≤ 21
    → i < 2 ^ 31
    → j < 2 ^ 31
    → conn_name s i ≡ conn_name s j
    → i ≡ j
unfolding conn_name
conn_name_injective s i j h hi hj e =
    let suffixes = append_cancel s.name (conn_suffix s.ip_port i) (conn_suffix s.ip_port j) e in
    let whole = sym (whole_suffix s.ip_port i h hi) ∙ suffixes ∙ whole_suffix s.ip_port j h hj in
    let behind =
      append_cancel s.ip_port (codes "#" ++ to_string (pos i)) (codes "#" ++ to_string (pos j)) (
        append_cancel (codes "-") (s.ip_port ++ (codes "#" ++ to_string (pos i)))
          (s.ip_port ++ (codes "#" ++ to_string (pos j))) whole) in
    to_string_injective i j
      (append_cancel (codes "#") (to_string (pos i)) (to_string (pos j)) behind)
