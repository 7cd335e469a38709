-- ===== src/Http/Laws.antt =====
-- What a plain HTTP request can reach.
use my_testserver.Prelude.{
  ℕ, ◌≡◌, refl, inl, inr, true, false, Option, none, some, Bytes, codes, find, substr, ◌-◌, arith,
  Option-cases, ==_iff,
}
use my_testserver.Platform.{Platform}
use my_testserver.Net.{Net, is_connected, send, shutdown}
use my_testserver.Http.{file_path, serve_file, serve_path, handle_http_request, finish}

abbrev pub chat_page : Bytes
chat_page = codes "/home/admin/wcztmdd/MyTestserver/web/chat.html"

abbrev pub background : Bytes
background = codes "/home/admin/wcztmdd/MyTestserver/web/bg.png"

abbrev pub index_page : Bytes
index_page = codes "/home/admin/wcztmdd/MyTestserver/web/index.html"

module _ (platform : Platform) where
  finish_closes :
      (net : Net) (conn : ℕ) (response : Bytes)
      → is_connected ((finish platform net conn response).state conn) ≡ false
  unfolding send shutdown
  finish_closes net conn response = ground (arith, ==_iff conn conn)

  serve_path_closes :
      (net : Net) (conn : ℕ) (path : Option Bytes)
      → is_connected ((serve_path platform net conn path).state conn) ≡ false
  unfolding serve_path serve_file
  serve_path_closes net conn none = finish_closes net conn _
  serve_path_closes net conn (some path) = elim (Option-cases (platform.read_file path)) [
    | inl e ↦ rw e (finish_closes net conn _)
    | inr (content, e) ↦ rw e (finish_closes (send net conn _) conn content)
  ]

  -- A request that handleHttpRequest handles leaves its connection no longer connected.
  handle_http_request_closes :
      (net : Net) (conn : ℕ) (request : Bytes)
      → (handle_http_request platform net conn request).0 ≡ true
      → is_connected ((handle_http_request platform net conn request).1.state conn) ≡ false
  unfolding handle_http_request
  handle_http_request_closes net conn request h = elim (Option-cases (find request (codes " ") 4)) [
    | inl e ↦ ground (arith, e)
    | inr (end, e) ↦
        ground
          (arith, e, serve_path_closes net conn (file_path platform (substr request 4 (end - 4))))
  ]

  serve_path-files :
      (files other : Bytes → Option Bytes) (net : Net) (conn : ℕ) (path : Bytes)
      → files chat_page ≡ other chat_page
      → files background ≡ other background
      → files index_page ≡ other index_page
      → serve_path (record platform { read_file = files }) net conn (file_path platform path)
        ≡ serve_path (record platform { read_file = other }) net conn (file_path platform path)
  unfolding serve_path file_path
  serve_path-files files other net conn path a b c = ground arith

  -- What handleHttpRequest does depends on three files of the web directory only: with two file
  -- systems that agree on these, it does the same for every request.
  pub handle_http_request_files :
      (files other : Bytes → Option Bytes) (net : Net) (conn : ℕ) (request : Bytes)
      → files chat_page ≡ other chat_page
      → files background ≡ other background
      → files index_page ≡ other index_page
      → handle_http_request (record platform { read_file = files }) net conn request
        ≡ handle_http_request (record platform { read_file = other }) net conn request
  unfolding handle_http_request
  handle_http_request_files files other net conn request a b c =
      elim (Option-cases (find request (codes " ") 4)) [
        | inl e ↦ rw e refl
        | inr (end, e) ↦
            rw (e, serve_path-files files other net conn (substr request 4 (end - 4)) a b c) refl
      ]
