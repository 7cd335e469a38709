-- ===== src/Http.antt =====
-- src/WebSocketHandler.cpp, the handshake, and ChatServer::handleHttpRequest: what a connection may
-- ask for before it speaks WebSocket.
pub mod Laws
mod Tests
use my_testserver.Prelude.{
  ℕ, ◌+◌, ◌-◌, Bool, true, false, Option, none, some, [], ◌∷◌, ◌++◌, Bytes, codes, eqb, find,
  substr, drop, length, ◌||◌, if◌then◌else◌,
}
use my_testserver.Prelude.Int.{to_string, pos}
use my_testserver.Platform.{Platform}
use my_testserver.Net.{Net, send, shutdown}

-- `s.find(needle) != npos`.
unfoldable pub contains : Bytes → Bytes → Bool
contains s needle = elim (find s needle 0) [ none ↦ false | some _ ↦ true ]

unfoldable pub is_websocket_upgrade : Bytes → Bool
is_websocket_upgrade request =
    if contains request (codes "Upgrade: websocket")
    then (if contains request (codes "Connection: Upgrade")
        then contains request (codes "Sec-WebSocket-Key: ")
        else false)
    else false

-- The end of the line from `at` on; a line end of "\n" counts where no "\r\n" follows.
line_end : Bytes → ℕ → Option ℕ
line_end request at = elim (find request (codes "\r\n") at) [
  | none ↦ find request (codes "\n") at
  | some end ↦ some end
]

line_from : Bytes → ℕ → Bytes
unfolding line_end
line_from request at = elim (line_end request at) [
  | none ↦ drop at request
  | some end ↦ substr request at (end - at)
]

unfoldable pub extract_sec_websocket_key : Bytes → Bytes
unfolding line_from
extract_sec_websocket_key request = elim (find request (codes "Sec-WebSocket-Key: ") 0) [
  | none ↦ []
  | some at ↦ line_from request (at + 19)
]

abbrev pub websocket_magic : Bytes
websocket_magic = codes "258EAFA5-E914-47DA-95CA-C5AB0DC85B11"

module _ (platform : Platform) where
  open platform use {sha1, base64, read_file}

  unfoldable pub compute_accept_key : Bytes → Bytes
  compute_accept_key key = base64 (sha1 (key ++ websocket_magic))

  unfoldable pub generate_handshake_response : Bytes → Bytes
  unfolding compute_accept_key
  generate_handshake_response request =
      codes "HTTP/1.1 101 Switching Protocols\r\n"
      ++ (codes "Upgrade: websocket\r\n"
          ++ (codes "Connection: Upgrade\r\n"
              ++ (codes "Sec-WebSocket-Accept: "
                  ++ (compute_accept_key (extract_sec_websocket_key request)
                      ++ (codes "\r\n" ++ codes "\r\n")))))

  -- The files that are served, by request path.
  unfoldable pub file_path : Bytes → Option Bytes
  file_path path =
      if eqb path (codes "/") || eqb path (codes "/chat.html")
      then some (codes "/home/admin/wcztmdd/MyTestserver/web/chat.html")
      else if eqb path (codes "/bg.png")
      then some (codes "/home/admin/wcztmdd/MyTestserver/web/bg.png")
      else if eqb path (codes "/index.html")
      then some (codes "/home/admin/wcztmdd/MyTestserver/web/index.html")
      else none

  unfoldable pub content_type : Bytes → Bytes
  content_type path =
      if contains path (codes ".html")
      then codes "text/html; charset=utf-8"
      else if contains path (codes ".png")
      then codes "image/png"
      else codes "text/plain"

  unfoldable pub ok_response : Bytes → Bytes → Bytes
  unfolding content_type
  ok_response path content =
      codes "HTTP/1.1 200 OK\r\n"
      ++ (codes "Content-Type: "
          ++ (content_type path
              ++ (codes "\r\n"
                  ++ (codes "Content-Length: "
                      ++ (to_string (pos (length content))
                          ++ (codes "\r\n" ++ (codes "Connection: close\r\n" ++ codes "\r\n")))))))

  unfoldable pub not_found : Bytes → Bytes
  not_found reason = codes "HTTP/1.1 404 Not Found\r\nContent-Type: text/plain\r\n\r\n" ++ reason

  -- One answer, and the end of the connection.
  abbrev pub finish : Net → ℕ → Bytes → Net
  finish net conn response = shutdown (send net conn response) conn

  unfoldable pub serve_file : Net → ℕ → Bytes → Option Bytes → Net
  unfolding not_found ok_response
  serve_file net conn path none = finish net conn (not_found (codes "File not found"))
  serve_file net conn path (some content) =
      finish (send net conn (ok_response path content)) conn content

  unfoldable pub serve_path : Net → ℕ → Option Bytes → Net
  unfolding not_found serve_file
  serve_path net conn none = finish net conn (not_found (codes "404 Not Found"))
  serve_path net conn (some path) = serve_file net conn path (read_file path)

  -- Whether the request was handled.
  unfoldable pub handle_http_request : Net → ℕ → Bytes → Bool × Net
  unfolding is_websocket_upgrade file_path serve_path
  handle_http_request net conn request =
      if is_websocket_upgrade request
      then (false, net)
      else if eqb (substr request 0 3) (codes "GET")
      then (elim (find request (codes " ") 4) [
        | none ↦ (false, net)
        | some path_end ↦ (true, serve_path net conn (file_path (substr request 4 (path_end - 4))))
      ])
      else (false, net)
