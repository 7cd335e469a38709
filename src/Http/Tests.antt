-- ===== src/Http/Tests.antt =====
-- Runs of the handshake and of handleHttpRequest, and the theorems about them at inputs that meet
-- their hypotheses.
use my_testserver.Prelude.{
  ◌≡◌, refl, true, none, some, [], Bytes, Option, codes, find, search_at, starts_with, eqb,
  if◌then◌else◌,
}
use my_testserver.Platform.Toy.{toy}
use my_testserver.Net.{Net, connected}
use my_testserver.Http.{
  contains, is_websocket_upgrade, extract_sec_websocket_key, handle_http_request,
}
use my_testserver.Http.Laws.{handle_http_request_files}

abbrev open_net : Net
open_net = record { state = λ conn. connected; sent = [] }

abbrev get_root : Bytes
get_root = codes "GET / HTTP/1.1\r\n\r\n"

abbrev get_chat : Bytes
get_chat = codes "GET /chat.html HTTP/1.1\r\n\r\n"

extract-sample : extract_sec_websocket_key (codes "Sec-WebSocket-Key: abc\r\nHost: x") ≡ codes "abc"
unfolding extract_sec_websocket_key find search_at starts_with
extract-sample = refl

handled-root : (handle_http_request toy open_net 1 get_root).0 ≡ true
unfolding handle_http_request is_websocket_upgrade contains find search_at starts_with eqb
handled-root = refl

-- Two file systems that differ in every file but the three.
abbrev secrets : Bytes → Option Bytes
secrets path = some (codes "shadow")

handle_http_request_files_example :
    handle_http_request (record toy { read_file = secrets }) open_net 1 get_chat
    ≡ handle_http_request
        (record toy {
          read_file = λ path. if eqb path (codes "/etc/shadow") then none else secrets path;
        })
        open_net
        1
        get_chat
unfolding eqb
handle_http_request_files_example =
    handle_http_request_files toy secrets
      (λ path. if eqb path (codes "/etc/shadow") then none else secrets path) open_net 1 get_chat
      refl refl refl
