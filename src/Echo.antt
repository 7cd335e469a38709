-- ===== src/Echo.antt =====
-- src/TestServer.cpp: the echo server, on a connection as TcpConnection.cpp runs it.
pub mod Stream
mod Tests
use my_testserver.Prelude.{Bool, true, false, List, [], ◌∷◌, Bytes, if◌then◌else◌}
use my_testserver.Buffer.{Buffer, moved, retrieve_all_as_string}
use my_testserver.Net.{is_connected}
use my_testserver.Connection.{Connection, Write, handle_read, send_here, shutdown}

unfoldable pub on_connection : Connection → Connection
on_connection c = if is_connected c.state then c else shutdown c

-- `buffer` is the input buffer of the connection; `w` is what `write` meets in `send`.
unfoldable pub on_message : Connection → Write → Connection
on_message c w =
    let (buf, input) = retrieve_all_as_string c.input in
    let c₁ : Connection = record c { input = input } in send_here c₁ buf w

-- The readable events of a connection, each with the bytes that came, and the calls of `onMessage`
-- that they make.
unfoldable pub serve : Connection → List (Bytes × Write) → Connection
unfolding on_message
serve c [] = c
serve c ((bytes, w) ∷ rest) = serve (on_message (handle_read c (moved bytes)) w) rest
