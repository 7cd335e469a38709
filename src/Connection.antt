-- ===== src/Connection.antt =====
-- mymuduo/TcpConnection.cpp: the life of a connection, and the way of its bytes through the output
-- buffer. The calls are those of the connection's own loop, where `runInLoop` calls at once; `send`
-- is also that of another thread.
pub mod Stream
pub mod Flush
pub mod Grows
pub mod Steps
pub mod Run
pub mod Elsewhere
pub mod Interest
pub mod Waiting
pub mod Mirror
pub mod View
pub mod Sent
mod Tests
use my_testserver.Prelude.{
  ℕ, ◌+◌, ◌-◌, ◌*◌, Bool, true, false, not, ◌&&◌, List, [], ◌∷◌, ◌++◌, length, take, drop, min,
  Bytes, ltb, leb, ◌==◌, if◌then◌else◌,
}
use my_testserver.Buffer.{
  Buffer, Io, failed, moved, readable, readable_bytes, retrieve, append, read_fd, new, initial_size,
}
use my_testserver.Net.{StateE, is_connected, connected, connecting, disconnecting, disconnected}

-- The callbacks of a connection, as they are called or queued.
pub data Callback : Type 0 where
  connection message close write_complete : Callback
  high_water_mark : ℕ → Callback
  -- sendInLoop, bound by another thread to the address and the length of its bytes.
  deferred_send : ℕ → ℕ → Callback

-- The methods of its channel that a connection calls.
pub data Method : Type 0 where
  reads_on writes_on writes_off all_off removed : Method

pub record Connection : Type 0 where
  pub state : StateE
  -- The interest of the channel, and whether it is still registered.
  pub reading : Bool
  pub writing : Bool
  pub registered : Bool
  pub input : Buffer
  pub output : Buffer
  -- Whether the user set the callback.
  pub has_write_complete : Bool
  pub has_high_water_mark : Bool
  pub high_water : ℕ
  -- What the socket took, and whether its write side is shut down.
  pub wire : Bytes
  pub shut : Bool
  -- The calls made, and those that wait in the loop.
  pub called : List Callback
  pub queued : List Callback
  -- The methods of the channel that it called.
  pub methods : List Method

-- What `write` meets: room for some bytes in the socket, or an error.
pub data Write : Type 0 where
  room : ℕ → Write
  would_block broken_pipe conn_reset : Write
  other_error : ℕ → Write

-- How many bytes are written; none on an error.
abbrev pub wrote : Write → ℕ → ℕ
wrote (room n) len = min n len
wrote would_block len = 0
wrote broken_pipe len = 0
wrote conn_reset len = 0
wrote (other_error e) len = 0

abbrev pub succeeds : Write → Bool
succeeds (room n) = true
succeeds would_block = false
succeeds broken_pipe = false
succeeds conn_reset = false
succeeds (other_error e) = false

-- `faultError`.
abbrev pub is_fault : Write → Bool
is_fault (room n) = false
is_fault would_block = false
is_fault broken_pipe = true
is_fault conn_reset = true
is_fault (other_error e) = false

-- The constructor.
unfoldable pub create : Connection
create = record {
  state = connecting;
  reading = false;
  writing = false;
  registered = false;
  input = new initial_size;
  output = new initial_size;
  has_write_complete = false;
  has_high_water_mark = false;
  high_water = 64 * 1024 * 1024;
  wire = [];
  shut = false;
  called = [];
  queued = [];
  methods = [];
}

unfoldable pub set_write_complete_callback : Connection → Connection
set_write_complete_callback c = record c { has_write_complete = true }

unfoldable pub set_high_water_mark_callback : Connection → ℕ → Connection
set_high_water_mark_callback c mark = record c { has_high_water_mark = true; high_water = mark }

abbrev pub call : Connection → Callback → Connection
call c callback = record c { called = c.called ++ (callback ∷ []) }

abbrev pub enqueue : Connection → Callback → Connection
enqueue c callback = record c { queued = c.queued ++ (callback ∷ []) }

-- `channel_->enableReading()`, and its other methods.
abbrev pub call_enable_reading : Connection → Connection
call_enable_reading c = record c { reading = true; methods = c.methods ++ (reads_on ∷ []) }

abbrev pub call_enable_writing : Connection → Connection
call_enable_writing c = record c { writing = true; methods = c.methods ++ (writes_on ∷ []) }

abbrev pub call_disable_writing : Connection → Connection
call_disable_writing c = record c { writing = false; methods = c.methods ++ (writes_off ∷ []) }

abbrev pub call_disable_all : Connection → Connection
call_disable_all c = record c {
  reading = false;
  writing = false;
  methods = c.methods ++ (all_off ∷ []);
}

abbrev pub call_remove : Connection → Connection
call_remove c = record c { registered = false; methods = c.methods ++ (removed ∷ []) }

unfoldable pub connect_established : Connection → Connection
connect_established c =
    call (call_enable_reading (record c { state = connected; registered = true })) connection

unfoldable pub connect_destroyed : Connection → Connection
connect_destroyed c =
    let c₁ : Connection =
      if is_connected c.state
      then call (call_disable_all (record c { state = disconnected })) connection
      else c in
    call_remove c₁

unfoldable pub handle_close : Connection → Connection
handle_close c = call (call (call_disable_all (record c { state = disconnected })) connection) close

-- `n > 0`, `n == 0`, and an error, which is only logged.
unfoldable pub handle_read : Connection → Io → Connection
unfolding handle_close
handle_read c (failed e) = record c { input = read_fd c.input (failed e) }
handle_read c (moved bytes) =
    let c₁ : Connection = record c { input = read_fd c.input (moved bytes) } in
    if ltb 0 (length bytes) then call c₁ message else handle_close c₁

unfoldable pub shutdown_in_loop : Connection → Connection
shutdown_in_loop c = if not c.writing then record c { shut = true } else c

-- The queued call of the write complete callback, if one is set.
unfoldable pub complete : Connection → Connection
complete c = if c.has_write_complete then enqueue c write_complete else c

abbrev pub is_disconnecting : StateE → Bool
is_disconnecting disconnecting = true
is_disconnecting disconnected = false
is_disconnecting connected = false
is_disconnecting connecting = false

-- `handleWrite` behind the call of `retrieve`.
unfoldable pub flushed : Connection → Connection
unfolding complete shutdown_in_loop
flushed c =
    if readable_bytes c.output == 0
    then (let c₁ : Connection = complete (call_disable_writing c) in
        if is_disconnecting c.state then shutdown_in_loop c₁ else c₁)
    else c

unfoldable pub handle_write : Connection → Write → Connection
unfolding flushed
handle_write c w =
    if c.writing
    then (let n = wrote w (readable_bytes c.output) in
        if ltb 0 n
        then flushed
            (record c { wire = c.wire ++ take n (readable c.output); output = retrieve c.output n })
        else c)
    else c

-- The high water mark callback is queued when the output buffer crosses the mark.
unfoldable pub mark : Connection → ℕ → Connection
mark c remaining =
    let old_len = readable_bytes c.output in
    if leb c.high_water (old_len + remaining) && (ltb old_len c.high_water && c.has_high_water_mark)
    then enqueue c (high_water_mark (old_len + remaining))
    else c

unfoldable pub wait_for_room : Connection → Connection
wait_for_room c = if not c.writing then call_enable_writing c else c

-- The bytes that `write` did not take.
unfoldable pub keep_rest : Connection → Bytes → Connection
unfolding mark wait_for_room
keep_rest c rest =
    if ltb 0 (length rest)
    then wait_for_room (record (mark c (length rest)) { output = append c.output rest })
    else c

-- The attempt to write at once.
unfoldable pub write_now : Connection → Bytes → Write → Connection
unfolding complete
write_now c bytes w =
    let n = wrote w (length bytes) in
    let c₁ : Connection = record c { wire = c.wire ++ take n bytes } in
    if succeeds w && length bytes - n == 0 then complete c₁ else c₁

unfoldable pub send_connected : Connection → Bytes → Write → Connection
unfolding write_now keep_rest
send_connected c bytes w =
    if not c.writing && readable_bytes c.output == 0
    then (if is_fault w
        then write_now c bytes w
        else keep_rest (write_now c bytes w) (drop (wrote w (length bytes)) bytes))
    else keep_rest c bytes

unfoldable pub send_in_loop : Connection → Bytes → Write → Connection
unfolding send_connected
send_in_loop c bytes w = elim c.state [
  | disconnected ↦ c
  | disconnecting ↦ send_connected c bytes w
  | connected ↦ send_connected c bytes w
  | connecting ↦ send_connected c bytes w
]

-- `send`, of the loop's own thread or of another one, of the bytes that stand at `address`; `w` is
-- what a `write` by this call meets.
unfoldable pub send : Bool → Connection → ℕ → Bytes → Write → Connection
unfolding send_in_loop
send in_loop_thread c address bytes w =
    if is_connected c.state
    then (if in_loop_thread
        then send_in_loop c bytes w
        else enqueue c (deferred_send address (length bytes)))
    else c

-- On the loop's own thread the address does not matter.
abbrev pub send_here : Connection → Bytes → Write → Connection
send_here c bytes w = send true c 0 bytes w

-- `send` of a buffer, whose readable bytes stay in it; `address` is that of `peek`.
abbrev pub send_buffer : Bool → Connection → ℕ → Buffer → Write → Connection
send_buffer in_loop_thread c address buf w = send in_loop_thread c address (readable buf) w

unfoldable pub shutdown : Connection → Connection
unfolding shutdown_in_loop
shutdown c =
    if is_connected c.state then shutdown_in_loop (record c { state = disconnecting }) else c
