-- ===== src/Net/TcpConnection.antt =====
-- A connection: mytinyhttpd/net/tcp_connnection.h and tcp_connnection.cc, as its loop's thread runs
-- it, where `RunInLoop` is a call. The socket is the bytes it took, in order, and whether the write
-- side is shut down; what it answers to a call is an argument. Callbacks that are entered, and
-- functions left for the loop or a timer to run, are listed in `calls`, the last one first. A
-- callback's own calls are further operations. The loop's own assertion on a channel that is removed
-- while its events are handled is left out.
pub mod Moves
pub mod Life
pub mod Shutdown
pub mod Stream
pub mod Close
use my_tiny_httpd.Prelude.{
  ℕ, ◌+◌, ◌-◌, ◌*◌, min, Bool, true, false, not, ◌&&◌, ◌||◌, List, [], ◌∷◌, ◌++◌, Outcome, ok,
  ◌>>=◌, ◌>>◌, assert, ◌==◌, ltb, leb, if◌then◌else◌, length, take, drop,
}
use my_tiny_httpd.Net.Buffer.{
  Buffer, Allocation, initial_size, new, size_sub, size_add, readable_bytes, contents, append,
  retrieve, retrieve_all_as_string, read_from_fd,
}

pub data State : Type 0 where
  disconnected connecting connected disconnecting : State

pub data Call : Type 0 where
  connection_callback message_callback write_complete_callback close_callback : Call
  high_water_mark_callback : ℕ → Call
  force_close_in_loop force_close_later : Call

-- What `write` answers: it takes up to so many bytes, or fails, where EPIPE and ECONNRESET count
-- as `broken`.
pub data WriteAnswer : Type 0 where
  takes : ℕ → WriteAnswer
  would_block broken fails : WriteAnswer

-- What `readv` answers; `got []` is the end of the stream.
pub data ReadAnswer : Type 0 where
  got : List ℕ → ReadAnswer
  read_fails : ReadAnswer

pub record Connection : Type 0 where
  pub state : State
  pub is_reading : Bool
  pub channel_reading : Bool
  pub channel_writing : Bool
  -- The poller knows the channel.
  pub is_registered : Bool
  pub input_buffer : Buffer
  pub output_buffer : Buffer
  pub high_water_mark : ℕ
  pub has_write_complete : Bool
  pub has_high_water_mark : Bool
  pub wire : List ℕ
  pub is_shut : Bool
  pub calls : List Call

abbrev pub is_connected : State → Bool
is_connected connected = true
is_connected _ = false

abbrev pub is_disconnected : State → Bool
is_disconnected disconnected = true
is_disconnected _ = false

abbrev pub is_connecting : State → Bool
is_connecting connecting = true
is_connecting _ = false

abbrev pub is_disconnecting : State → Bool
is_disconnecting disconnecting = true
is_disconnecting _ = false

-- `state_ == kConnected || state_ == kDisconnecting`.
abbrev pub is_open : State → Bool
is_open s = is_connected s || is_disconnecting s

abbrev pub call : Call → Connection → Connection
call f c = record c { calls = f ∷ c.calls }

abbrev pub call_if : Bool → Call → Connection → Connection
call_if b f c = record c { calls = if b then f ∷ c.calls else c.calls }

-- The bytes that `write` took of `len`, and whether `SendInLoop` gives the message up.
abbrev pub taken : WriteAnswer → ℕ → ℕ
taken (takes n) len = min n len
taken _ len = 0

abbrev pub is_broken : WriteAnswer → Bool
is_broken broken = true
is_broken _ = false

abbrev pub is_taken : WriteAnswer → Bool
is_taken (takes n) = true
is_taken _ = false

-- `ShutdownInLoop`.
abbrev pub shutdown_in_loop : Connection → Connection
shutdown_in_loop c = record c { is_shut = if c.channel_writing then c.is_shut else true }

pub shutdown : Connection → Connection
shutdown c =
    if is_connected c.state then shutdown_in_loop (record c { state = disconnecting }) else c

-- `ShutdownAndForceCloseAfter`.
pub shutdown_and_force_close_after : Connection → Connection
shutdown_and_force_close_after c =
    if is_connected c.state
    then call force_close_in_loop (shutdown_in_loop (record c { state = disconnecting }))
    else c

pub force_close : Connection → Connection
force_close c =
    if is_open c.state then call force_close_in_loop (record c { state = disconnecting }) else c

pub force_close_with_delay : Connection → Connection
force_close_with_delay c =
    if is_open c.state then call force_close_later (record c { state = disconnecting }) else c

pub start_read : Connection → Connection
start_read c =
    if not c.is_reading || not c.channel_reading
    then record c { channel_reading = true; is_reading = true; is_registered = true }
    else c

pub stop_read : Connection → Connection
stop_read c =
    if c.is_reading || c.channel_reading
    then record c { channel_reading = false; is_reading = false; is_registered = true }
    else c

pub connect_established : Connection → Outcome Connection
connect_established c = do
  assert (is_connecting c.state)
  ok (
      call connection_callback
        (record c { state = connected; channel_reading = true; is_registered = true }))

-- `DisableAll` of the channel.
abbrev pub disable_all : Connection → Connection
disable_all c = record c { channel_reading = false; channel_writing = false; is_registered = true }

-- `Remove` of the channel.
abbrev pub remove_channel : Connection → Outcome Connection
remove_channel c = do
  assert (not c.channel_reading && not c.channel_writing)
  assert c.is_registered
  ok (record c { is_registered = false })

pub connect_destroyed : Connection → Outcome Connection
connect_destroyed c = remove_channel (
    if is_connected c.state
    then call connection_callback (disable_all (record c { state = disconnected }))
    else c)

pub handle_close : Connection → Outcome Connection
handle_close c = do
  assert (is_open c.state)
  ok (
      call close_callback
        (call connection_callback (disable_all (record c { state = disconnected }))))

-- `ForceCloseInLoop`.
pub run_force_close : Connection → Outcome Connection
run_force_close c = if is_open c.state then handle_close c else ok c

-- What `HandleWrite` does behind `Retrieve` once all bytes are written.
abbrev pub drained : Connection → Connection
drained c =
    let c' =
      call_if c.has_write_complete write_complete_callback
        (record c { channel_writing = false; is_registered = true }) in
    if is_disconnecting c.state then shutdown_in_loop c' else c'

-- `HandleWrite`.
pub handle_write : WriteAnswer → Connection → Outcome Connection
handle_write answer c =
    let n = taken answer (readable_bytes c.output_buffer) in
    if c.channel_writing && ltb 0 n
    then (retrieve n c.output_buffer >>= λ left.
        let c' = record c {
          output_buffer = left;
          wire = c.wire ++ take n (contents c.output_buffer);
        } in
        ok (if readable_bytes left == 0 then drained c' else c'))
    else ok c

module _ (alloc : Allocation) where
  -- The constructor; the callbacks are set before the connection is used.
  pub new_connection : Bool → Bool → Connection
  new_connection has_write_complete has_high_water_mark = record {
    state = connecting;
    is_reading = true;
    channel_reading = false;
    channel_writing = false;
    is_registered = false;
    input_buffer = new alloc initial_size;
    output_buffer = new alloc initial_size;
    high_water_mark = 64 * 1024 * 1024;
    has_write_complete = has_write_complete;
    has_high_water_mark = has_high_water_mark;
    wire = [];
    is_shut = false;
    calls = [];
  }

  -- The bytes that the socket did not take go to the output buffer.
  pub keep_remaining : List ℕ → ℕ → Connection → Outcome Connection
  keep_remaining rest remaining c = do
    let old_len = readable_bytes c.output_buffer
    let above = leb c.high_water_mark (size_add old_len remaining) && ltb old_len c.high_water_mark
    b ← append alloc rest c.output_buffer
    ok
        (record (call_if (above && c.has_high_water_mark)
          (high_water_mark_callback (size_add old_len remaining)) c) {
            output_buffer = b;
            channel_writing = true;
            is_registered = if c.channel_writing then c.is_registered else true;
          })

  -- `SendInLoop(const void* data, size_t len)` behind its first `if`; the call of `write` took `nwrote`.
  pub send_rest : List ℕ → ℕ → Bool → Connection → Outcome Connection
  send_rest bytes nwrote fault_error c = do
    let remaining = size_sub (length bytes) nwrote
    assert (leb remaining (length bytes))
    if not fault_error && ltb 0 remaining
        then keep_remaining (drop nwrote bytes) remaining c
        else ok c

  pub send_in_loop : WriteAnswer → List ℕ → Connection → Outcome Connection
  send_in_loop answer bytes c =
      let n = taken answer (length bytes) in
      if is_disconnected c.state
      then ok c
      else (if not c.channel_writing && readable_bytes c.output_buffer == 0
          then send_rest bytes n (is_broken answer) (
              call_if (is_taken answer && size_sub (length bytes) n == 0 && c.has_write_complete)
                write_complete_callback (record c { wire = c.wire ++ take n bytes }))
          else send_rest bytes 0 false c)

  -- `Send(const Slice& message)`.
  pub send : WriteAnswer → List ℕ → Connection → Outcome Connection
  send answer bytes c = if is_connected c.state then send_in_loop answer bytes c else ok c

  -- `Send(Buffer* message)`, with what is left of the message.
  pub send_buffer : WriteAnswer → Buffer → Connection → Outcome (Connection × Buffer)
  send_buffer answer message c =
      if is_connected c.state
      then (retrieve_all_as_string message >>= λ (bytes, left).
          send_in_loop answer bytes c >>= λ c'. ok (c', left))
      else ok (c, message)

  pub handle_read : ReadAnswer → Connection → Outcome Connection
  handle_read read_fails c = ok c
  handle_read (got []) c = handle_close c
  handle_read (got (x ∷ xs)) c = read_from_fd alloc (x ∷ xs) c.input_buffer >>= λ b.
      ok (call message_callback (record c { input_buffer = b }))
