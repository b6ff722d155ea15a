-- ===== src/Net/TcpConnection/Life.antt =====
-- The states that a connection of mytinyhttpd/net/tcp_connnection.cc goes through, whatever it is
-- asked to do, and what may be asked in each.
use my_tiny_httpd.Prelude.{
  ℕ, ◌≡◌, Bool, true, false, ◌⊎◌, List, [], ◌∷◌, Outcome, ok, if◌then◌else◌,
}
use my_tiny_httpd.Net.Buffer.{Allocation}
use my_tiny_httpd.Net.TcpConnection.{
  Connection, State, disconnected, connected, disconnecting, WriteAnswer, is_connected,
  is_disconnected, is_connecting, is_open, shutdown, shutdown_and_force_close_after, force_close,
  force_close_with_delay, start_read, stop_read, connect_established, connect_destroyed,
  handle_close, run_force_close, handle_write, send,
}

-- What a connection's loop and its user may do, with the socket's answers. The end of the stream
-- is what `HandleRead` then does.
pub data Operation : Type 0 where
  sends : WriteAnswer → List ℕ → Operation
  writable : WriteAnswer → Operation
  establishes destroys reads_end : Operation
  shuts_down shuts_down_and_force_closes : Operation
  force_closes force_closes_later runs_force_close : Operation
  starts_read stops_read : Operation

abbrev pub operate : Allocation → Operation → Connection → Outcome Connection
operate alloc (sends answer bytes) c = send alloc answer bytes c
operate alloc (writable answer) c = handle_write answer c
operate alloc establishes c = connect_established c
operate alloc destroys c = connect_destroyed c
operate alloc reads_end c = handle_close c
operate alloc shuts_down c = ok (shutdown c)
operate alloc shuts_down_and_force_closes c = ok (shutdown_and_force_close_after c)
operate alloc force_closes c = ok (force_close c)
operate alloc force_closes_later c = ok (force_close_with_delay c)
operate alloc runs_force_close c = run_force_close c
operate alloc starts_read c = ok (start_read c)
operate alloc stops_read c = ok (stop_read c)

abbrev pub after_state : Operation → State → State
after_state establishes s = connected
after_state destroys s = if is_connected s then disconnected else s
after_state reads_end s = disconnected
after_state shuts_down s = if is_connected s then disconnecting else s
after_state shuts_down_and_force_closes s = if is_connected s then disconnecting else s
after_state force_closes s = if is_open s then disconnecting else s
after_state force_closes_later s = if is_open s then disconnecting else s
after_state runs_force_close s = if is_open s then disconnected else s
after_state _ s = s

-- Whether the channel reads.
abbrev pub after_reading : Operation → State → Bool → Bool
after_reading establishes s b = true
after_reading destroys s b = if is_connected s then false else b
after_reading reads_end s b = false
after_reading runs_force_close s b = if is_open s then false else b
after_reading starts_read s b = true
after_reading stops_read s b = false
after_reading _ s b = b

-- Whether the poller surely knows the channel.
abbrev pub after_registered : Operation → State → Bool → Bool
after_registered establishes s b = true
after_registered destroys s b = false
after_registered reads_end s b = true
after_registered runs_force_close s b = if is_open s then true else b
after_registered _ s b = b

-- What may be asked in which state: `ConnectEstablished` of a new connection, `HandleClose` of one
-- that is up, and `ConnectDestroyed` of one that is connected, or that is closed, has not begun to
-- read again and is still known to the poller.
abbrev pub Allowed : Operation → State → Bool → Bool → Type 0
Allowed establishes s reading registered = is_connecting s ≡ true
Allowed reads_end s reading registered = is_open s ≡ true
Allowed destroys s reading registered =
    (is_connected s ≡ true) ⊎ ((is_disconnected s ≡ true) × (reading ≡ false) × (registered ≡ true))
Allowed _ s reading registered = Unit {0}

abbrev pub AllAllowed : List Operation → State → Bool → Bool → Type 0
AllAllowed [] s reading registered = Unit {0}
AllAllowed (o ∷ os) s reading registered =
    Allowed o s reading registered
    × AllAllowed os (after_state o s) (after_reading o s reading) (after_registered o s registered)

-- A closed connection does not write, and the write side of a new one is not shut down.
pub record IsQuiet (c : Connection) : Type 0 where
  pub closed : is_disconnected c.state ≡ true → c.channel_writing ≡ false
  pub fresh : is_connecting c.state ≡ true → c.is_shut ≡ false

pub record Steps (s : State) (reading registered : Bool) (c : Connection) : Type 0 where
  pub state : c.state ≡ s
  pub reads : c.channel_reading ≡ reading
  pub known : registered ≡ true → c.is_registered ≡ true
  pub quiet : IsQuiet c
