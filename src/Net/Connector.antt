-- ===== src/Net/Connector.antt =====
-- Connecting to a server: mytinyhttpd/net/connector.h and connector.cc, as the loop's thread runs it.
-- What `connect` and the socket's error answer are arguments. Functions left for the loop are listed
-- with the delay of a timer, the last one first.
pub mod Backoff
use my_tiny_httpd.Prelude.{
  ℕ, ◌*◌, min, Bool, true, false, not, ◌||◌, List, [], ◌∷◌, Option, none, some, Outcome, ok, fault,
  out_of_range, ◌>>=◌, ◌>>◌, assert, if◌then◌else◌,
}

pub data State : Type 0 where
  disconnected connecting connected : State

pub data Task : Type 0 where
  stop_in_loop_task reset_channel_task : Task
  start_in_loop_after : ℕ → Task

-- What `connect` answers: success or an attempt that goes on, an error that a retry may mend, or
-- another one.
pub data ConnectAnswer : Type 0 where
  in_progress unavailable refused_for_good : ConnectAnswer

-- What the socket says when it becomes writable.
pub data SocketAnswer : Type 0 where
  is_up has_error self_connected : SocketAnswer

-- `channel` is the descriptor of the channel; `closed` and `handed_over` are what became of the
-- sockets.
pub record Connector : Type 0 where
  pub is_connect : Bool
  pub state : State
  pub channel : Option ℕ
  pub retry_delay_ms : ℕ
  pub closed : List ℕ
  pub handed_over : List ℕ
  pub tasks : List Task

abbrev pub init_retry_delay_ms : ℕ
init_retry_delay_ms = 500

abbrev pub max_retry_delay_ms : ℕ
max_retry_delay_ms = 30 * 1000

pub new_connector : Connector
new_connector = record {
  is_connect = false;
  state = disconnected;
  channel = none;
  retry_delay_ms = init_retry_delay_ms;
  closed = [];
  handed_over = [];
  tasks = [];
}

abbrev pub is_disconnected : State → Bool
is_disconnected disconnected = true
is_disconnected _ = false

abbrev pub is_connecting : State → Bool
is_connecting connecting = true
is_connecting _ = false

abbrev pub is_none : Option ℕ → Bool
is_none none = true
is_none (some fd) = false

abbrev pub queue : Task → Connector → Connector
queue t c = record c { tasks = t ∷ c.tasks }

-- `Retry`.
pub retry : ℕ → Connector → Connector
retry fd c =
    let c' = record c { closed = fd ∷ c.closed; state = disconnected } in
    if c.is_connect
    then queue (start_in_loop_after c.retry_delay_ms)
        (record c' { retry_delay_ms = min (c.retry_delay_ms * 2) max_retry_delay_ms })
    else c'

-- `Connecting`.
pub begin_connecting : ℕ → Connector → Outcome Connector
begin_connecting fd c = do
  assert (is_none c.channel)
  ok (record c { state = connecting; channel = some fd })

-- `Connect`, with the new socket `fd`.
pub connect : ConnectAnswer → ℕ → Connector → Outcome Connector
connect in_progress fd c = begin_connecting fd c
connect unavailable fd c = ok (retry fd c)
connect refused_for_good fd c = ok (record c { closed = fd ∷ c.closed })

pub start_in_loop : ConnectAnswer → ℕ → Connector → Outcome Connector
start_in_loop answer fd c = do
  assert (is_disconnected c.state)
  if c.is_connect then connect answer fd c else ok c

pub start : ConnectAnswer → ℕ → Connector → Outcome Connector
start answer fd c = start_in_loop answer fd (record c { is_connect = true })

pub restart : ConnectAnswer → ℕ → Connector → Outcome Connector
restart answer fd c =
    start_in_loop answer fd
      (record c { state = disconnected; retry_delay_ms = init_retry_delay_ms; is_connect = true })

pub stop : Connector → Connector
stop c = queue stop_in_loop_task (record c { is_connect = false })

-- `RemoveAndResetChannel`, with the descriptor.
pub remove_and_reset_channel : Connector → Outcome (ℕ × Connector)
remove_and_reset_channel c = elim c.channel [
  | none ↦ fault out_of_range
  | some fd ↦ ok (fd, queue reset_channel_task c)
]

abbrev pub reset_channel : Connector → Connector
reset_channel c = record c { channel = none }

pub stop_in_loop : Connector → Outcome Connector
stop_in_loop c =
    if is_connecting c.state
    then (remove_and_reset_channel (record c { state = disconnected }) >>= λ (fd, c').
        ok (retry fd c'))
    else ok c

abbrev pub finish : SocketAnswer → ℕ → Connector → Connector
finish is_up fd c =
    if c.is_connect
    then record c { state = connected; handed_over = fd ∷ c.handed_over }
    else record c { state = connected; closed = fd ∷ c.closed }
finish has_error fd c = retry fd c
finish self_connected fd c = retry fd c

pub handle_write : SocketAnswer → Connector → Outcome Connector
handle_write answer c =
    if is_connecting c.state
    then (remove_and_reset_channel c >>= λ (fd, c'). ok (finish answer fd c'))
    else (assert (is_disconnected c.state) >> ok c)

pub handle_error : Connector → Outcome Connector
handle_error c =
    if is_connecting c.state
    then (remove_and_reset_channel c >>= λ (fd, c'). ok (retry fd c'))
    else ok c
