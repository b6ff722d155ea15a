-- ===== src/Tests/Loops.antt =====
-- The theorems about the loops, their pollers, timers and pools, and the connector of mytinyhttpd/net at concrete inputs.
use my_tiny_httpd.Prelude.{
  List, not, ◌==◌, if◌then◌else◌, none, ◌*◌, ◌^◌, ◌++◌, some, ℕ, ◌+◌, ◌%◌, min, ◌≡◌, refl, true,
  false, [], ◌∷◌, ok, fault, assertion, ◌>>=◌, Returns, arith,
}
use my_tiny_httpd.Net.ThreadPool.{new_pool, set_thread_num, start}
use my_tiny_httpd.Net.ThreadPool.RoundRobin.{next_loops, next_loops-start, loops_of}
use my_tiny_httpd.Net.TimingWheel.{TimingWheel, member, find_entry, on_timer, on_timers, on_message}
use my_tiny_httpd.Net.TimingWheel.Silence.{
  Idle, IsPosition, on_timers-silence, on_message-on_timers,
}
use my_tiny_httpd.Net.TimingList.{Connections, TimingList, set_context, on_timer as on_list_timer}
use my_tiny_httpd.Net.TimingList.Idle.{is_idle, select, on_timer-idle}
use my_tiny_httpd.Net.Channel.{Poller, Request}
use my_tiny_httpd.Net.Connector.{new_connector}
use my_tiny_httpd.Net.Connector.Backoff.{attempts, delays, attempts_lem}
use my_tiny_httpd.Net.TimerQueue.{TimerQueue, get_expired}
use my_tiny_httpd.Net.TimerQueue.Expired.{IsValid, AllDue, NoneDue, get_expired_lem}
use my_tiny_httpd.Net.TimerQueue.Whole.{IsWhole}
use my_tiny_httpd.Net.TimerQueue.Reached.{
  cancel, run_op, one_timer, one_timer-Reached, run_op-Reached,
}
use my_tiny_httpd.Net.EventLoop.{
  Functor, Actions, quit, begin_loop, functor, done, queue_in_loop, handle_wakeup, polling,
  new_loop, Event, step, queue_there, wakeup_there, on_events, on_event, pay, loop_step, test_quit,
  poll, next_handler, next_functor, act, queue_here,
}
use my_tiny_httpd.Net.EventLoop.Wakeup.{Ordered, Awake, on_events-Awake}

next_loops-start_example :
    Returns
      (λ (given, p).
        (given ≡ loops_of (λ i. i + 100) 3)
        × (p.threads ≡ loops_of (λ i. i + 100) 3)
        × (start (λ i. i + 100) (set_thread_num 3 (new_pool 7)) ≡ ok p))
      (start (λ i. i + 100) (set_thread_num 3 (new_pool 7)) >>= next_loops 3)
next_loops-start_example = next_loops-start 7 3 (λ i. i + 100) (omega arith)

-- Three idle seconds; connection 5 has just sent a message, connection 6 one tick before.
abbrev three_buckets : TimingWheel
three_buckets = record {
  buckets = [] ∷ (6 ∷ []) ∷ (5 ∷ []) ∷ [];
  pushes = 4;
  entries = (6, 0) ∷ (5, 1) ∷ [];
}

abbrev turn : ℕ → ℕ
turn n = n % 3

turn-IsPosition : IsPosition turn 3
turn-IsPosition = record { apart = λ i j l u e. omega (arith, e) }

five-Idle : Idle turn 0 5 three_buckets
unfolding find_entry
five-Idle = record {
  bucket = 2;
  since = 4;
  behind = refl;
  newest = (refl, refl);
  pushed = refl;
  entry = refl;
}

on_timers-silence_example :
    (member 5 (on_timers 2 three_buckets).0 ≡ false)
    × (member 5 (on_timer (on_timers 2 three_buckets).1).0 ≡ true)
    × (on_message turn 5 (on_timer (on_timers 2 three_buckets).1).1 ≡ fault assertion)
on_timers-silence_example = on_timers-silence turn 2 5 three_buckets five-Idle refl

on_message-on_timers_example :
    Returns (Idle turn 0 5) (on_message turn 5 (on_timers 2 three_buckets).1)
on_message-on_timers_example =
    on_message-on_timers turn 2 5 three_buckets turn-IsPosition five-Idle (omega arith)

-- Two timers, of which the first is due at time 7.
abbrev two_timers : TimerQueue
two_timers = record {
  timers = (5, 100) ∷ (9, 90) ∷ [];
  active_timers = (90, 2) ∷ (100, 1) ∷ [];
  is_calling_expired_timers = false;
  canceling_timers = [];
  store =
      (100, record { expiration = 5; interval = 0; sequence = 1 })
      ∷ (90, record { expiration = 9; interval = 4; sequence = 2 })
      ∷ [];
  timerfd = some 5;
}

two_timers-IsValid : IsValid two_timers
two_timers-IsValid = record {
  sorted = ((refl, tt), (tt, tt));
  apart = ((omega arith, tt), (tt, tt));
  known = (
    (record { expiration = 5; interval = 0; sequence = 1 }, refl, refl, refl, omega arith),
    ((record { expiration = 9; interval = 4; sequence = 2 }, refl, refl, refl, omega arith), tt),
  );
  sizes = refl;
}

get_expired_lem_example :
    Returns
      (λ (expired, q').
        (expired ++ q'.timers ≡ two_timers.timers)
        × AllDue 7 expired
        × NoneDue 7 q'.timers
        × IsValid q')
      (get_expired 7 two_timers)
get_expired_lem_example = get_expired_lem 7 two_timers two_timers-IsValid

run_op-Reached_example : Returns IsWhole (run_op (cancel (100, 1)) (one_timer 100 1 5 0))
run_op-Reached_example =
    run_op-Reached (cancel (100, 1)) (one_timer 100 1 5 0)
      (one_timer-Reached 100 1 5 0 (omega arith)) tt

-- Connection 4 has been silent for nine seconds, 5 is gone, 6 has just sent a message.
abbrev three_connections : TimingList
three_connections = record {
  idle_seconds = 8;
  connection_list = 4 ∷ 5 ∷ 6 ∷ [];
  timing_context = set_context 4 1000000 (set_context 6 9500000 (λ c. none));
}

abbrev but_five : Connections
but_five = record { alive = λ c. not (c == 5); is_connected = λ c. true }

on_timer-idle_example :
    Returns
      (λ r.
        r.0
        ≡ select (is_idle but_five 10000000 8 three_connections.timing_context) (4 ∷ 5 ∷ 6 ∷ []))
      (on_list_timer but_five 10000000 three_connections)
on_timer-idle_example =
    on_timer-idle but_five 10000000 three_connections
      ((omega arith, (omega arith, tt)), ((omega arith, tt), (tt, tt)))
      ((
        1000000,
        omega arith,
        (λ e. refl),
        (9500000, omega arith, (λ e. cc), (9500000, omega arith, (λ e. refl), tt)),
      ))

attempts_lem_example :
    Returns
      (λ c.
        (c.tasks ≡ delays 0 (3 ∷ 4 ∷ 5 ∷ []) [])
        × (c.closed ≡ 5 ∷ 4 ∷ 3 ∷ [])
        × (c.retry_delay_ms ≡ min (500 * 2 ^ 3) 30000))
      (attempts (3 ∷ 4 ∷ 5 ∷ []) (record new_connector { is_connect = true }))
attempts_lem_example = attempts_lem (3 ∷ 4 ∷ 5 ∷ [])

-- A poller that knows descriptor 1, and a channel on descriptor 7.
abbrev one_known : Poller
one_known = record {
  has_channel = λ fd. fd == 1;
  interest = λ fd. if fd == 1 then some (true, false) else none;
}

abbrev busy : List Request
busy =
    Request.enable_reading ∷ Request.enable_writing ∷ Request.disable_all ∷ Request.removal
    ∷ Request.enable_reading ∷ []

-- A functor that queues another one, and that is queued by another thread.
abbrev queueing : Functor
queueing = functor 1 (queue_in_loop (functor 2 done) done)

-- A wish to quit that comes before `Loop` is forgotten.
abbrev setup : Actions
setup = quit done

-- The loop is asleep when the functor comes.
abbrev asleep : List Event
asleep = step [] ∷ step [] ∷ step [] ∷ queue_there queueing ∷ wakeup_there ∷ []

-- It is woken, calls the functor, and goes to its poll again.
abbrev awake : List Event
awake =
    asleep
    ++ step (handle_wakeup ∷ []) ∷ step [] ∷ step [] ∷ step [] ∷ step [] ∷ step [] ∷ step [] ∷ []

on_events-Awake_example :
    Ordered (on_events awake (new_loop setup))
    × Awake (on_events awake (new_loop setup)).phase (on_events awake (new_loop setup))
on_events-Awake_example = on_events-Awake setup awake tt

-- The second functor still waits there, and has been announced.
on_events_asleep_again :
    ((on_events awake (new_loop setup)).phase ≡ polling)
    × ((on_events awake (new_loop setup)).pending_functors ≡ functor 2 done ∷ [])
    × ((on_events awake (new_loop setup)).wakeups ≡ 1)
unfolding on_events on_event pay loop_step test_quit poll next_handler next_functor act queue_here
    new_loop begin_loop
on_events_asleep_again = (refl, refl, refl)
