-- ===== src/Net/EventLoop.antt =====
-- The event loop with the functors that other threads give it: mytinyhttpd/net/event_loop.h and
-- event_loop.cc, from the making of the loop on through one call of `Loop`.
-- The thread of the loop takes small steps: a test, a poll, one action of a callback, and so on.
-- Other threads take theirs in between: putting a functor into the queue under the mutex, and the
-- write to the event descriptor that follows, are two steps. The poller's answer is an argument.
pub mod Wakeup
use my_tiny_httpd.Prelude.{
  ℕ, zero, suc, ◌+◌, ◌-◌, Bool, true, false, ◌||◌, List, [], ◌∷◌, ◌++◌, Outcome, ok, fault,
  assertion, ◌>>=◌, ◌>>◌, assert, not, if◌then◌else◌,
}

-- A functor or a callback, by what it asks of the loop while it runs in the loop's thread.
mutual
  pub data Functor : Type 0 where
    functor : ℕ → Actions → Functor

  pub data Actions : Type 0 where
    done : Actions
    queue_in_loop : Functor → Actions → Actions
    run_in_loop : Functor → Actions → Actions
    quit : Actions → Actions

-- What an active channel does: `HandleRead` of the event descriptor, or a callback.
pub data Handler : Type 0 where
  handle_wakeup : Handler
  handle_event : Actions → Handler

-- Where the thread of the loop stands; it is `starting` from `EventLoop()` until it enters `Loop`.
pub data Phase : Type 0 where
  starting testing polling handling calling ended : Phase

pub record EventLoop : Type 0 where
  pub is_looping : Bool
  pub is_quit : Bool
  pub is_event_handling : Bool
  pub is_calling_pending_functors : Bool
  pub iteration : ℕ
  -- The count of the event descriptor.
  pub wakeups : ℕ
  pub pending_functors : List Functor
  -- Where the thread of the loop stands: the rest of the callback that runs, the channels still to
  -- be handled, and the functors still to be called.
  pub phase : Phase
  pub running : Actions
  pub handlers : List Handler
  pub functors : List Functor
  -- How many threads have still to write to the event descriptor.
  pub owed : ℕ
  -- All functors that have been put into the queue, and those that have been called from it.
  pub queued : List Functor
  pub called : List Functor

-- One callback behind the other.
pub join : Actions → Actions → Actions
join done rest = rest
join (queue_in_loop f a) rest = queue_in_loop f (join a rest)
join (run_in_loop f a) rest = run_in_loop f (join a rest)
join (quit a) rest = quit (join a rest)

abbrev pub body : Functor → Actions
body (functor n actions) = actions

-- `EventLoop()`, which makes the wakeup channel readable. Other threads may know the loop from
-- here on; `setup` is what its own thread does with it before it calls `Loop`.
unfoldable pub new_loop : Actions → EventLoop
new_loop setup = record {
  is_looping = false;
  is_quit = false;
  is_event_handling = false;
  is_calling_pending_functors = false;
  iteration = 0;
  wakeups = 0;
  pending_functors = [];
  phase = starting;
  running = setup;
  handlers = [];
  functors = [];
  owed = 0;
  queued = [];
  called = [];
}

-- `Loop` up to its first test; a wish to quit that came before is forgotten.
unfoldable pub begin_loop : EventLoop → EventLoop
begin_loop l = record l { is_looping = true; is_quit = false; phase = testing }

abbrev pub push_functor : Functor → EventLoop → EventLoop
push_functor f l = record l {
  pending_functors = l.pending_functors ++ (f ∷ []);
  queued = l.queued ++ (f ∷ []);
}

-- `Wakeup`.
abbrev pub wakeup : EventLoop → EventLoop
wakeup l = record l { wakeups = suc l.wakeups }

-- `QueueInLoop` in the thread of the loop.
unfoldable pub queue_here : Functor → EventLoop → EventLoop
queue_here f l =
    if l.is_calling_pending_functors then wakeup (push_functor f l) else push_functor f l

-- One action of the callback that runs: `RunInLoop` calls its functor at once here, and `Quit`
-- does not wake its own thread.
unfoldable pub act : Actions → EventLoop → EventLoop
act done l = l
act (queue_in_loop f rest) l = queue_here f (record l { running = rest })
act (run_in_loop f rest) l = record l { running = join (body f) rest }
act (quit rest) l = record l { running = rest; is_quit = true }

-- The next channel; behind the last one `DoPendingFunctors` begins.
unfoldable pub next_handler : List Handler → EventLoop → EventLoop
next_handler (handle_wakeup ∷ hs) l = record l { handlers = hs; wakeups = 0 }
next_handler (handle_event a ∷ hs) l = record l { handlers = hs; running = a }
next_handler [] l = record l {
  phase = calling;
  is_event_handling = false;
  is_calling_pending_functors = true;
  functors = l.pending_functors;
  pending_functors = [];
}

-- The next functor; behind the last one the loop is tested.
unfoldable pub next_functor : List Functor → EventLoop → EventLoop
next_functor (f ∷ fs) l = record l {
  functors = fs;
  running = body f;
  called = l.called ++ (f ∷ []);
}
next_functor [] l = record l { phase = testing; is_calling_pending_functors = false }

abbrev pub is_done : Actions → Bool
is_done done = true
is_done _ = false

-- `while (!is_quit_)`.
unfoldable pub test_quit : EventLoop → EventLoop
test_quit l =
    if l.is_quit
    then record l { phase = ended; is_looping = false }
    else record l { phase = polling }

-- `Poll` returns the active channels.
unfoldable pub poll : List Handler → EventLoop → EventLoop
poll active l = record l {
  phase = handling;
  iteration = suc l.iteration;
  is_event_handling = true;
  handlers = active;
}

-- A step of the loop's thread; `active` is the answer of the poller, where it is asked.
unfoldable pub loop_step : Phase → List Handler → EventLoop → EventLoop
loop_step starting active l = if is_done l.running then begin_loop l else act l.running l
loop_step testing active l = test_quit l
loop_step polling active l = poll active l
loop_step handling active l =
    if is_done l.running then next_handler l.handlers l else act l.running l
loop_step calling active l =
    if is_done l.running then next_functor l.functors l else act l.running l
loop_step ended active l = l

pub data Event : Type 0 where
  -- The thread of the loop.
  step : List Handler → Event
  -- Another thread: `QueueInLoop` or `RunInLoop` puts its functor into the queue, `Quit` sets its
  -- flag, and either ends with `Wakeup`.
  queue_there : Functor → Event
  quit_there : Event
  wakeup_there : Event

-- One of the threads that have still to write does so.
unfoldable pub pay : ℕ → EventLoop → EventLoop
pay zero l = l
pay (suc n) l = record (wakeup l) { owed = n }

unfoldable pub on_event : Event → EventLoop → EventLoop
on_event (step active) l = loop_step l.phase active l
on_event (queue_there f) l = record (push_functor f l) { owed = suc l.owed }
on_event quit_there l = record l { is_quit = true; owed = suc l.owed }
on_event wakeup_there l = pay l.owed l

unfoldable pub on_events : List Event → EventLoop → EventLoop
on_events [] l = l
on_events (e ∷ es) l = on_events es (on_event e l)
