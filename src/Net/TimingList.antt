-- ===== src/Net/TimingList.antt =====
-- Idle connections are shut down, by a list: mytinyhttpd/net/timing_list.h and timing_list.cc.
-- A connection is a number, and the list holds it at most once, so that the position in its node is
-- where it stands. A time is its microseconds. Which connections are alive and which are up is an
-- argument; `timing_context` is the time in each connection's node, if there is one.
pub mod Idle
use my_tiny_httpd.Prelude.{
  ℕ, ◌+◌, ◌*◌, Bool, true, false, List, [], ◌∷◌, ◌++◌, Option, none, some, Outcome, Fault, ok,
  fault, assertion, out_of_range, ◌>>=◌, ltb, ◌==◌, if◌then◌else◌,
}

pub record TimingList : Type 0 where
  pub idle_seconds : ℕ
  pub connection_list : List ℕ
  pub timing_context : ℕ → Option ℕ

-- What the weak pointers and the connections answer.
pub record Connections : Type 0 where
  pub alive : ℕ → Bool
  pub is_connected : ℕ → Bool

abbrev pub micro_seconds_per_second : ℕ
micro_seconds_per_second = 1000 * 1000

pub new_timing_list : ℕ → TimingList
new_timing_list idle_seconds = record {
  idle_seconds = idle_seconds;
  connection_list = [];
  timing_context = λ c. none;
}

abbrev pub set_context : ℕ → ℕ → (ℕ → Option ℕ) → ℕ → Option ℕ
set_context c time context d = if c == d then some time else context d

-- The iterator of the node; behind an erased element it is none.
abbrev pub erase_at : ℕ → List ℕ → Outcome (List ℕ)
erase_at c [] = fault out_of_range
erase_at c (d ∷ ds) =
    let rest = erase_at c ds in if d == c then ok ds else (rest >>= λ es. ok (d ∷ es))

-- What `AnyCast` answers, behind the pointer.
abbrev pub deref_node : Fault → Option ℕ → Outcome ℕ
deref_node e none = fault e
deref_node e (some time) = ok time

-- The loop of `OnTimer`: the connections that are shut down, those that stay, and their nodes.
abbrev pub timer_loop :
    Connections → ℕ → ℕ → List ℕ → (ℕ → Option ℕ) → Outcome (List ℕ × List ℕ × (ℕ → Option ℕ))
timer_loop s now idle [] context = ok ([], [], context)
timer_loop s now idle (c ∷ cs) context =
    let dropped = timer_loop s now idle cs context in
    let stepped = timer_loop s now idle cs (set_context c now context) in
    if s.alive c
    then (deref_node out_of_range (context c) >>= λ time.
        if ltb (time + idle * micro_seconds_per_second) now
        then (dropped >>= λ (shut, kept, context').
            ok ((if s.is_connected c then c ∷ shut else shut), c ∷ kept, context'))
        else (if ltb now time
            then (stepped >>= λ (shut, kept, context'). ok (shut, c ∷ kept, context'))
            else ok ([], c ∷ cs, context)))
    else dropped

-- `OnTimer` at the time `now`, with the connections that it shuts down.
pub on_timer : Connections → ℕ → TimingList → Outcome (List ℕ × TimingList)
on_timer s now l = do
  (shut, kept, context) ← timer_loop s now l.idle_seconds l.connection_list l.timing_context
  ok (shut, record l { connection_list = kept; timing_context = context })

-- `OnConnection`.
pub on_connection : Connections → ℕ → ℕ → TimingList → Outcome TimingList
on_connection s now c l =
    if s.is_connected c
    then ok (record l {
      connection_list = l.connection_list ++ (c ∷ []);
      timing_context = set_context c now l.timing_context;
    })
    else (deref_node assertion (l.timing_context c) >>= λ time.
        erase_at c l.connection_list >>= λ rest. ok (record l { connection_list = rest }))

-- `OnMessage`; `splice` moves the element to the end.
pub on_message : ℕ → ℕ → TimingList → Outcome TimingList
on_message c receive_time l = deref_node assertion (l.timing_context c) >>= λ time.
    erase_at c l.connection_list >>= λ rest. ok (record l {
      connection_list = rest ++ (c ∷ []);
      timing_context = set_context c receive_time l.timing_context;
    })
