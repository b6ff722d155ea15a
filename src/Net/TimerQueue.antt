-- ===== src/Net/TimerQueue.antt =====
-- The timers of a loop: mytinyhttpd/net/timer_queue.h, timer_queue.cc, timer.h and timer.cc.
-- A `Timer*` is an address into a store of timers; reading a timer that was deleted is a fault.
-- A time is its microseconds, and 0 is the invalid one. Both sets are lists in the order of their
-- pairs. What a callback does to the queue is an argument.
pub mod Places
pub mod Expired
pub mod Reached
pub mod Sets
pub mod Steps
pub mod Whole
use my_tiny_httpd.Prelude.{
  ℕ, zero, suc, ◌+◌, ◌-◌, ◌^◌, Bool, true, false, not, ◌&&◌, ◌||◌, List, [], ◌∷◌, ◌++◌, Option,
  none, some, Outcome, ok, fault, out_of_range, ◌>>=◌, ◌>>◌, assert, ◌==◌, ltb, leb, if◌then◌else◌,
  length,
}

-- The interval is a number of whole microseconds, where the source has a double of seconds; a timer
-- whose interval is 0 does not repeat.
pub record Timer : Type 0 where
  pub expiration : ℕ
  pub interval : ℕ
  pub sequence : ℕ

abbrev pub Entry : Type 0
Entry = ℕ × ℕ

pub record TimerQueue : Type 0 where
  -- Expiration and address.
  pub timers : List Entry
  -- Address and sequence.
  pub active_timers : List Entry
  pub is_calling_expired_timers : Bool
  pub canceling_timers : List Entry
  pub store : List (ℕ × Timer)
  pub timerfd : Option ℕ

pub new_queue : TimerQueue
new_queue = record {
  timers = [];
  active_timers = [];
  is_calling_expired_timers = false;
  canceling_timers = [];
  store = [];
  timerfd = none;
}

-- `std::pair`'s order.
abbrev pub pair_ltb : Entry → Entry → Bool
pair_ltb (a, b) (c, d) = ltb a c || (a == c && ltb b d)

abbrev pub pair_eq : Entry → Entry → Bool
pair_eq (a, b) (c, d) = a == c && b == d

-- `std::set`: `insert` with whether the element is new, `find`, and `erase` with how many went.
abbrev pub set_member : Entry → List Entry → Bool
set_member x [] = false
set_member x (y ∷ ys) = pair_eq y x || set_member x ys

pub set_insert : Entry → List Entry → Bool × List Entry
set_insert x [] = (true, x ∷ [])
set_insert x (y ∷ ys) =
    let (fresh, rest) = set_insert x ys in
    if pair_eq y x
    then (false, y ∷ ys)
    else (if pair_ltb x y then (true, x ∷ y ∷ ys) else (fresh, y ∷ rest))

abbrev pub set_erase : Entry → List Entry → ℕ × List Entry
set_erase x [] = (0, [])
set_erase x (y ∷ ys) =
    let (n, rest) = set_erase x ys in if pair_eq y x then (1, ys) else (n, y ∷ rest)

-- The timer at an address.
abbrev pub look_up : ℕ → List (ℕ × Timer) → Option Timer
look_up a [] = none
look_up a ((b, t) ∷ ts) = if b == a then some t else look_up a ts

pub deref : List (ℕ × Timer) → ℕ → Outcome Timer
deref store a = elim (look_up a store) [ none ↦ fault out_of_range | some t ↦ ok t ]

abbrev pub delete : ℕ → List (ℕ × Timer) → List (ℕ × Timer)
delete a [] = []
delete a ((b, t) ∷ ts) = if b == a then ts else (b, t) ∷ delete a ts

-- `Timer::Restart`.
abbrev pub restart : ℕ → Timer → Timer
restart now t = record t { expiration = if ltb 0 t.interval then now + t.interval else 0 }

abbrev pub update : ℕ → Timer → List (ℕ × Timer) → List (ℕ × Timer)
update a t' [] = []
update a t' ((b, t) ∷ ts) = if b == a then (b, t') ∷ ts else (b, t) ∷ update a t' ts

-- `timers_.size() == active_timers_.size()`.
abbrev pub same_sizes : TimerQueue → Bool
same_sizes q = length q.timers == length q.active_timers

abbrev pub is_earliest : ℕ → List Entry → Bool
is_earliest when [] = true
is_earliest when ((w, a) ∷ es) = ltb when w

-- `Insert`.
pub insert : ℕ → TimerQueue → Outcome (Bool × TimerQueue)
insert a q = do
  assert (same_sizes q)
  t ← deref q.store a
  let earliest_changed = is_earliest t.expiration q.timers
  let one = set_insert (t.expiration, a) q.timers
  assert one.0
  let two = set_insert (a, t.sequence) q.active_timers
  assert two.0
  let q' = record q { timers = one.1; active_timers = two.1 }
  assert (same_sizes q')
  ok (earliest_changed, q')

-- `AddTimerInLoop`.
pub add_timer_in_loop : ℕ → TimerQueue → Outcome TimerQueue
add_timer_in_loop a q = do
  (earliest_changed, q') ← insert a q
  t ← deref q'.store a
  ok (if earliest_changed then record q' { timerfd = some t.expiration } else q')

-- `AddTimer`, where `new` gives the address `a` and the counter `sequence`.
pub add_timer : ℕ → ℕ → ℕ → ℕ → TimerQueue → Outcome TimerQueue
add_timer a sequence when interval q = add_timer_in_loop a (record q {
  store = (a, record { expiration = when; interval = interval; sequence = sequence }) ∷ q.store;
})

-- The first branch of `CancelInLoop`.
pub cancel_active : Entry → TimerQueue → Outcome TimerQueue
cancel_active (a, sequence) q = do
  t ← deref q.store a
  let erased = set_erase (t.expiration, a) q.timers
  assert (erased.0 == 1)
  ok (record q {
    timers = erased.1;
    store = delete a q.store;
    active_timers = (set_erase (a, sequence) q.active_timers).1;
  })

-- `CancelInLoop`.
pub cancel_in_loop : Entry → TimerQueue → Outcome TimerQueue
cancel_in_loop timer q = do
  assert (same_sizes q)
  q' ←
      if set_member timer q.active_timers
      then cancel_active timer q
      else ok (
          if q.is_calling_expired_timers
          then record q { canceling_timers = (set_insert timer q.canceling_timers).1 }
          else q)
  assert (same_sizes q')
  ok q'

-- The entries in front of `lower_bound(sentry)`, and those from there.
abbrev pub split_at : Entry → List Entry → List Entry × List Entry
split_at sentry [] = ([], [])
split_at sentry (e ∷ es) =
    let (before, after) = split_at sentry es in
    if pair_ltb e sentry then (e ∷ before, after) else ([], e ∷ es)

-- The loop of `GetExpired`, on the set of active timers.
pub erase_active : List (ℕ × Timer) → List Entry → List Entry → Outcome (List Entry)
erase_active store [] active = ok active
erase_active store ((w, a) ∷ es) active = deref store a >>= λ t.
    assert ((set_erase (a, t.sequence) active).0 == 1)
    >> erase_active store es (set_erase (a, t.sequence) active).1

-- `GetExpired`; the sentry's address is UINTPTR_MAX.
pub get_expired : ℕ → TimerQueue → Outcome (List Entry × TimerQueue)
get_expired now q = do
  assert (same_sizes q)
  let parts = split_at (now, 2 ^ 64 - 1) q.timers
  assert (is_earliest now parts.1)
  active ← erase_active q.store parts.0 q.active_timers
  let q' = record q { timers = parts.1; active_timers = active }
  assert (same_sizes q')
  ok (parts.0, q')

-- The loop of `Reset`.
pub reset_all : ℕ → List Entry → TimerQueue → Outcome TimerQueue
reset_all now [] q = ok q
reset_all now ((w, a) ∷ es) q = deref q.store a >>= λ t.
    (if ltb 0 t.interval && not (set_member (a, t.sequence) q.canceling_timers)
      then (insert a (record q { store = update a (restart now t) q.store }) >>= λ (changed, q').
          ok q')
      else ok (record q { store = delete a q.store }))
    >>= reset_all now es

-- `Reset`.
pub reset : ℕ → List Entry → TimerQueue → Outcome TimerQueue
reset now expired q = do
  q' ← reset_all now expired q
  elim q'.timers [
    | [] ↦ ok q'
    | (w, a) ∷ es ↦ deref q'.store a >>= λ t.
        ok (if ltb 0 t.expiration then record q' { timerfd = some t.expiration } else q')
  ]

-- The callbacks of the expired timers, in order.
pub run_all : (ℕ → TimerQueue → Outcome TimerQueue) → List Entry → TimerQueue → Outcome TimerQueue
run_all callback [] q = ok q
run_all callback ((w, a) ∷ es) q = deref q.store a >>= λ t. callback a q >>= run_all callback es

-- `HandleRead` at the time `now`.
pub handle_read : (ℕ → TimerQueue → Outcome TimerQueue) → ℕ → TimerQueue → Outcome TimerQueue
handle_read callback now q = do
  (expired, q1) ← get_expired now q
  q2 ←
      run_all callback expired
        (record q1 { is_calling_expired_timers = true; canceling_timers = [] })
  reset now expired (record q2 { is_calling_expired_timers = false })
