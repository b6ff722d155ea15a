-- ===== src/Net/TimerQueue/Reached.antt =====
-- Adding and cancelling timers in mytinyhttpd/net/timer_queue.cc: no assertion fails, and both sets
-- and the stored timers stay in step.
use my_tiny_httpd.Prelude.{
  ℕ, ◌-◌, ◌^◌, ◌<◌, ◌≡◌, refl, subst, Bool, true, false, List, [], ◌∷◌, Option, none, some, Outcome,
  ok, ◌>>=◌, ◌==◌, ==_iff, ==_refl, Bool-cases, inl, inr, length, Returns, Returns->>=,
  Returns-assert, if◌then◌else◌,
}
use my_tiny_httpd.Net.TimerQueue.{
  Timer, Entry, TimerQueue, new_queue, set_member, set_insert, set_erase, look_up, deref,
  same_sizes, insert, add_timer_in_loop, add_timer, cancel_active, cancel_in_loop,
}
use my_tiny_httpd.Net.TimerQueue.Expired.{Fresh, set_erase-size}
use my_tiny_httpd.Net.TimerQueue.Sets.{FreshFirst, set_insert-size}
use my_tiny_httpd.Net.TimerQueue.Whole.{
  IsWhole, Known-Fresh, Owned-FreshFirst, Fresh-member, FreshFirst-member,
}
use my_tiny_httpd.Net.TimerQueue.Places.{Owned-member}
use my_tiny_httpd.Net.TimerQueue.Steps.{Inserted-IsWhole, Deleted-IsWhole}

timerfd-IsWhole : (fd : Option ℕ) (q : TimerQueue) → IsWhole q → IsWhole (record q { timerfd = fd })
timerfd-IsWhole fd q w = record {
  valid = record {
    sorted = w.valid.sorted;
    apart = w.valid.apart;
    known = w.valid.known;
    sizes = w.valid.sizes;
  };
  owned = w.owned;
  single = w.single;
}

canceling-IsWhole :
    (c : List Entry) (q : TimerQueue) → IsWhole q → IsWhole (record q { canceling_timers = c })
canceling-IsWhole c q w = record {
  valid = record {
    sorted = w.valid.sorted;
    apart = w.valid.apart;
    known = w.valid.known;
    sizes = w.valid.sizes;
  };
  owned = w.owned;
  single = w.single;
}

if-IsWhole : (b : Bool) (q q' : TimerQueue) → IsWhole q → IsWhole q' → IsWhole (if b then q else q')
if-IsWhole true q q' w w' = w
if-IsWhole false q q' w w' = w'

deref_found :
    (a : ℕ) (t : Timer) (store : List (ℕ × Timer)) → look_up a store ≡ some t → deref store a ≡ ok t
unfolding deref
deref_found a t store l = rw (deref, l) refl

Returns-deref :
    {B : Type 0} (P : B → Type 0) (a : ℕ) (t : Timer) (store : List (ℕ × Timer))
    (f : Timer → Outcome B)
    → look_up a store ≡ some t
    → Returns P (f t)
    → Returns P (deref store a >>= f)
Returns-deref P a t store f l h = rw (deref_found a t store l) h

same_sizes-IsWhole : (q : TimerQueue) → IsWhole q → same_sizes q ≡ true
same_sizes-IsWhole q w = (==_iff (length q.timers) (length q.active_timers)).1 w.valid.sizes

add_timer-IsWhole :
    (a n when interval : ℕ) (q : TimerQueue)
    → look_up a q.store ≡ none
    → a < 2 ^ 64 - 1
    → IsWhole q
    → Returns IsWhole (add_timer a n when interval q)
unfolding add_timer add_timer_in_loop insert
add_timer-IsWhole a n when interval q free small w =
    Returns->>= Inserted IsWhole (insert a _) _
      (Returns-assert Inserted (same_sizes q) _ (same_sizes-IsWhole q w) (
        Returns-deref Inserted a timer stored _ found (
          Returns-assert Inserted (set_insert (when, a) q.timers).0 _
            (set_insert-size (when, a) q.timers (Fresh-member when a q.timers fresh)).0
            (Returns-assert Inserted (set_insert (a, n) q.active_timers).0 _
              (set_insert-size (a, n) q.active_timers
                (FreshFirst-member a n q.active_timers first)).0
              (Returns-assert Inserted (same_sizes q') _ (same_sizes-IsWhole q' whole)
                (found, whole))))))
      (λ (changed, r) (l, k).
        Returns-deref IsWhole a timer r.store _ l
          (if-IsWhole changed _ r (timerfd-IsWhole (some when) r k) k))
  where
    timer : Timer
    timer = record { expiration = when; interval = interval; sequence = n }

    stored : List (ℕ × Timer)
    stored = (a, timer) ∷ q.store

    found : look_up a stored ≡ some timer
    found = rw (==_refl a) refl

    fresh : Fresh a q.timers
    fresh = Known-Fresh q.store q.active_timers a q.timers free w.valid.known

    first : FreshFirst a q.active_timers
    first = Owned-FreshFirst q.store q.timers a q.active_timers free w.owned

    q' : TimerQueue
    q' = record q {
      store = stored;
      timers = (set_insert (when, a) q.timers).1;
      active_timers = (set_insert (a, n) q.active_timers).1;
    }

    whole : IsWhole q'
    whole = Inserted-IsWhole a n when interval q free small w

    Inserted : Bool × TimerQueue → Type 0
    Inserted (changed, r) = (look_up a r.store ≡ some timer) × IsWhole r

cancel_active-IsWhole :
    (a n : ℕ) (q : TimerQueue)
    → set_member (a, n) q.active_timers ≡ true
    → IsWhole q
    → Returns IsWhole (cancel_active (a, n) q)
unfolding cancel_active
cancel_active-IsWhole a n q there w =
    let (t, l, here) = Owned-member q.store q.timers a n q.active_timers there w.owned in
    Returns-deref IsWhole a t q.store _ l (
      Returns-assert IsWhole ((set_erase (t.expiration, a) q.timers).0 == 1) _
        ((==_iff (set_erase (t.expiration, a) q.timers).0 1).1
          (set_erase-size (t.expiration, a) q.timers here).0)
        (Deleted-IsWhole a n t q l here there w))

cancel_in_loop-IsWhole :
    (timer : Entry) (q : TimerQueue) → IsWhole q → Returns IsWhole (cancel_in_loop timer q)
unfolding cancel_in_loop
cancel_in_loop-IsWhole (a, n) q w =
    Returns-assert IsWhole (same_sizes q) _ (same_sizes-IsWhole q w) (
      Returns->>= IsWhole IsWhole cancelled _ branch
        (λ q' w'. Returns-assert IsWhole (same_sizes q') _ (same_sizes-IsWhole q' w') w'))
  where
    kept : TimerQueue
    kept =
        if q.is_calling_expired_timers
        then record q { canceling_timers = (set_insert (a, n) q.canceling_timers).1 }
        else q

    cancelled : Outcome TimerQueue
    cancelled = if set_member (a, n) q.active_timers then cancel_active (a, n) q else ok kept

    kept-IsWhole : IsWhole kept
    kept-IsWhole =
        if-IsWhole q.is_calling_expired_timers _ q
          (canceling-IsWhole (set_insert (a, n) q.canceling_timers).1 q w) w

    branch : Returns IsWhole cancelled
    branch = elim (Bool-cases (set_member (a, n) q.active_timers)) [
      | inl there ↦ rw there (cancel_active-IsWhole a n q there w)
      | inr gone ↦ rw gone kept-IsWhole
    ]

-- What a program asks of the queue; `new` gives the address and the sequence number.
pub data TimerOp : Type 0 where
  add : (address sequence when interval : ℕ) → TimerOp
  cancel : Entry → TimerOp

abbrev pub run_op : TimerOp → TimerQueue → Outcome TimerQueue
run_op (add a n when interval) q = add_timer a n when interval q
run_op (cancel timer) q = cancel_in_loop timer q

-- The address that `new` gives is free, and below UINTPTR_MAX.
abbrev pub Allowed : TimerOp → TimerQueue → Type 0
Allowed (add a n when interval) q = (look_up a q.store ≡ none) × (a < 2 ^ 64 - 1)
Allowed (cancel timer) q = Unit {0}

-- The queues that a program can make by adding and cancelling.
pub data Reached : TimerQueue → Type 0 where
  at_start : Reached new_queue
  after_op :
      (o : TimerOp) (q q' : TimerQueue) → Reached q → Allowed o q → run_op o q ≡ ok q' → Reached q'

run_op-IsWhole :
    (o : TimerOp) (q : TimerQueue) → Allowed o q → IsWhole q → Returns IsWhole (run_op o q)
run_op-IsWhole (add a n when interval) q h w = add_timer-IsWhole a n when interval q h.0 h.1 w
run_op-IsWhole (cancel timer) q h w = cancel_in_loop-IsWhole timer q w

Reached-IsWhole : (q : TimerQueue) → Reached q → IsWhole q
unfolding new_queue
Reached-IsWhole q at_start = record {
  valid = record { sorted = tt; apart = tt; known = tt; sizes = refl };
  owned = tt;
  single = tt;
}
Reached-IsWhole q' (after_op o q q'' r h e) =
    subst (Returns IsWhole) e (run_op-IsWhole o q h (Reached-IsWhole q r))

-- The queue of one timer.
abbrev pub one_timer : (a n when interval : ℕ) → TimerQueue
one_timer a n when interval = record {
  timers = (when, a) ∷ [];
  active_timers = (a, n) ∷ [];
  is_calling_expired_timers = false;
  canceling_timers = [];
  store = (a, record { expiration = when; interval = interval; sequence = n }) ∷ [];
  timerfd = some when;
}

pub one_timer-Reached :
    (a n when interval : ℕ) → a < 2 ^ 64 - 1 → Reached (one_timer a n when interval)
unfolding new_queue add_timer add_timer_in_loop insert set_insert
one_timer-Reached a n when interval small =
    after_op (add a n when interval) new_queue _ at_start (refl, small) (rw (found, found) refl)
  where
    timer : Timer
    timer = record { expiration = when; interval = interval; sequence = n }

    found : deref ((a, timer) ∷ []) a ≡ ok timer
    found = deref_found a timer ((a, timer) ∷ []) (rw (==_refl a) refl)

-- On a queue that adding and cancelling timers have made from the new one, adding another timer at a
-- free address below 2 ^ 64 - 1, or cancelling any timer id, stale ones included, meets every
-- assertion and reads no deleted timer, and leaves a queue in which the set of active timers and the
-- sorted queue name the same stored timers, each once.
pub run_op-Reached :
    (o : TimerOp) (q : TimerQueue) → Reached q → Allowed o q → Returns IsWhole (run_op o q)
run_op-Reached o q r h = run_op-IsWhole o q h (Reached-IsWhole q r)
