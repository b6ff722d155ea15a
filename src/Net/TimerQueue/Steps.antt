-- ===== src/Net/TimerQueue/Steps.antt =====
-- A timer that goes into both sets of mytinyhttpd/net/timer_queue.cc and the store, and one that
-- leaves them.
use my_tiny_httpd.Prelude.{
  ℕ, suc, ◌-◌, ◌^◌, ◌<◌, ◌≡◌, refl, sym, ap, ◌∙◌, true, false, List, ◌∷◌, none, some, arith,
  ==_refl,
}
use my_tiny_httpd.Net.TimerQueue.{
  Timer, Entry, TimerQueue, set_member, set_insert, set_erase, look_up, delete,
}
use my_tiny_httpd.Net.TimerQueue.Expired.{Known, Fresh, Known-erase, set_erase-size}
use my_tiny_httpd.Net.TimerQueue.Sets.{
  FreshFirst, set_insert-each, set_erase-each, set_insert-size, set_insert-member_self,
  set_insert-Sorted, set_erase-Sorted,
}
use my_tiny_httpd.Net.TimerQueue.Whole.{
  Owned, IsWhole, Known-Fresh, Owned-FreshFirst, Fresh-member, FreshFirst-member, Known-add,
  Owned-add,
}
use my_tiny_httpd.Net.TimerQueue.Places.{
  set_insert-Apart, set_insert-ApartFirst, set_erase-Apart, set_erase-ApartFirst, set_erase-Fresh,
  set_erase-FreshFirst, Known-delete, Owned-delete,
}

pub Inserted-IsWhole :
    (a n when interval : ℕ) (q : TimerQueue)
    → look_up a q.store ≡ none
    → a < 2 ^ 64 - 1
    → IsWhole q
    → IsWhole (record q {
      store = (a, record { expiration = when; interval = interval; sequence = n }) ∷ q.store;
      timers = (set_insert (when, a) q.timers).1;
      active_timers = (set_insert (a, n) q.active_timers).1;
    })
Inserted-IsWhole a n when interval q free small w = record {
  valid = record {
    sorted = set_insert-Sorted (when, a) q.timers w.valid.sorted;
    apart = set_insert-Apart when a q.timers fresh w.valid.apart;
    known =
        set_insert-each Here (Known stored active') (λ x s p k. (p, k)) (λ x s k. k.0)
          (λ x s k. k.1) (when, a) q.timers
          (timer, rw (==_refl a) refl, refl, set_insert-member_self (a, n) q.active_timers, small)
          tt (Known-add q.store q.active_timers a timer (a, n) q.timers fresh w.valid.known);
    sizes =
        (set_insert-size (when, a) q.timers new1).1
        ∙ ap suc w.valid.sizes
        ∙ sym (set_insert-size (a, n) q.active_timers new2).1;
  };
  owned =
      set_insert-each There (Owned stored timers') (λ x s p k. (p, k)) (λ x s k. k.0) (λ x s k. k.1)
        (a, n) q.active_timers
        (timer, rw (==_refl a) refl, refl, set_insert-member_self (when, a) q.timers) tt
        (Owned-add q.store q.timers a timer (when, a) q.active_timers first w.owned);
  single = set_insert-ApartFirst a n q.active_timers first w.single;
}
  where
    timer : Timer
    timer = record { expiration = when; interval = interval; sequence = n }

    stored : List (ℕ × Timer)
    stored = (a, timer) ∷ q.store

    timers' : List Entry
    timers' = (set_insert (when, a) q.timers).1

    active' : List Entry
    active' = (set_insert (a, n) q.active_timers).1

    Here : Entry → Type 0
    Here (v, b) =
        (t : Timer) × (look_up b stored ≡ some t)
        × (t.expiration ≡ v)
        × (set_member (b, t.sequence) active' ≡ true)
        × (b < 2 ^ 64 - 1)

    There : Entry → Type 0
    There (b, m) =
        (t : Timer) × (look_up b stored ≡ some t)
        × (t.sequence ≡ m)
        × (set_member (t.expiration, b) timers' ≡ true)

    fresh : Fresh a q.timers
    fresh = Known-Fresh q.store q.active_timers a q.timers free w.valid.known

    first : FreshFirst a q.active_timers
    first = Owned-FreshFirst q.store q.timers a q.active_timers free w.owned

    new1 : set_member (when, a) q.timers ≡ false
    new1 = Fresh-member when a q.timers fresh

    new2 : set_member (a, n) q.active_timers ≡ false
    new2 = FreshFirst-member a n q.active_timers first

pub Deleted-IsWhole :
    (a n : ℕ) (t : Timer) (q : TimerQueue)
    → look_up a q.store ≡ some t
    → set_member (t.expiration, a) q.timers ≡ true
    → set_member (a, n) q.active_timers ≡ true
    → IsWhole q
    → IsWhole (record q {
      timers = (set_erase (t.expiration, a) q.timers).1;
      store = delete a q.store;
      active_timers = (set_erase (a, n) q.active_timers).1;
    })
Deleted-IsWhole a n t q l here there w = record {
  valid = record {
    sorted = set_erase-Sorted (t.expiration, a) q.timers w.valid.sorted;
    apart = set_erase-Apart (t.expiration, a) q.timers w.valid.apart;
    known = Known-delete q.store active' a timers' fresh (
        Known-erase q.store q.active_timers a n timers' fresh (
          set_erase-each Here (Known q.store q.active_timers) (λ x s p k. (p, k)) (λ x s k. k.0)
            (λ x s k. k.1) (t.expiration, a) q.timers tt w.valid.known));
    sizes = omega (
      arith,
      (set_erase-size (t.expiration, a) q.timers here).1,
      (set_erase-size (a, n) q.active_timers there).1,
      w.valid.sizes,
    );
  };
  owned =
      Owned-delete q.store q.timers t.expiration a active'
        (set_erase-FreshFirst a n q.active_timers there w.single)
        (set_erase-each There (Owned q.store q.timers) (λ x s p k. (p, k)) (λ x s k. k.0)
          (λ x s k. k.1) (a, n) q.active_timers tt w.owned);
  single = set_erase-ApartFirst (a, n) q.active_timers w.single;
}
  where
    timers' : List Entry
    timers' = (set_erase (t.expiration, a) q.timers).1

    active' : List Entry
    active' = (set_erase (a, n) q.active_timers).1

    fresh : Fresh a timers'
    fresh = set_erase-Fresh t.expiration a q.timers here w.valid.apart

    Here : Entry → Type 0
    Here (v, b) =
        (u : Timer) × (look_up b q.store ≡ some u)
        × (u.expiration ≡ v)
        × (set_member (b, u.sequence) q.active_timers ≡ true)
        × (b < 2 ^ 64 - 1)

    There : Entry → Type 0
    There (b, m) =
        (u : Timer) × (look_up b q.store ≡ some u)
        × (u.sequence ≡ m)
        × (set_member (u.expiration, b) q.timers ≡ true)
