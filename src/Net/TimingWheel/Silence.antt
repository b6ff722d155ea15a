-- ===== src/Net/TimingWheel/Silence.antt =====
-- When mytinyhttpd/net/timing_wheel.cc shuts a silent connection down.
use my_tiny_httpd.Prelude.{
  ℕ, zero, suc, ◌+◌, ◌-◌, ◌<◌, ◌≡◌, ◌≢◌, refl, ap₂, subst, ◌∙◌, true, false, ◌||◌, List, [], ◌∷◌,
  ◌++◌, some, fault, assertion, arith, ◌==◌, ==_refl, Returns, Returns->>=, length,
}
use my_tiny_httpd.Net.TimingWheel.{
  TimingWheel, member, in_any, find_entry, insert_back, on_timer, on_timers, refresh, on_message,
}
use my_tiny_httpd.Net.TimingWheel.Buckets.{
  Newest, or_assoc, Newest-in_any, insert_back-Newest, find_entry-set_entry, push_back-kept,
  push_back-gone, ne→==,
}

-- The wheel's ring gives different positions to pushes that are less than a turn apart.
pub record IsPosition (position : ℕ → ℕ) (n : ℕ) : Type 0 where
  pub apart : (i j : ℕ) → i < j → j < i + n → position i ≢ position j

module _ (position : ℕ → ℕ) where
  -- The connection was active `k` ticks ago, and has been silent since.
  pub record Idle (k c : ℕ) (w : TimingWheel) : Type 0 where
    pub bucket : ℕ
    pub since : ℕ
    pub behind : bucket + suc k ≡ length w.buckets
    pub newest : Newest c bucket w.buckets
    pub pushed : since + k ≡ w.pushes
    pub entry : find_entry c w.entries ≡ some (position since)

  -- A tick by which the connection has not been silent for a whole turn.
  on_timer-Idle :
      (k c : ℕ) (w : TimingWheel)
      → Idle k c w
      → suc k < length w.buckets
      → (member c (on_timer w).0 ≡ false)
        × Idle (suc k) c (on_timer w).1
        × (length (on_timer w).1.buckets ≡ length w.buckets)
  unfolding on_timer
  on_timer-Idle k c w s h = go s.bucket s.behind s.newest
    where
      go :
          (i : ℕ)
          → i + suc k ≡ length w.buckets
          → Newest c i w.buckets
          → (member c (on_timer w).0 ≡ false)
            × Idle (suc k) c (on_timer w).1
            × (length (on_timer w).1.buckets ≡ length w.buckets)
      go zero p q = absurd (omega (arith, p, h))
      go (suc i) p q =
          let (shut, left, size) = push_back-kept c i w.buckets q in
          (
            shut,
            record {
              bucket = i;
              since = s.since;
              behind = omega (arith, p, size);
              newest = left;
              pushed = omega (arith, s.pushed);
              entry = s.entry;
            },
            size,
          )

  -- The tick that completes the turn.
  on_timer-gone :
      (k c : ℕ) (w : TimingWheel)
      → Idle k c w
      → suc k ≡ length w.buckets
      → (member c (on_timer w).0 ≡ true)
        × (in_any c (on_timer w).1.buckets ≡ false)
        × ((i : ℕ) × (find_entry c (on_timer w).1.entries ≡ some i))
  unfolding on_timer
  on_timer-gone k c w s h =
      let first : s.bucket ≡ 0 = omega (arith, s.behind) in
      let (shut, gone) = push_back-gone c w.buckets (rw first at s.newest) in
      (shut, gone, (position s.since, s.entry))

  member-append : (c : ℕ) (xs ys : List ℕ) → member c (xs ++ ys) ≡ (member c xs || member c ys)
  member-append c [] ys = refl
  member-append c (x ∷ xs) ys =
      rw (member-append c xs ys) (or_assoc (x == c) (member c xs) (member c ys))

  pub on_timers-Idle :
      (n k c : ℕ) (w : TimingWheel)
      → Idle k c w
      → k + n < length w.buckets
      → (member c (on_timers n w).0 ≡ false)
        × Idle (k + n) c (on_timers n w).1
        × (length (on_timers n w).1.buckets ≡ length w.buckets)
  unfolding on_timers
  on_timers-Idle zero k c w s h = (refl, subst (λ m. Idle m c w) (omega arith) s, refl)
  on_timers-Idle (suc n) k c w s h =
      let (shut, s', size) = on_timer-Idle k c w s (omega arith) in
      let (more, s'', size') = on_timers-Idle n (suc k) c (on_timer w).1 s' (omega (arith, size)) in
      (
        member-append c (on_timer w).0 (on_timers n (on_timer w).1).0
            ∙ ap₂ (λ a b. a || b) shut more,
        subst (λ m. Idle m c (on_timers n (on_timer w).1).1) (omega arith) s'',
        size' ∙ size,
      )

  -- A message by which the connection's entry is still alive.
  pub on_message-Idle :
      (k c : ℕ) (w : TimingWheel)
      → IsPosition position (length w.buckets)
      → Idle k c w
      → Returns (Idle 0 c) (on_message position c w)
  unfolding on_message refresh
  on_message-Idle k c w apart s =
      rw (on_message, s.entry, Newest-in_any c s.bucket w.buckets s.newest) (go k s.behind s.pushed)
    where
      go :
          (k : ℕ)
          → s.bucket + suc k ≡ length w.buckets
          → s.since + k ≡ w.pushes
          → Returns (Idle 0 c) (refresh position c (position s.since) w)
      go zero p r =
          let now : s.since ≡ w.pushes = omega (arith, r) in
          rw (refresh, now, ==_refl (position w.pushes))
            (record {
              bucket = s.bucket;
              since = s.since;
              behind = p;
              newest = s.newest;
              pushed = r;
              entry = s.entry;
            })
      go (suc k) p r =
          rw
            (
              refresh,
              ne→== (position s.since) (position w.pushes)
                  (apart.apart s.since w.pushes (omega (arith, r)) (omega (arith, r, p))),
            )
            (Returns->>=
              (λ bs'. Newest c (length w.buckets - 1) bs' × (length bs' ≡ length w.buckets))
              (Idle 0 c) (insert_back c w.buckets) _
              (insert_back-Newest c (length w.buckets - 1) w.buckets (omega (arith, p)))
              (λ bs' (q, size). record {
                bucket = length w.buckets - 1;
                since = w.pushes;
                behind = omega (arith, p, size);
                newest = q;
                pushed = omega arith;
                entry = find_entry-set_entry c (position w.pushes) w.entries;
              }))

  -- With one bucket for each idle second, a connection that has been silent since its last message
  -- is shut down by just the tick that completes a turn of the wheel: none of the `n` ticks before
  -- shuts it down, the next one does, and a message that still arrives behind it fails the
  -- assertion of `OnMessage`.
  pub on_timers-silence :
      (n c : ℕ) (w : TimingWheel)
      → Idle 0 c w
      → suc n ≡ length w.buckets
      → (member c (on_timers n w).0 ≡ false)
        × (member c (on_timer (on_timers n w).1).0 ≡ true)
        × (on_message position c (on_timer (on_timers n w).1).1 ≡ fault assertion)
  unfolding on_message
  on_timers-silence n c w s h =
      let (before, s', size) = on_timers-Idle n 0 c w s (omega arith) in
      let (shut, gone, (i, entry)) =
        on_timer-gone (0 + n) c (on_timers n w).1 s' (omega (arith, size)) in
      (before, shut, rw (on_message, entry, gone) refl)

  -- A connection that sends a message before the wheel has turned once counts as active again: the
  -- assertions of `OnMessage` hold, and its entry is in the newest bucket.
  pub on_message-on_timers :
      (n c : ℕ) (w : TimingWheel)
      → IsPosition position (length w.buckets)
      → Idle 0 c w
      → n < length w.buckets
      → Returns (Idle 0 c) (on_message position c (on_timers n w).1)
  on_message-on_timers n c w apart s h =
      let (before, s', size) = on_timers-Idle n 0 c w s (omega arith) in
      on_message-Idle (0 + n) c (on_timers n w).1 (rw size apart) s'
