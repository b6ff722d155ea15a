-- ===== src/Net/TimingWheel.antt =====
-- Idle connections are shut down: mytinyhttpd/net/timing_wheel.h and timing_wheel.cc.
-- A connection is a number. It has one entry, which is alive as long as a bucket holds it; the last
-- bucket that goes takes the entry with it, and its destructor shuts the connection down. The ring
-- is boost's: a list of buckets, the oldest first, where pushing on a full ring drops the oldest.
-- `position n` is `connection_buckets_.begin() - buckets_begin_` after `n` pushes.
pub mod Buckets
pub mod Silence
use my_tiny_httpd.Prelude.{
  ℕ, zero, suc, Bool, true, false, not, ◌||◌, List, [], ◌∷◌, ◌++◌, Option, none, some, Outcome, ok,
  fault, assertion, out_of_range, ◌>>=◌, ◌>>◌, assert, ◌==◌, if◌then◌else◌, replicate,
}

pub record TimingWheel : Type 0 where
  pub buckets : List (List ℕ)
  pub pushes : ℕ
  -- The `index_` of the entry in each timing context that is set.
  pub entries : List (ℕ × ℕ)

abbrev pub member : ℕ → List ℕ → Bool
member c [] = false
member c (d ∷ ds) = d == c || member c ds

abbrev pub in_any : ℕ → List (List ℕ) → Bool
in_any c [] = false
in_any c (b ∷ bs) = member c b || in_any c bs

abbrev pub keep : (ℕ → Bool) → List ℕ → List ℕ
keep p [] = []
keep p (d ∷ ds) = if p d then d ∷ keep p ds else keep p ds

unfoldable pub find_entry : ℕ → List (ℕ × ℕ) → Option ℕ
find_entry c [] = none
find_entry c ((d, i) ∷ es) = if d == c then some i else find_entry c es

pub set_entry : ℕ → ℕ → List (ℕ × ℕ) → List (ℕ × ℕ)
set_entry c i [] = (c, i) ∷ []
set_entry c i ((d, j) ∷ es) = if d == c then (d, i) ∷ es else (d, j) ∷ set_entry c i es

-- `connection_buckets_.back().insert(entry)`; a ring of no buckets has no back.
pub insert_back : ℕ → List (List ℕ) → Outcome (List (List ℕ))
insert_back c [] = fault out_of_range
insert_back c (b ∷ []) = ok ((if member c b then b else c ∷ b) ∷ [])
insert_back c (b ∷ b' ∷ bs) = insert_back c (b' ∷ bs) >>= λ rest. ok (b ∷ rest)

-- `TimingWheel(int idle_seconds)`.
pub new_wheel : ℕ → TimingWheel
new_wheel idle_seconds = record { buckets = replicate idle_seconds []; pushes = 0; entries = [] }

-- `push_back(Bucket())`: the entries that go with the oldest bucket, and the buckets.
abbrev pub push_back : List (List ℕ) → List ℕ × List (List ℕ)
push_back [] = ([], [])
push_back (b ∷ bs) = (keep (λ d. not (in_any d (bs ++ ([] ∷ [])))) b, bs ++ ([] ∷ []))

-- `OnTimer`, with the connections whose entry goes.
pub on_timer : TimingWheel → List ℕ × TimingWheel
on_timer w =
    let (shut, buckets) = push_back w.buckets in
    (shut, record w { buckets = buckets; pushes = suc w.pushes })

-- So many calls of `OnTimer`, with all connections that are shut down.
pub on_timers : ℕ → TimingWheel → List ℕ × TimingWheel
on_timers zero w = ([], w)
on_timers (suc n) w =
    let (shut, w') = on_timer w in let (more, w'') = on_timers n w' in (shut ++ more, w'')

module _ (position : ℕ → ℕ) where
  -- `OnConnection` of a connection that is up, or down.
  pub on_connection : Bool → ℕ → TimingWheel → Outcome TimingWheel
  on_connection is_up c w = elim (find_entry c w.entries) [
    | none ↦
        if is_up
        then (insert_back c w.buckets >>= λ buckets.
            ok
              (record w { buckets = buckets; entries = set_entry c (position w.pushes) w.entries }))
        else fault assertion
    | some i ↦ if is_up then fault assertion else ok w
  ]

  -- The part of `OnMessage` behind its assertions.
  pub refresh : ℕ → ℕ → TimingWheel → Outcome TimingWheel
  refresh c i w =
      if i == position w.pushes
      then ok w
      else (insert_back c w.buckets >>= λ buckets.
          ok (record w { buckets = buckets; entries = set_entry c (position w.pushes) w.entries }))

  pub on_message : ℕ → TimingWheel → Outcome TimingWheel
  on_message c w = elim (find_entry c w.entries) [
    | none ↦ fault assertion
    | some i ↦ assert (in_any c w.buckets) >> refresh c i w
  ]
