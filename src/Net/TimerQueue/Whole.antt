-- ===== src/Net/TimerQueue/Whole.antt =====
-- How the sets and the stored timers of mytinyhttpd/net/timer_queue.cc stay in step when a timer
-- comes or goes.
use my_tiny_httpd.Prelude.{ℕ, ◌≡◌, ◌≢◌, refl, ◌∙◌, true, false, List, [], ◌∷◌, none, some, arith}
use my_tiny_httpd.Net.TimerQueue.{Timer, Entry, TimerQueue, set_member, set_insert, look_up}
use my_tiny_httpd.Net.TimerQueue.Expired.{Fresh, Known, IsValid, ne→==}
use my_tiny_httpd.Net.TimerQueue.Sets.{FreshFirst, ApartFirst, set_insert-member}

-- Each active timer is stored under its sequence number and stands in the queue.
abbrev pub Owned : List (ℕ × Timer) → List Entry → List Entry → Type 0
Owned store timers [] = Unit {0}
Owned store timers ((a, n) ∷ es) =
    ((t : Timer) × (look_up a store ≡ some t)
      × (t.sequence ≡ n)
      × (set_member (t.expiration, a) timers ≡ true))
    × Owned store timers es

pub record IsWhole (q : TimerQueue) : Type 0 where
  pub valid : IsValid q
  pub owned : Owned q.store q.timers q.active_timers
  pub single : ApartFirst q.active_timers

-- A free address is not one that a timer has.
stored_differs :
    (a b : ℕ) (store : List (ℕ × Timer)) (t : Timer)
    → a ≡ b
    → look_up a store ≡ none
    → look_up b store ≡ some t
    → ⊥
stored_differs a b store t d h l = cc

-- An address at which nothing is stored is in neither set.
pub Known-Fresh :
    (store : List (ℕ × Timer)) (active : List Entry) (a : ℕ) (es : List Entry)
    → look_up a store ≡ none
    → Known store active es
    → Fresh a es
Known-Fresh store active a [] h k = tt
Known-Fresh store active a ((w, b) ∷ es) h ((t, l, e, m, s), k) =
    (λ d. stored_differs a b store t d h l, Known-Fresh store active a es h k)

pub Owned-FreshFirst :
    (store : List (ℕ × Timer)) (timers : List Entry) (a : ℕ) (es : List Entry)
    → look_up a store ≡ none
    → Owned store timers es
    → FreshFirst a es
Owned-FreshFirst store timers a [] h k = tt
Owned-FreshFirst store timers a ((b, n) ∷ es) h ((t, l, e, m), k) =
    (λ d. stored_differs a b store t d h l, Owned-FreshFirst store timers a es h k)

pub Fresh-member : (w a : ℕ) (es : List Entry) → Fresh a es → set_member (w, a) es ≡ false
Fresh-member w a [] h = refl
Fresh-member w a ((v, b) ∷ es) h = ground (arith, h.0, Fresh-member w a es h.1)

pub FreshFirst-member : (a n : ℕ) (es : List Entry) → FreshFirst a es → set_member (a, n) es ≡ false
FreshFirst-member a n [] h = refl
FreshFirst-member a n ((b, m) ∷ es) h = ground (arith, h.0, FreshFirst-member a n es h.1)

-- A timer that is stored at a fresh address changes nothing for the others.
pub look_up-cons :
    (a b : ℕ) (t : Timer) (store : List (ℕ × Timer))
    → a ≢ b
    → look_up b ((a, t) ∷ store) ≡ look_up b store
look_up-cons a b t store h = rw (ne→== a b h)

pub Known-add :
    (store : List (ℕ × Timer)) (active : List Entry) (a : ℕ) (t : Timer) (x : Entry)
    (es : List Entry)
    → Fresh a es
    → Known store active es
    → Known ((a, t) ∷ store) (set_insert x active).1 es
Known-add store active a t x [] f k = tt
Known-add store active a t x ((w, b) ∷ es) f ((u, l, e, m, s), k) = (
  (u, look_up-cons a b t store f.0 ∙ l, e, set_insert-member x (b, u.sequence) active m, s),
  Known-add store active a t x es f.1 k,
)

pub Owned-add :
    (store : List (ℕ × Timer)) (timers : List Entry) (a : ℕ) (t : Timer) (x : Entry)
    (es : List Entry)
    → FreshFirst a es
    → Owned store timers es
    → Owned ((a, t) ∷ store) (set_insert x timers).1 es
Owned-add store timers a t x [] f k = tt
Owned-add store timers a t x ((b, n) ∷ es) f ((u, l, e, m), k) = (
  (u, look_up-cons a b t store f.0 ∙ l, e, set_insert-member x (u.expiration, b) timers m),
  Owned-add store timers a t x es f.1 k,
)
