-- ===== src/Net/TimerQueue/Expired.antt =====
-- GetExpired of mytinyhttpd/net/timer_queue.cc takes out the timers that are due, and no others.
use my_tiny_httpd.Prelude.{
  ℕ, suc, ◌+◌, ◌-◌, ◌^◌, ◌≤◌, ◌<◌, ◌≡◌, ◌≢◌, refl, ap, ap₂, subst, sym, ◌∙◌, true, false, List, [],
  ◌∷◌, ◌++◌, some, arith, ◌==◌, ==_iff, ==_refl, Returns, Returns->>=, Returns-assert, Returns-map,
  Bool-cases, inl, inr, length, length-append,
}
use my_tiny_httpd.Net.TimerQueue.{
  Timer, Entry, TimerQueue, pair_ltb, pair_eq, set_member, set_erase, look_up, deref, same_sizes,
  is_earliest, split_at, erase_active, get_expired,
}

-- No entry of the list has the address.
abbrev pub Fresh : ℕ → List Entry → Type 0
Fresh a [] = Unit {0}
Fresh a ((w, b) ∷ es) = (a ≢ b) × Fresh a es

-- The addresses differ.
abbrev pub Apart : List Entry → Type 0
Apart [] = Unit {0}
Apart ((w, a) ∷ es) = Fresh a es × Apart es

-- Each entry is of a timer that is stored, with its expiration, and active.
abbrev pub Known : List (ℕ × Timer) → List Entry → List Entry → Type 0
Known store active [] = Unit {0}
Known store active ((w, a) ∷ es) =
    ((t : Timer) × (look_up a store ≡ some t)
      × (t.expiration ≡ w)
      × (set_member (a, t.sequence) active ≡ true)
      × (a < 2 ^ 64 - 1))
    × Known store active es

abbrev pub Later : Entry → List Entry → Type 0
Later x [] = Unit {0}
Later x (y ∷ ys) = (pair_ltb x y ≡ true) × Later x ys

abbrev pub Sorted : List Entry → Type 0
Sorted [] = Unit {0}
Sorted (x ∷ xs) = Later x xs × Sorted xs

abbrev pub AllDue : ℕ → List Entry → Type 0
AllDue now [] = Unit {0}
AllDue now ((w, a) ∷ es) = (w ≤ now) × AllDue now es

abbrev pub NoneDue : ℕ → List Entry → Type 0
NoneDue now [] = Unit {0}
NoneDue now ((w, a) ∷ es) = (now < w) × NoneDue now es

-- Both sets name the same timers, and the queue is in the order of time.
pub record IsValid (q : TimerQueue) : Type 0 where
  pub sorted : Sorted q.timers
  pub apart : Apart q.timers
  pub known : Known q.store q.active_timers q.timers
  pub sizes : length q.timers ≡ length q.active_timers

pub pair_eq_self : (x : Entry) → pair_eq x x ≡ true
pair_eq_self (a, b) = rw (==_refl a, ==_refl b) refl

pub pair_eq→eq : (x y : Entry) → pair_eq x y ≡ true → x ≡ y
pair_eq→eq (a, b) (c, d) h = elim (Bool-cases (a == c)) [
  | inl e ↦ ap₂ (λ m n. (m, n)) ((==_iff a c).0 e) ((==_iff b d).0 (rw e at h))
  | inr e ↦ absurd (no (rw e at h))
]
  where
    no : false ≡ true → ⊥
    no e = cc

pub ne→== : (a b : ℕ) → a ≢ b → (a == b) ≡ false
ne→== a b h = elim (Bool-cases (a == b)) [ inl e ↦ absurd (h ((==_iff a b).0 e)) | inr e ↦ e ]

-- What erasing an element does to the others.
pub set_erase-size :
    (x : Entry) (s : List Entry)
    → set_member x s ≡ true
    → ((set_erase x s).0 ≡ 1) × (length (set_erase x s).1 + 1 ≡ length s)
set_erase-size x [] m = cc
set_erase-size x (y ∷ ys) m = elim (Bool-cases (pair_eq y x)) [
  | inl e ↦ rw e (refl, omega arith)
  | inr e ↦ let (one, size) = set_erase-size x ys (rw e at m) in rw e (one, omega (arith, size))
]

pub set_erase-member :
    (x y : Entry) (s : List Entry)
    → pair_eq x y ≡ false
    → set_member y s ≡ true
    → set_member y (set_erase x s).1 ≡ true
set_erase-member x y [] n m = cc
set_erase-member x y (z ∷ zs) n m = elim (Bool-cases (pair_eq z x)) [
  | inl e ↦
      let other : pair_eq z y ≡ false = ap (λ t. pair_eq t y) (pair_eq→eq z x e) ∙ n in
      rw e (rw other at m)
  | inr e ↦ elim (Bool-cases (pair_eq z y)) [
    | inl f ↦ rw (e, f) refl
    | inr f ↦ rw (e, f) (set_erase-member x y zs n (rw f at m))
  ]
]

-- Erasing a timer with another address leaves the rest known.
pub Known-erase :
    (store : List (ℕ × Timer)) (active : List Entry) (a n : ℕ) (es : List Entry)
    → Fresh a es
    → Known store active es
    → Known store (set_erase (a, n) active).1 es
Known-erase store active a n [] f k = tt
Known-erase store active a n ((w, b) ∷ es) f ((t, l, e, m, s), k) = (
  (t, l, e, set_erase-member (a, n) (b, t.sequence) active (rw (ne→== a b f.0) refl) m, s),
  Known-erase store active a n es f.1 k,
)

Fresh-left : (a : ℕ) (xs ys : List Entry) → Fresh a (xs ++ ys) → Fresh a ys
Fresh-left a [] ys f = f
Fresh-left a ((w, b) ∷ xs) ys f = Fresh-left a xs ys f.1

-- The loop of `GetExpired` meets its assertion for each timer.
erase_active-Known :
    (store : List (ℕ × Timer)) (es rest active : List Entry)
    → Apart (es ++ rest)
    → Known store active (es ++ rest)
    → Returns
        (λ active'. Known store active' rest × (length active' + length es ≡ length active))
        (erase_active store es active)
unfolding erase_active deref
erase_active-Known store [] rest active p k = (k, omega arith)
erase_active-Known store ((w, a) ∷ es) rest active p ((t, l, e, m, s), k) =
    let (one, size) = set_erase-size (a, t.sequence) active m in
    rw (deref, l, one)
      (Returns-map
        (λ active'.
          Known store active' rest
          × (length active' + length es ≡ length (set_erase (a, t.sequence) active).1))
        (λ active'. Known store active' rest × (length active' + suc (length es) ≡ length active))
        (erase_active store es (set_erase (a, t.sequence) active).1)
        (erase_active-Known store es rest (set_erase (a, t.sequence) active).1 p.1
          (Known-erase store active a t.sequence (es ++ rest) p.0 k))
        (λ active' r. (r.0, omega (arith, r.1, size))))

-- The sentry stands behind the due entries and in front of the others.
split_at-join : (x : Entry) (es : List Entry) → (split_at x es).0 ++ (split_at x es).1 ≡ es
split_at-join x [] = refl
split_at-join x (e ∷ es) = elim (Bool-cases (pair_ltb e x)) [
  | inl f ↦ rw f (ap (◌∷◌ e) (split_at-join x es))
  | inr f ↦ rw f refl
]

split_at-due : (now : ℕ) (es : List Entry) → AllDue now (split_at (now, 2 ^ 64 - 1) es).0
split_at-due now [] = tt
split_at-due now ((w, a) ∷ es) = elim (Bool-cases (pair_ltb (w, a) (now, 2 ^ 64 - 1))) [
  | inl f ↦ rw f (due f, split_at-due now es)
  | inr f ↦ rw f tt
]
  where
    due : pair_ltb (w, a) (now, 2 ^ 64 - 1) ≡ true → w ≤ now
    due f = ground arith

NoneDue-Later : (now w a : ℕ) (es : List Entry) → now < w → Later (w, a) es → NoneDue now es
NoneDue-Later now w a [] h l = tt
NoneDue-Later now w a ((v, b) ∷ es) h l = (after l.0, NoneDue-Later now w a es h l.1)
  where
    after : pair_ltb (w, a) (v, b) ≡ true → now < v
    after f = ground arith

split_at-NoneDue :
    (store : List (ℕ × Timer)) (active : List Entry) (now : ℕ) (es : List Entry)
    → Sorted es
    → Known store active es
    → NoneDue now (split_at (now, 2 ^ 64 - 1) es).1
split_at-NoneDue store active now [] s k = tt
split_at-NoneDue store active now ((w, a) ∷ es) s ((t, l, e, m, small), k) =
    elim (Bool-cases (pair_ltb (w, a) (now, 2 ^ 64 - 1))) [
      | inl f ↦ rw f (split_at-NoneDue store active now es s.1 k)
      | inr f ↦ rw f (later f, NoneDue-Later now w a es (later f) s.0)
    ]
  where
    later : pair_ltb (w, a) (now, 2 ^ 64 - 1) ≡ false → now < w
    later f = ground (arith, small)

is_earliest-NoneDue : (now : ℕ) (es : List Entry) → NoneDue now es → is_earliest now es ≡ true
is_earliest-NoneDue now [] h = refl
is_earliest-NoneDue now ((w, a) ∷ es) h = ground (arith, h.0)

Sorted-right : (xs ys : List Entry) → Sorted (xs ++ ys) → Sorted ys
Sorted-right [] ys s = s
Sorted-right (x ∷ xs) ys s = Sorted-right xs ys s.1

Apart-right : (xs ys : List Entry) → Apart (xs ++ ys) → Apart ys
Apart-right [] ys s = s
Apart-right ((w, a) ∷ xs) ys s = Apart-right xs ys s.1

-- On a queue whose two sets name the same timers, `GetExpired` runs to its end with all assertions
-- met: it returns, in the order of time, just the timers that are due at `now`, keeps the others,
-- which are not due, and leaves a queue whose sets again name the same timers.
pub get_expired_lem :
    (now : ℕ) (q : TimerQueue)
    → IsValid q
    → Returns
        (λ (expired, q').
          (expired ++ q'.timers ≡ q.timers)
          × AllDue now expired
          × NoneDue now q'.timers
          × IsValid q')
        (get_expired now q)
unfolding get_expired
get_expired_lem now q v =
    Returns-assert Done (same_sizes q) _
      ((==_iff (length q.timers) (length q.active_timers)).1 v.sizes)
      (Returns-assert Done (is_earliest now after) _ (is_earliest-NoneDue now after rest_due) (
        Returns->>= Erased Done (erase_active q.store due q.active_timers) _
          (erase_active-Known q.store due after q.active_timers (subst Apart (sym joined) v.apart)
            (subst (Known q.store q.active_timers) (sym joined) v.known))
          (λ active k.
            Returns-assert Done (length after == length active) _
              ((==_iff (length after) (length active)).1 (sizes active k.1))
              (
                joined,
                split_at-due now q.timers,
                rest_due,
                record {
                  sorted = Sorted-right due after (subst Sorted (sym joined) v.sorted);
                  apart = Apart-right due after (subst Apart (sym joined) v.apart);
                  known = k.0;
                  sizes = sizes active k.1;
                },
              ))))
  where
    due : List Entry
    due = (split_at (now, 2 ^ 64 - 1) q.timers).0

    after : List Entry
    after = (split_at (now, 2 ^ 64 - 1) q.timers).1

    Done : List Entry × TimerQueue → Type 0
    Done (expired, q') =
        (expired ++ q'.timers ≡ q.timers) × AllDue now expired × NoneDue now q'.timers × IsValid q'

    Erased : List Entry → Type 0
    Erased active =
        Known q.store active after × (length active + length due ≡ length q.active_timers)

    joined : due ++ after ≡ q.timers
    joined = split_at-join (now, 2 ^ 64 - 1) q.timers

    rest_due : NoneDue now after
    rest_due = split_at-NoneDue q.store q.active_timers now q.timers v.sorted v.known

    sizes :
        (active : List Entry)
        → length active + length due ≡ length q.active_timers
        → length after ≡ length active
    sizes active e = omega (arith, e, v.sizes, ap length joined, length-append due after)
