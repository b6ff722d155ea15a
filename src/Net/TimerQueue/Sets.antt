-- ===== src/Net/TimerQueue/Sets.antt =====
-- The sets of mytinyhttpd/net/timer_queue.cc under `insert` and `erase`.
use my_tiny_httpd.Prelude.{
  ℕ, suc, ◌≡◌, ◌≢◌, refl, ap, Bool, true, false, ◌||◌, List, [], ◌∷◌, arith, Bool-cases, inl, inr,
  length,
}
use my_tiny_httpd.Net.TimerQueue.{Entry, pair_ltb, pair_eq, set_member, set_insert, set_erase}
use my_tiny_httpd.Net.TimerQueue.Expired.{Later, Sorted, pair_eq_self}

-- No element of the set of active timers has the address, and their addresses differ.
abbrev pub FreshFirst : ℕ → List Entry → Type 0
FreshFirst a [] = Unit {0}
FreshFirst a ((b, n) ∷ es) = (a ≢ b) × FreshFirst a es

abbrev pub ApartFirst : List Entry → Type 0
ApartFirst [] = Unit {0}
ApartFirst ((a, n) ∷ es) = FreshFirst a es × ApartFirst es

-- A property of each element of a set is kept.
module _ (P : Entry → Type 0) (Q : List Entry → Type 0)
    (cons : (x : Entry) (s : List Entry) → P x → Q s → Q (x ∷ s))
    (head : (x : Entry) (s : List Entry) → Q (x ∷ s) → P x)
    (tail : (x : Entry) (s : List Entry) → Q (x ∷ s) → Q s) where
  pub set_insert-each : (x : Entry) (s : List Entry) → P x → Q [] → Q s → Q (set_insert x s).1
  unfolding set_insert
  set_insert-each x [] p e q = cons x [] p e
  set_insert-each x (y ∷ ys) p e q = elim (Bool-cases (pair_eq y x)) [
    | inl same ↦ rw same q
    | inr other ↦ elim (Bool-cases (pair_ltb x y)) [
      | inl before ↦ rw (other, before) (cons x (y ∷ ys) p q)
      | inr behind ↦
          rw (other, behind)
            (cons y (set_insert x ys).1 (head y ys q) (set_insert-each x ys p e (tail y ys q)))
    ]
  ]

  pub set_erase-each : (x : Entry) (s : List Entry) → Q [] → Q s → Q (set_erase x s).1
  set_erase-each x [] e q = e
  set_erase-each x (y ∷ ys) e q = elim (Bool-cases (pair_eq y x)) [
    | inl same ↦ rw same (tail y ys q)
    | inr other ↦
        rw other (cons y (set_erase x ys).1 (head y ys q) (set_erase-each x ys e (tail y ys q)))
  ]

or_left : (a b : Bool) → a ≡ true → (a || b) ≡ true
or_left true b h = refl
or_left false b h = cc

or_right : (a b : Bool) → b ≡ true → (a || b) ≡ true
or_right true b h = refl
or_right false b h = h

-- Inserting an element that is not there.
pub set_insert-size :
    (x : Entry) (s : List Entry)
    → set_member x s ≡ false
    → ((set_insert x s).0 ≡ true) × (length (set_insert x s).1 ≡ suc (length s))
unfolding set_insert
set_insert-size x [] h = (refl, refl)
set_insert-size x (y ∷ ys) h = elim (Bool-cases (pair_eq y x)) [
  | inl same ↦ absurd (no (rw same at h))
  | inr other ↦ elim (Bool-cases (pair_ltb x y)) [
    | inl before ↦ rw (other, before) (refl, refl)
    | inr behind ↦
        let (one, size) = set_insert-size x ys (rw other at h) in
        rw (other, behind) (one, ap suc size)
  ]
]
  where
    no : true ≡ false → ⊥
    no e = cc

-- Its members are the new one and the old ones.
pub set_insert-member :
    (x y : Entry) (s : List Entry) → set_member y s ≡ true → set_member y (set_insert x s).1 ≡ true
unfolding set_insert
set_insert-member x y [] h = cc
set_insert-member x y (z ∷ zs) h = elim (Bool-cases (pair_eq z x)) [
  | inl same ↦ rw same h
  | inr other ↦ elim (Bool-cases (pair_ltb x z)) [
    | inl before ↦ rw (other, before) (or_right (pair_eq x y) (set_member y (z ∷ zs)) h)
    | inr behind ↦ elim (Bool-cases (pair_eq z y)) [
      | inl found ↦ rw (other, behind, found) refl
      | inr later ↦ rw (other, behind, later) (set_insert-member x y zs (rw later at h))
    ]
  ]
]

pub set_insert-member_self : (x : Entry) (s : List Entry) → set_member x (set_insert x s).1 ≡ true
unfolding set_insert
set_insert-member_self x [] = or_left (pair_eq x x) false (pair_eq_self x)
set_insert-member_self x (z ∷ zs) = elim (Bool-cases (pair_eq z x)) [
  | inl same ↦ rw same (or_left (pair_eq z x) (set_member x zs) same)
  | inr other ↦ elim (Bool-cases (pair_ltb x z)) [
    | inl before ↦
        rw (other, before) (or_left (pair_eq x x) (set_member x (z ∷ zs)) (pair_eq_self x))
    | inr behind ↦
        rw (other, behind)
          (or_right (pair_eq z x) (set_member x (set_insert x zs).1) (set_insert-member_self x zs))
  ]
]

not_before : (x y : Entry) → pair_eq y x ≡ false → pair_ltb x y ≡ false → pair_ltb y x ≡ true
not_before (a, b) (c, d) h k = ground arith

ltb_trans : (x y z : Entry) → pair_ltb x y ≡ true → pair_ltb y z ≡ true → pair_ltb x z ≡ true
ltb_trans (a, b) (c, d) (e, f) h k = ground arith

Later-trans : (x y : Entry) (s : List Entry) → pair_ltb x y ≡ true → Later y s → Later x s
Later-trans x y [] h l = tt
Later-trans x y (z ∷ zs) h l = (ltb_trans x y z h l.0, Later-trans x y zs h l.1)

set_insert-Later :
    (w x : Entry) (s : List Entry) → pair_ltb w x ≡ true → Later w s → Later w (set_insert x s).1
set_insert-Later w x s h l =
    set_insert-each (λ y. pair_ltb w y ≡ true) (Later w) (λ y t p q. (p, q)) (λ y t q. q.0)
      (λ y t q. q.1) x s h tt l

pub set_insert-Sorted : (x : Entry) (s : List Entry) → Sorted s → Sorted (set_insert x s).1
unfolding set_insert
set_insert-Sorted x [] h = (tt, tt)
set_insert-Sorted x (y ∷ ys) h = elim (Bool-cases (pair_eq y x)) [
  | inl same ↦ rw same h
  | inr other ↦ elim (Bool-cases (pair_ltb x y)) [
    | inl before ↦ rw (other, before) ((before, Later-trans x y ys before h.0), h)
    | inr behind ↦
        rw (other, behind)
          (set_insert-Later y x ys (not_before x y other behind) h.0, set_insert-Sorted x ys h.1)
  ]
]

pub set_erase-Sorted : (x : Entry) (s : List Entry) → Sorted s → Sorted (set_erase x s).1
set_erase-Sorted x [] h = tt
set_erase-Sorted x (y ∷ ys) h = elim (Bool-cases (pair_eq y x)) [
  | inl same ↦ rw same h.1
  | inr other ↦ rw other (
    set_erase-each (λ z. pair_ltb y z ≡ true) (Later y) (λ z t p q. (p, q)) (λ z t q. q.0)
        (λ z t q. q.1) x ys tt h.0,
    set_erase-Sorted x ys h.1,
  )
]
