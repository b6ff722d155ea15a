-- ===== src/Net/TimerQueue/Places.antt =====
-- The addresses in the sets of mytinyhttpd/net/timer_queue.cc stay apart, and a timer that is erased
-- or deleted leaves the others as they are.
use my_tiny_httpd.Prelude.{
  ℕ, ◌≡◌, ◌≢◌, refl, sym, ap, ◌∙◌, subst, true, false, List, [], ◌∷◌, some, ◌==◌, ==_iff,
  Bool-cases, inl, inr,
}
use my_tiny_httpd.Net.TimerQueue.{
  Timer, Entry, pair_ltb, pair_eq, set_member, set_insert, set_erase, look_up, delete,
}
use my_tiny_httpd.Net.TimerQueue.Expired.{Fresh, Apart, Known, pair_eq→eq, ne→==, set_erase-member}
use my_tiny_httpd.Net.TimerQueue.Sets.{FreshFirst, ApartFirst, set_insert-each, set_erase-each}
use my_tiny_httpd.Net.TimerQueue.Whole.{Owned, Fresh-member, FreshFirst-member}

-- Addresses stay apart.
pub set_insert-Apart :
    (w a : ℕ) (es : List Entry) → Fresh a es → Apart es → Apart (set_insert (w, a) es).1
unfolding set_insert
set_insert-Apart w a [] f h = (tt, tt)
set_insert-Apart w a ((v, b) ∷ es) f h = elim (Bool-cases (pair_eq (v, b) (w, a))) [
  | inl same ↦ rw same h
  | inr other ↦ elim (Bool-cases (pair_ltb (w, a) (v, b))) [
    | inl before ↦ rw (other, before) (f, h)
    | inr behind ↦
        rw (other, behind)
          (
            set_insert-each (λ x. b ≢ x.1) (Fresh b) (λ x t p r. (p, r)) (λ x t r. r.0)
                (λ x t r. r.1) (w, a) es (λ e. f.0 (sym e)) tt h.0,
            set_insert-Apart w a es f.1 h.1,
          )
  ]
]

pub set_insert-ApartFirst :
    (a n : ℕ) (es : List Entry)
    → FreshFirst a es
    → ApartFirst es
    → ApartFirst (set_insert (a, n) es).1
unfolding set_insert
set_insert-ApartFirst a n [] f h = (tt, tt)
set_insert-ApartFirst a n ((b, m) ∷ es) f h = elim (Bool-cases (pair_eq (b, m) (a, n))) [
  | inl same ↦ rw same h
  | inr other ↦ elim (Bool-cases (pair_ltb (a, n) (b, m))) [
    | inl before ↦ rw (other, before) (f, h)
    | inr behind ↦
        rw (other, behind)
          (
            set_insert-each (λ x. b ≢ x.0) (FreshFirst b) (λ x t p r. (p, r)) (λ x t r. r.0)
                (λ x t r. r.1) (a, n) es (λ e. f.0 (sym e)) tt h.0,
            set_insert-ApartFirst a n es f.1 h.1,
          )
  ]
]

pub set_erase-Apart : (x : Entry) (es : List Entry) → Apart es → Apart (set_erase x es).1
set_erase-Apart x [] h = tt
set_erase-Apart x ((v, b) ∷ es) h = elim (Bool-cases (pair_eq (v, b) x)) [
  | inl same ↦ rw same h.1
  | inr other ↦ rw other (
    set_erase-each (λ y. b ≢ y.1) (Fresh b) (λ y t p r. (p, r)) (λ y t r. r.0) (λ y t r. r.1) x es
        tt h.0,
    set_erase-Apart x es h.1,
  )
]

pub set_erase-ApartFirst :
    (x : Entry) (es : List Entry) → ApartFirst es → ApartFirst (set_erase x es).1
set_erase-ApartFirst x [] h = tt
set_erase-ApartFirst x ((b, m) ∷ es) h = elim (Bool-cases (pair_eq (b, m) x)) [
  | inl same ↦ rw same h.1
  | inr other ↦ rw other (
    set_erase-each (λ y. b ≢ y.0) (FreshFirst b) (λ y t p r. (p, r)) (λ y t r. r.0) (λ y t r. r.1) x
        es tt h.0,
    set_erase-ApartFirst x es h.1,
  )
]

-- An element that is erased takes its address along.
pub set_erase-Fresh :
    (w a : ℕ) (es : List Entry)
    → set_member (w, a) es ≡ true
    → Apart es
    → Fresh a (set_erase (w, a) es).1
set_erase-Fresh w a [] m h = tt
set_erase-Fresh w a ((v, b) ∷ es) m h = elim (Bool-cases (pair_eq (v, b) (w, a))) [
  | inl same ↦ rw same (subst (λ x. Fresh x es) (ap (λ x. x.1) (pair_eq→eq (v, b) (w, a) same)) h.0)
  | inr other ↦
      let there : set_member (w, a) es ≡ true = rw other at m in
      rw other ((λ e. other_address e there), set_erase-Fresh w a es there h.1)
]
  where
    other_address : a ≡ b → set_member (w, a) es ≡ true → ⊥
    other_address e there =
        let gone : set_member (w, a) es ≡ false =
          Fresh-member w a es (subst (λ x. Fresh x es) (sym e) h.0) in
        cc

pub set_erase-FreshFirst :
    (a n : ℕ) (es : List Entry)
    → set_member (a, n) es ≡ true
    → ApartFirst es
    → FreshFirst a (set_erase (a, n) es).1
set_erase-FreshFirst a n [] m h = tt
set_erase-FreshFirst a n ((b, k) ∷ es) m h = elim (Bool-cases (pair_eq (b, k) (a, n))) [
  | inl same ↦
      rw same (subst (λ x. FreshFirst x es) (ap (λ x. x.0) (pair_eq→eq (b, k) (a, n) same)) h.0)
  | inr other ↦
      let there : set_member (a, n) es ≡ true = rw other at m in
      rw other ((λ e. other_address e there), set_erase-FreshFirst a n es there h.1)
]
  where
    other_address : a ≡ b → set_member (a, n) es ≡ true → ⊥
    other_address e there =
        let gone : set_member (a, n) es ≡ false =
          FreshFirst-member a n es (subst (λ x. FreshFirst x es) (sym e) h.0) in
        cc

-- A timer that is deleted changes nothing for the others.
look_up-delete :
    (a b : ℕ) (store : List (ℕ × Timer)) → a ≢ b → look_up b (delete a store) ≡ look_up b store
look_up-delete a b [] d = refl
look_up-delete a b ((c, t) ∷ ts) d = elim (Bool-cases (c == a)) [
  | inl same ↦
      let other : (c == b) ≡ false = ne→== c b (λ e. d (sym ((==_iff c a).0 same) ∙ e)) in
      rw (same, other) refl
  | inr kept ↦ elim (Bool-cases (c == b)) [
    | inl found ↦ rw (kept, found) refl
    | inr later ↦ rw (kept, later) (look_up-delete a b ts d)
  ]
]

pub Known-delete :
    (store : List (ℕ × Timer)) (active : List Entry) (a : ℕ) (es : List Entry)
    → Fresh a es
    → Known store active es
    → Known (delete a store) active es
Known-delete store active a [] f k = tt
Known-delete store active a ((w, b) ∷ es) f ((u, l, e, m, s), k) =
    ((u, look_up-delete a b store f.0 ∙ l, e, m, s), Known-delete store active a es f.1 k)

pub Owned-delete :
    (store : List (ℕ × Timer)) (timers : List Entry) (w a : ℕ) (es : List Entry)
    → FreshFirst a es
    → Owned store timers es
    → Owned (delete a store) (set_erase (w, a) timers).1 es
Owned-delete store timers w a [] f k = tt
Owned-delete store timers w a ((b, n) ∷ es) f ((u, l, e, m), k) = (
  (
    u,
    look_up-delete a b store f.0 ∙ l,
    e,
    set_erase-member (w, a) (u.expiration, b) timers differs m,
  ),
  Owned-delete store timers w a es f.1 k,
)
  where
    differs : pair_eq (w, a) (u.expiration, b) ≡ false
    differs = elim (Bool-cases (w == u.expiration)) [
      | inl same ↦ rw same (ne→== a b f.0)
      | inr other ↦ rw other refl
    ]

-- The timer of an active element.
pub Owned-member :
    (store : List (ℕ × Timer)) (timers : List Entry) (a n : ℕ) (es : List Entry)
    → set_member (a, n) es ≡ true
    → Owned store timers es
    → (t : Timer) × (look_up a store ≡ some t) × (set_member (t.expiration, a) timers ≡ true)
Owned-member store timers a n [] m k = cc
Owned-member store timers a n ((b, k) ∷ es) m ((u, l, e, i), o) =
    elim (Bool-cases (pair_eq (b, k) (a, n))) [
      | inl same ↦
          let at : b ≡ a = ap (λ x. x.0) (pair_eq→eq (b, k) (a, n) same) in
          (
            u,
            subst (λ x. look_up x store ≡ some u) at l,
            subst (λ x. set_member (u.expiration, x) timers ≡ true) at i,
          )
      | inr other ↦ Owned-member store timers a n es (rw other at m) o
    ]
