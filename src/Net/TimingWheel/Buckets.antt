-- ===== src/Net/TimingWheel/Buckets.antt =====
-- Where an entry of mytinyhttpd/net/timing_wheel.cc stands among the buckets, as they move.
use my_tiny_httpd.Prelude.{
  ℕ, zero, suc, ◌≡◌, ◌≢◌, refl, ap, ◌∙◌, Bool, true, false, not, ◌||◌, List, [], ◌∷◌, ◌++◌, some,
  arith, ◌==◌, ==_iff, ==_refl, Returns, Returns->>=, Bool-cases, inl, inr, length, length-append,
}
use my_tiny_httpd.Net.TimingWheel.{
  member, in_any, keep, find_entry, set_entry, insert_back, push_back,
}

-- The newest bucket that holds `c` is the one at the index.
abbrev pub Newest : ℕ → ℕ → List (List ℕ) → Type 0
Newest c i [] = ⊥
Newest c zero (b ∷ bs) = (member c b ≡ true) × (in_any c bs ≡ false)
Newest c (suc i) (b ∷ bs) = Newest c i bs

or_true : (a : Bool) → (a || true) ≡ true
or_true true = refl
or_true false = refl

pub or_assoc : (a b d : Bool) → (a || (b || d)) ≡ ((a || b) || d)
or_assoc true b d = refl
or_assoc false b d = refl

or_false : (a : Bool) → (a || false) ≡ a
or_false true = refl
or_false false = refl

in_any-append : (c : ℕ) (bs : List (List ℕ)) → in_any c (bs ++ ([] ∷ [])) ≡ in_any c bs
in_any-append c [] = refl
in_any-append c (b ∷ bs) = ap (λ t. member c b || t) (in_any-append c bs)

Newest-append : (c i : ℕ) (bs : List (List ℕ)) → Newest c i bs → Newest c i (bs ++ ([] ∷ []))
Newest-append c i [] h = elim h [ ]
Newest-append c zero (b ∷ bs) h = (h.0, in_any-append c bs ∙ h.1)
Newest-append c (suc i) (b ∷ bs) h = Newest-append c i bs h

pub Newest-in_any : (c i : ℕ) (bs : List (List ℕ)) → Newest c i bs → in_any c bs ≡ true
Newest-in_any c i [] h = elim h [ ]
Newest-in_any c zero (b ∷ bs) h = rw h.0 refl
Newest-in_any c (suc i) (b ∷ bs) h = rw (Newest-in_any c i bs h) (or_true (member c b))

-- The entries that stay are not among those that go.
member-keep_none : (c : ℕ) (p : ℕ → Bool) (ds : List ℕ) → p c ≡ false → member c (keep p ds) ≡ false
member-keep_none c p [] h = refl
member-keep_none c p (d ∷ ds) h = elim (Bool-cases (d == c)) [
  | inl e ↦ rw (ap p ((==_iff d c).0 e), h) (member-keep_none c p ds h)
  | inr e ↦ elim (Bool-cases (p d)) [
    | inl f ↦ rw (f, e) (member-keep_none c p ds h)
    | inr f ↦ rw f (member-keep_none c p ds h)
  ]
]

member-keep :
    (c : ℕ) (p : ℕ → Bool) (ds : List ℕ)
    → p c ≡ true
    → member c ds ≡ true
    → member c (keep p ds) ≡ true
member-keep c p [] h m = cc
member-keep c p (d ∷ ds) h m = elim (Bool-cases (d == c)) [
  | inl e ↦ rw (ap p ((==_iff d c).0 e), h, e) refl
  | inr e ↦ elim (Bool-cases (p d)) [
    | inl f ↦ rw (f, e) (member-keep c p ds h (rw e at m))
    | inr f ↦ rw f (member-keep c p ds h (rw e at m))
  ]
]

pub insert_back-Newest :
    (c i : ℕ) (bs : List (List ℕ))
    → suc i ≡ length bs
    → Returns (λ bs'. Newest c i bs' × (length bs' ≡ length bs)) (insert_back c bs)
unfolding insert_back
insert_back-Newest c i [] h = absurd (omega arith)
insert_back-Newest c zero (b ∷ []) h = (
  (
    elim (Bool-cases (member c b)) [ inl e ↦ rw (e, e) refl | inr e ↦ rw (e, ==_refl c) refl ],
    refl,
  ),
  refl,
)
insert_back-Newest c (suc i) (b ∷ []) h = absurd (omega arith)
insert_back-Newest c zero (b ∷ b' ∷ bs) h = absurd (omega arith)
insert_back-Newest c (suc i) (b ∷ b' ∷ bs) h =
    Returns->>= (λ bs'. Newest c i bs' × (length bs' ≡ suc (length bs)))
      (λ bs'. Newest c (suc i) bs' × (length bs' ≡ suc (suc (length bs)))) (insert_back c (b' ∷ bs))
      _ (insert_back-Newest c i (b' ∷ bs) (omega arith)) (λ rest r. (r.0, ap suc r.1))

pub find_entry-set_entry : (c i : ℕ) (es : List (ℕ × ℕ)) → find_entry c (set_entry c i es) ≡ some i
unfolding find_entry set_entry
find_entry-set_entry c i [] = rw (==_refl c) refl
find_entry-set_entry c i ((d, j) ∷ es) = elim (Bool-cases (d == c)) [
  | inl e ↦ rw (e, e) refl
  | inr e ↦ rw (e, e) (find_entry-set_entry c i es)
]

pub push_back-kept :
    (c i : ℕ) (bs : List (List ℕ))
    → Newest c (suc i) bs
    → (member c (push_back bs).0 ≡ false)
      × Newest c i (push_back bs).1
      × (length (push_back bs).1 ≡ length bs)
push_back-kept c i [] q = elim q [ ]
push_back-kept c i (b ∷ bs) q = (
  member-keep_none c (λ d. not (in_any d (bs ++ ([] ∷ [])))) b
      (ap not (in_any-append c bs ∙ Newest-in_any c i bs q)),
  Newest-append c i bs q,
  omega (arith, length-append bs ([] ∷ [])),
)

pub push_back-gone :
    (c : ℕ) (bs : List (List ℕ))
    → Newest c 0 bs
    → (member c (push_back bs).0 ≡ true) × (in_any c (push_back bs).1 ≡ false)
push_back-gone c [] q = elim q [ ]
push_back-gone c (b ∷ bs) q = (
  member-keep c (λ d. not (in_any d (bs ++ ([] ∷ [])))) b (ap not (in_any-append c bs ∙ q.1)) q.0,
  in_any-append c bs ∙ q.1,
)

pub ne→== : (a b : ℕ) → a ≢ b → (a == b) ≡ false
ne→== a b h = elim (Bool-cases (a == b)) [ inl e ↦ absurd (h ((==_iff a b).0 e)) | inr e ↦ e ]
