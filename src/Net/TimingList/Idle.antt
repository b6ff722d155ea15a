-- ===== src/Net/TimingList/Idle.antt =====
-- Which connections mytinyhttpd/net/timing_list.cc shuts down.
use my_tiny_httpd.Prelude.{
  ℕ, ◌+◌, ◌*◌, ◌≤◌, ◌≡◌, ◌≢◌, refl, sym, ap, subst, Bool, true, false, ◌&&◌, List, [], ◌∷◌, Option,
  none, some, ltb, ◌==◌, ==_iff, if◌then◌else◌, Bool-cases, inl, inr, arith, le→ltb, Returns,
  Returns->>=,
}
use my_tiny_httpd.Net.TimingList.{
  TimingList, Connections, micro_seconds_per_second, set_context, timer_loop, on_timer,
}

-- The connection is alive and up, and has been silent for longer than the seconds.
abbrev pub is_idle : Connections → ℕ → ℕ → (ℕ → Option ℕ) → ℕ → Bool
is_idle s now idle context c = s.alive c && s.is_connected c && elim (context c) [
  | none ↦ false
  | some time ↦ ltb (time + idle * micro_seconds_per_second) now
]

abbrev pub select : (ℕ → Bool) → List ℕ → List ℕ
select p [] = []
select p (c ∷ cs) = if p c then c ∷ select p cs else select p cs

-- The connections differ.
abbrev pub Absent : ℕ → List ℕ → Type 0
Absent c [] = Unit {0}
Absent c (d ∷ ds) = (c ≢ d) × Absent c ds

abbrev pub Distinct : List ℕ → Type 0
Distinct [] = Unit {0}
Distinct (c ∷ cs) = Absent c cs × Distinct cs

-- Those that are alive have nodes, whose times are at least `bound` and do not decrease.
abbrev pub Ordered : Connections → (ℕ → Option ℕ) → ℕ → List ℕ → Type 0
Ordered s context bound [] = Unit {0}
Ordered s context bound (c ∷ cs) =
    (time : ℕ) × (bound ≤ time)
    × (s.alive c ≡ true → context c ≡ some time)
    × Ordered s context time cs

and_false : (b : Bool) → (b && false) ≡ false
and_false true = refl
and_false false = refl

is_idle-none :
    (s : Connections) (now idle : ℕ) (context : ℕ → Option ℕ) (time c : ℕ)
    → now ≤ time + idle * micro_seconds_per_second
    → (s.alive c ≡ true → context c ≡ some time)
    → is_idle s now idle context c ≡ false
is_idle-none s now idle context time c young node = elim (Bool-cases (s.alive c)) [
  | inl alive ↦
      rw (alive, node alive, le→ltb (time + idle * micro_seconds_per_second) now young)
        (and_false (s.is_connected c))
  | inr dead ↦ rw dead refl
]

-- No connection is idle from one on that is not.
select-none :
    (s : Connections) (now idle : ℕ) (context : ℕ → Option ℕ) (bound : ℕ) (cs : List ℕ)
    → now ≤ bound + idle * micro_seconds_per_second
    → Ordered s context bound cs
    → select (is_idle s now idle context) cs ≡ []
select-none s now idle context bound [] young o = refl
select-none s now idle context bound (c ∷ cs) young (time, later, node, o) =
    let young' : now ≤ time + idle * micro_seconds_per_second = omega (arith, young, later) in
    rw (is_idle-none s now idle context time c young' node)
      (select-none s now idle context time cs young' o)

Ordered-set_context :
    (s : Connections) (context : ℕ → Option ℕ) (bound c now : ℕ) (cs : List ℕ)
    → Absent c cs
    → Ordered s context bound cs
    → Ordered s (set_context c now context) bound cs
Ordered-set_context s context bound c now [] a o = tt
Ordered-set_context s context bound c now (d ∷ ds) (differs, a) (time, later, node, o) =
    (time, later, (λ alive. rw other (node alive)), Ordered-set_context s context time c now ds a o)
  where
    other : (c == d) ≡ false
    other = elim (Bool-cases (c == d)) [ inl e ↦ absurd (differs ((==_iff c d).0 e)) | inr e ↦ e ]

is_idle-old :
    (s : Connections) (now idle : ℕ) (context : ℕ → Option ℕ) (time c : ℕ)
    → s.alive c ≡ true
    → context c ≡ some time
    → ltb (time + idle * micro_seconds_per_second) now ≡ true
    → is_idle s now idle context c ≡ s.is_connected c
is_idle-old s now idle context time c alive node old =
    rw (alive, node, old) (and_true (s.is_connected c))
  where
    and_true : (b : Bool) → (b && true) ≡ b
    and_true true = refl
    and_true false = refl

not_old : (a b : ℕ) → ltb a b ≡ false → b ≤ a
not_old a b h = ground arith

timer_loop-idle :
    (s : Connections) (now idle : ℕ) (cs : List ℕ) (context : ℕ → Option ℕ) (bound : ℕ)
    → Distinct cs
    → Ordered s context bound cs
    → Returns (λ r. r.0 ≡ select (is_idle s now idle context) cs) (timer_loop s now idle cs context)
timer_loop-idle s now idle [] context bound d o = refl
timer_loop-idle s now idle (c ∷ cs) context bound (a, d) (time, later, node, o) =
    elim (Bool-cases (s.alive c)) [
      | inr dead ↦ rw dead (timer_loop-idle s now idle cs context time d o)
      | inl alive ↦ elim (Bool-cases (ltb (time + idle * micro_seconds_per_second) now)) [
        | inl old ↦
            subst Shuts
              (sym (
                ap (λ b. if b then c ∷ others else others)
                  (is_idle-old s now idle context time c alive (node alive) old)))
              (rw (alive, node alive, old)
                (Returns->>= (λ r. r.0 ≡ others)
                  (λ r. r.0 ≡ (if s.is_connected c then c ∷ others else others))
                  (timer_loop s now idle cs context) _
                  (timer_loop-idle s now idle cs context time d o)
                  (λ r e. ap (λ x. if s.is_connected c then c ∷ x else x) e)))
        | inr young ↦ elim (Bool-cases (ltb now time)) [
          | inl jump ↦ subst Shuts (sym (none_idle (not_old _ now young))) (
              rw (alive, node alive, young, jump)
                (Returns->>= (λ r. r.0 ≡ []) (λ r. r.0 ≡ []) (timer_loop s now idle cs moved) _
                  (subst (λ x. Returns (λ r. r.0 ≡ x) (timer_loop s now idle cs moved))
                    (select-none s now idle moved time cs (not_old _ now young) moved-Ordered)
                    (timer_loop-idle s now idle cs moved time d moved-Ordered))
                  (λ r e. e)))
          | inr present ↦
              subst Shuts (sym (none_idle (not_old _ now young)))
                (rw (alive, node alive, young, present) refl)
        ]
      ]
    ]
  where
    Shuts : List ℕ → Type 0
    Shuts x = Returns (λ r. r.0 ≡ x) (timer_loop s now idle (c ∷ cs) context)

    others : List ℕ
    others = select (is_idle s now idle context) cs

    moved : ℕ → Option ℕ
    moved = set_context c now context

    moved-Ordered : Ordered s moved time cs
    moved-Ordered = Ordered-set_context s context time c now cs a o

    none_idle :
        now ≤ time + idle * micro_seconds_per_second
        → select (is_idle s now idle context) (c ∷ cs) ≡ []
    none_idle young =
        select-none s now idle context time (c ∷ cs) young (time, omega arith, node, o)

-- On a list in which no connection stands twice and the times of those that are alive do not
-- decrease, `OnTimer` runs to its end, and though its loop ends early, or goes over times that lie in
-- the future, it shuts down just the connections that are alive, up and silent for longer than the
-- idle seconds, in the order of the list.
pub on_timer-idle :
    (s : Connections) (now : ℕ) (l : TimingList)
    → Distinct l.connection_list
    → Ordered s l.timing_context 0 l.connection_list
    → Returns
        (λ r. r.0 ≡ select (is_idle s now l.idle_seconds l.timing_context) l.connection_list)
        (on_timer s now l)
unfolding on_timer
on_timer-idle s now l d o =
    Returns->>=
      (λ r. r.0 ≡ select (is_idle s now l.idle_seconds l.timing_context) l.connection_list)
      (λ r. r.0 ≡ select (is_idle s now l.idle_seconds l.timing_context) l.connection_list)
      (timer_loop s now l.idle_seconds l.connection_list l.timing_context) _
      (timer_loop-idle s now l.idle_seconds l.connection_list l.timing_context 0 d o) (λ r e. e)
