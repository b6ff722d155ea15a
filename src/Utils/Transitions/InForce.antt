-- ===== src/Utils/Transitions/InForce.antt =====
-- `FindLocaltime` of mytinyhttpd/utils/timezone.cc finds the last transition that has happened.
use my_tiny_httpd.Prelude.{
  ℕ, suc, ◌-◌, ◌≡◌, refl, ap, ◌∙◌, Bool, true, false, not, inl, inr, List, [], ◌∷◌, Option, none,
  some, Outcome, ok, ◌>>=◌, ◌>>◌, assert, ◌==◌, if◌then◌else◌, length, get_elem?, ℤ, lt_ℤ, eq_ℤ,
  arith, Bool-cases,
}
use my_tiny_httpd.Utils.Transitions.{
  Transition, Localtime, Rep, key, comp, equal, lower_bound, at_index, find_transition,
  find_localtime,
}

-- The last of the transitions, in their order, that is not behind the sentry, `best` where there is
-- none.
pub in_force : Bool → Transition → Option Transition → List Transition → Option Transition
in_force gmt sentry best [] = best
in_force gmt sentry best (t ∷ ts) =
    in_force gmt sentry (if comp gmt sentry t then best else some t) ts

-- The transitions stand in strict order behind `t`.
abbrev pub Follow : Bool → Transition → List Transition → Type 0
Follow gmt t [] = Unit {0}
Follow gmt t (u ∷ us) = (comp gmt t u ≡ true) × Follow gmt u us

abbrev pub AreOrdered : Bool → List Transition → Type 0
AreOrdered gmt [] = Unit {0}
AreOrdered gmt (t ∷ ts) = Follow gmt t ts

abbrev pub localtime_of : Rep → Option Transition → Outcome Localtime
localtime_of rep none = at_index rep.localtimes 0
localtime_of rep (some t) = at_index rep.localtimes t.localtime_idx

lt_trans : (a b c : ℤ) → lt_ℤ a b ≡ true → lt_ℤ b c ≡ true → lt_ℤ a c ≡ true
lt_trans a b c h k = ground arith

eq_lt : (a b c : ℤ) → eq_ℤ a b ≡ true → lt_ℤ b c ≡ true → lt_ℤ a c ≡ true
eq_lt a b c h k = ground arith

neither : (a b : ℤ) → lt_ℤ b a ≡ false → eq_ℤ a b ≡ false → lt_ℤ a b ≡ true
neither a b h k = ground arith

tie : (a b : ℤ) → lt_ℤ a b ≡ false → lt_ℤ b a ≡ false → eq_ℤ a b ≡ true
tie a b h k = ground arith

eq_not_lt : (a b : ℤ) → eq_ℤ a b ≡ true → lt_ℤ a b ≡ false
eq_not_lt a b h = ground arith

lt_not_lt : (a b : ℤ) → lt_ℤ a b ≡ true → lt_ℤ b a ≡ false
lt_not_lt a b h = ground arith

module _ (gmt : Bool) (s : Transition) where
  -- Transitions behind the sentry change nothing.
  in_force-later :
      (t : Transition) (ts : List Transition) (best : Option Transition)
      → comp gmt s t ≡ true
      → Follow gmt t ts
      → in_force gmt s best ts ≡ best
  unfolding in_force
  in_force-later t [] best h f = refl
  in_force-later t (u ∷ us) best h f =
      let later = lt_trans (key gmt s) (key gmt t) (key gmt u) h f.0 in
      rw later (in_force-later u us best later f.1)

  -- Nothing has happened before the first transition.
  in_force-start :
      (t : Transition) (ts : List Transition)
      → comp gmt s t ≡ true
      → Follow gmt t ts
      → in_force gmt s none (t ∷ ts) ≡ none
  unfolding in_force
  in_force-start t ts h f = rw h (in_force-later t ts none h f)

  in_force-none : in_force gmt s none [] ≡ none
  unfolding in_force
  in_force-none = refl

  in_force-same :
      (t : Transition) (ts : List Transition)
      → equal gmt s t ≡ true
      → Follow gmt t ts
      → in_force gmt s (some t) ts ≡ some t
  unfolding in_force
  in_force-same t [] e f = refl
  in_force-same t (u ∷ us) e f =
      let later = eq_lt (key gmt s) (key gmt t) (key gmt u) e f.0 in
      rw later (in_force-later u us (some t) later f.1)

  lower_bound-before :
      (t : Transition) (ts : List Transition)
      → comp gmt t s ≡ true
      → lower_bound gmt s (t ∷ ts) ≡ suc (lower_bound gmt s ts)
  unfolding lower_bound
  lower_bound-before t ts h = rw h

  lower_bound-here :
      (t : Transition) (ts : List Transition)
      → comp gmt t s ≡ false
      → lower_bound gmt s (t ∷ ts) ≡ 0
  unfolding lower_bound
  lower_bound-here t ts h = rw h

  -- What `find_transition` takes at an index, behind a transition `p` in front of the sentry.
  abbrev pick : Transition → List Transition → ℕ → Outcome Transition
  pick p ts i = elim (get_elem? ts i) [
    | some t ↦ if equal gmt s t then ok t else at_index (p ∷ ts) i
    | none ↦ at_index (p ∷ ts) (length ts)
  ]

  pick_same :
      (p t : Transition) (ts : List Transition) → equal gmt s t ≡ true → pick p (t ∷ ts) 0 ≡ ok t
  pick_same p t ts h = rw h

  pick_previous :
      (p t : Transition) (ts : List Transition) → equal gmt s t ≡ false → pick p (t ∷ ts) 0 ≡ ok p
  pick_previous p t ts h = rw h

  pick-in_force :
      (p : Transition) (ts : List Transition)
      → Follow gmt p ts
      → (t : Transition) × (pick p ts (lower_bound gmt s ts) ≡ ok t)
        × (in_force gmt s (some p) ts ≡ some t)
  unfolding in_force
  pick-in_force p [] f = (p, refl, refl)
  pick-in_force p (t ∷ ts) f = elim (Bool-cases (comp gmt t s)) [
    | inl before ↦
        let (u, c, i) = pick-in_force t ts f.1 in
        (
          u,
          ap (pick p (t ∷ ts)) (lower_bound-before t ts before) ∙ c,
          rw (lt_not_lt (key gmt t) (key gmt s) before) i,
        )
    | inr not_before ↦ elim (Bool-cases (equal gmt s t)) [
      | inl same ↦ (
        t,
        ap (pick p (t ∷ ts)) (lower_bound-here t ts not_before) ∙ pick_same p t ts same,
        rw (eq_not_lt (key gmt s) (key gmt t) same) (in_force-same t ts same f.1),
      )
      | inr other ↦
          let behind = neither (key gmt s) (key gmt t) not_before other in
          (
            p,
            ap (pick p (t ∷ ts)) (lower_bound-here t ts not_before) ∙ pick_previous p t ts other,
            rw behind (in_force-later t ts (some p) behind f.1),
          )
    ]
  ]

  -- The step back from an index that is not the first.
  shifted :
      (t : Transition) (ts : List Transition) (o : Option Transition) (i : ℕ)
      → (elim o [
        | some u ↦
            if equal gmt s u
            then ok u
            else (assert (not (suc i == 0)) >> at_index (t ∷ ts) (suc i - 1))
        | none ↦ at_index (t ∷ ts) (suc (length ts) - 1)
      ])
        ≡ (elim o [
          | some u ↦ if equal gmt s u then ok u else at_index (t ∷ ts) i
          | none ↦ at_index (t ∷ ts) (length ts)
        ])
  shifted t ts none i =
      let e : suc (length ts) - 1 ≡ length ts = omega arith in ap (at_index (t ∷ ts)) e
  shifted t ts (some u) i =
      let e : suc i - 1 ≡ i = omega arith in
      let n : (suc i == 0) ≡ false = ground arith in rw (n, e)

  -- The whole search, where the first transition is not behind the sentry.
  find_transition-in_force :
      (t : Transition) (ts : List Transition)
      → comp gmt s t ≡ false
      → Follow gmt t ts
      → (u : Transition) × (find_transition gmt s (t ∷ ts) ≡ ok u)
        × (in_force gmt s none (t ∷ ts) ≡ some u)
  unfolding find_transition in_force
  find_transition-in_force t ts h f = elim (Bool-cases (comp gmt t s)) [
    | inl before ↦
        let (u, c, i) = pick-in_force t ts f in
        (
          u,
          ap found (lower_bound-before t ts before)
              ∙ shifted t ts (get_elem? ts (lower_bound gmt s ts)) (lower_bound gmt s ts)
              ∙ c,
          rw h i,
        )
    | inr not_before ↦
        let same : equal gmt s t ≡ true = tie (key gmt s) (key gmt t) h not_before in
        (
          t,
          ap found (lower_bound-here t ts not_before) ∙ rw same refl,
          rw h (in_force-same t ts same f),
        )
  ]
    where
      found : ℕ → Outcome Transition
      found i = elim (get_elem? (t ∷ ts) i) [
        | some u ↦
            if equal gmt s u then ok u else (assert (not (i == 0)) >> at_index (t ∷ ts) (i - 1))
        | none ↦ at_index (t ∷ ts) (length (t ∷ ts) - 1)
      ]

-- In transitions in strict order, `FindLocaltime` finds the local time of the last one that is not
-- behind the given time, counted in UTC or in local time, and before all of them the first local
-- time of the zone; its assertion never fails.
pub find_localtime-in_force :
    (rep : Rep) (sentry : Transition) (gmt : Bool)
    → AreOrdered gmt rep.transitions
    → find_localtime rep sentry gmt ≡ localtime_of rep (in_force gmt sentry none rep.transitions)
unfolding find_localtime
find_localtime-in_force rep sentry gmt h = among rep.transitions h
  where
    among :
        (ts : List Transition)
        → AreOrdered gmt ts
        → (elim ts [
          | [] ↦ at_index rep.localtimes 0
          | t ∷ us ↦
              if comp gmt sentry t
              then at_index rep.localtimes 0
              else (find_transition gmt sentry (t ∷ us) >>= λ found.
                  at_index rep.localtimes found.localtime_idx)
        ])
          ≡ localtime_of rep (in_force gmt sentry none ts)
    among [] f = rw (in_force-none gmt sentry)
    among (t ∷ us) f = elim (Bool-cases (comp gmt sentry t)) [
      | inl first ↦ rw (first, in_force-start gmt sentry t us first f)
      | inr later ↦
          let (u, c, i) = find_transition-in_force gmt sentry t us later f in rw (later, c, i)
    ]
