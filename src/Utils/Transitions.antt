-- ===== src/Utils/Transitions.antt =====
-- Which local time is in force: `FindLocaltime` and its callers in mytinyhttpd/utils/timezone.cc.
-- `timegm` and `gmtime_r` are the C library's: the callers are modelled by the seconds that they
-- give to it and take from it.
pub mod InForce
use my_tiny_httpd.Prelude.{
  ℕ, suc, ◌+◌, ◌-◌, Bool, true, false, not, List, [], ◌∷◌, Option, none, some, Outcome, ok, fault,
  out_of_range, ◌>>=◌, ◌>>◌, assert, ◌==◌, if◌then◌else◌, length, get_elem?, ℤ, pos, lt_ℤ, eq_ℤ,
  ◌+ℤ◌, ◌-ℤ◌,
}

pub record Transition : Type 0 where
  pub gmttime : ℤ
  pub localtime : ℤ
  pub localtime_idx : ℕ

pub record Localtime : Type 0 where
  pub gmt_offset : ℤ
  pub is_dst : Bool
  pub arrb_idx : ℕ

pub record Rep : Type 0 where
  pub transitions : List Transition
  pub localtimes : List Localtime
  pub abbreviation : List ℕ

-- What `Comp` compares.
abbrev pub key : Bool → Transition → ℤ
key true t = t.gmttime
key false t = t.localtime

abbrev pub comp : Bool → Transition → Transition → Bool
comp compare_gmt lhs rhs = lt_ℤ (key compare_gmt lhs) (key compare_gmt rhs)

abbrev pub equal : Bool → Transition → Transition → Bool
equal compare_gmt lhs rhs = eq_ℤ (key compare_gmt lhs) (key compare_gmt rhs)

-- `std::lower_bound`, on transitions in order.
pub lower_bound : Bool → Transition → List Transition → ℕ
lower_bound gmt sentry [] = 0
lower_bound gmt sentry (t ∷ ts) = if comp gmt t sentry then suc (lower_bound gmt sentry ts) else 0

abbrev pub at_index {ℓ} : {A : Type ℓ} → List A → ℕ → Outcome A
at_index xs i = elim (get_elem? xs i) [ none ↦ fault out_of_range | some x ↦ ok x ]

-- The transition that the search ends at, where the sentry is not in front of all.
pub find_transition : Bool → Transition → List Transition → Outcome Transition
find_transition gmt sentry ts =
    let i = lower_bound gmt sentry ts in
    elim (get_elem? ts i) [
      | some t ↦ if equal gmt sentry t then ok t else (assert (not (i == 0)) >> at_index ts (i - 1))
      | none ↦ at_index ts (length ts - 1)
    ]

-- `FindLocaltime`.
unfoldable pub find_localtime : Rep → Transition → Bool → Outcome Localtime
find_localtime rep sentry gmt = elim rep.transitions [
  | [] ↦ at_index rep.localtimes 0
  | t ∷ ts ↦
      if comp gmt sentry t
      then at_index rep.localtimes 0
      else (find_transition gmt sentry (t ∷ ts) >>= λ found.
          at_index rep.localtimes found.localtime_idx)
]

abbrev pub sentry_gmt : ℤ → Transition
sentry_gmt seconds = record { gmttime = seconds; localtime = pos 0; localtime_idx = 0 }

abbrev pub sentry_local : ℤ → Transition
sentry_local seconds = record { gmttime = pos 0; localtime = seconds; localtime_idx = 0 }

-- `ToLocalTime` up to `gmtime_r`: the local seconds and the local time that is in force.
unfoldable pub to_local_seconds : Rep → ℤ → Outcome (ℤ × Localtime)
to_local_seconds rep seconds =
    find_localtime rep (sentry_gmt seconds) true >>= λ l. ok (seconds +ℤ l.gmt_offset, l)

-- `TimeZone(int east_of_utc, const char* name)`.
pub fixed_zone : ℤ → List ℕ → Rep
fixed_zone east_of_utc name = record {
  transitions = [];
  localtimes = record { gmt_offset = east_of_utc; is_dst = false; arrb_idx = 0 } ∷ [];
  abbreviation = name;
}
