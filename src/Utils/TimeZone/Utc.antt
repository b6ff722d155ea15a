-- ===== src/Utils/TimeZone/Utc.antt =====
-- `ToUtcTime` and `FromUtcTime` of mytinyhttpd/utils/timezone.cc.
use my_tiny_httpd.Prelude.{
  ℕ, ◌+◌, ◌-◌, ◌*◌, ◌/◌, ◌%◌, ◌^◌, ◌≤◌, ◌<◌, ◌≡◌, ◌∙◌, refl, ap, inl, inr, Bool-cases, lt→ltb, ok,
  ◌>>=◌, Bool, ℤ, pos, negsuc, pos_part, sub_ℕ, ◌+ℤ◌, times, arith,
}
use my_tiny_httpd.Utils.Date.{year_month_day_of, new_date, julian_day_of_1970_01_01}
use my_tiny_httpd.Utils.Date.Julian.{
  julian_day_of-year_month_day_of, month_pos, last_day, to_year_month_day-ok,
  to_julian_day_number-ok, year_month_day_of-bounds,
}
use my_tiny_httpd.Utils.TimeZone.{
  seconds_per_day, split_days, julian_of, to_utc_time, from_utc_parts, from_utc_time,
}

-- From 0000-03-01 on, as long as the computation of the day fits an `int`.
abbrev pub IsTime : ℤ → Type 0
IsTime (pos n) = n < (last_day + 1 - julian_day_of_1970_01_01) * 86400
IsTime (negsuc n) = n < 719468 * 86400

year_back : (y : ℕ) → pos_part (sub_ℕ y 1900 +ℤ pos 1900) ≡ y
year_back y = ground arith

hms : (s : ℕ) → s / 60 / 60 * 3600 + s / 60 % 60 * 60 + s % 60 ≡ s
hms s = omega arith

-- A day from 0000-03-01 on, and a second of it, give the second counted from 1970-01-01.
abbrev second_of : ℕ → ℕ → ℤ
second_of julian s = times (sub_ℕ julian julian_day_of_1970_01_01) seconds_per_day +ℤ pos s

record Splits (t : ℤ) : Type 0 where
  early : (split_days t).0 < 86400
  fits : julian_of (split_days t).1 ≤ last_day
  late : 1721120 ≤ julian_of (split_days t).1
  whole : second_of (julian_of (split_days t).1) (split_days t).0 ≡ t

split_days-Splits : (t : ℤ) → IsTime t → Splits t
unfolding split_days
split_days-Splits (pos n) h = record {
  early = ground arith;
  fits = ground arith;
  late = ground arith;
  whole = ground arith;
}
split_days-Splits (negsuc n) h = record {
  early = ground arith;
  fits = ground arith;
  late = ground arith;
  whole = ground arith;
}

from_utc_parts_lem :
    (j s : ℕ)
    → 1721120 ≤ j
    → j ≤ last_day
    → s < 86400
    → from_utc_parts
        (year_month_day_of j).year
        (year_month_day_of j).month
        (year_month_day_of j).day
        (s / 60 / 60)
        (s / 60 % 60)
        (s % 60)
      ≡ ok (second_of j s)
unfolding from_utc_parts new_date
from_utc_parts_lem j s h k l =
    let (y, m, d) = year_month_day_of-bounds j h k in
    let ymd = year_month_day_of j in
    rw
      (
        to_julian_day_number-ok ymd.year ymd.month ymd.day y m d,
        hms s,
        lt→ltb s (2 ^ 31) (omega (arith, l)),
        julian_day_of-year_month_day_of j h,
      )
      refl

-- For each time from 0000-03-01 on whose Julian day is at most 536838867, before 1970 too,
-- `ToUtcTime` and then `FromUtcTime` run to their ends, no `int` of the conversions of days
-- overflowing, and `FromUtcTime` gives back the time from the fields that `ToUtcTime` fills in.
pub from_utc_time-to_utc_time :
    (t : ℤ) (yday : Bool) → IsTime t → (to_utc_time t yday >>= from_utc_time) ≡ ok t
unfolding from_utc_time to_utc_time new_date
from_utc_time-to_utc_time t yday h =
    let v = split_days-Splits t h in
    let j = julian_of (split_days t).1 in
    let ymd = year_month_day_of j in
    let (y, m, d) = year_month_day_of-bounds j v.late v.fits in
    let same_month : ymd.month - 1 + 1 ≡ ymd.month = omega (arith, month_pos j v.late) in
    elim (Bool-cases yday) [
      | inl e ↦
          rw
            (
              to_year_month_day-ok j v.fits,
              e,
              to_julian_day_number-ok ymd.year 1 1 y (omega arith) (omega arith),
              year_back ymd.year,
              same_month,
            )
            (from_utc_parts_lem j (split_days t).0 v.late v.fits v.early ∙ ap ok v.whole)
      | inr e ↦
          rw (to_year_month_day-ok j v.fits, e, year_back ymd.year, same_month)
            (from_utc_parts_lem j (split_days t).0 v.late v.fits v.early ∙ ap ok v.whole)
    ]
