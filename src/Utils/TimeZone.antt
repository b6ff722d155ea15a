-- ===== src/Utils/TimeZone.antt =====
-- Time zones: mytinyhttpd/utils/timezone.h and timezone.cc. A `time_t` is an integer, and a
-- `struct tm` has the fields that the code reads or writes; its year is an integer, since it counts
-- from 1900.
pub mod Utc
use my_tiny_httpd.Prelude.{
  ℕ, suc, ◌+◌, ◌-◌, ◌*◌, ◌/◌, ◌%◌, Bool, true, false, List, [], ◌∷◌, Option, none, some, Outcome,
  ok, fault, out_of_range, ◌>>=◌, ◌>>◌, if◌then◌else◌, ℤ, pos, negsuc, quot, rem, pos_part, sub_ℕ,
  ◌+ℤ◌, ◌-ℤ◌, times, lt_ℤ,
}
use my_tiny_httpd.Utils.Date.{
  in_int, to_year_month_day, to_week_day, new_date, julian_day_of_1970_01_01,
}

pub record Tm : Type 0 where
  pub tm_sec : ℕ
  pub tm_min : ℕ
  pub tm_hour : ℕ
  pub tm_mday : ℕ
  pub tm_mon : ℕ
  pub tm_year : ℤ
  pub tm_wday : ℕ
  pub tm_yday : ℕ

abbrev pub seconds_per_day : ℕ
seconds_per_day = 24 * 60 * 60

-- The second of the day, and the day counted from 1970-01-01.
pub split_days : ℤ → ℕ × ℤ
split_days t = elim (rem seconds_per_day t) [
  | pos s ↦ (s, quot seconds_per_day t)
  | negsuc s ↦ (seconds_per_day - suc s, quot seconds_per_day t -ℤ pos 1)
]

-- `FillHms`, whose three fields stand for the time of the day.
abbrev pub fill_hms : ℕ → Tm → Tm
fill_hms seconds utc = record utc {
  tm_sec = seconds % 60;
  tm_min = seconds / 60 % 60;
  tm_hour = seconds / 60 / 60;
}

-- `bzero` of a `struct tm`.
abbrev pub zero_tm : Tm
zero_tm = record {
  tm_sec = 0;
  tm_min = 0;
  tm_hour = 0;
  tm_mday = 0;
  tm_mon = 0;
  tm_year = pos 0;
  tm_wday = 0;
  tm_yday = 0;
}

-- `days + Date::kJulianDayOf1970_01_01`, a day from 0000-03-01 on.
abbrev pub julian_of : ℤ → ℕ
julian_of days = pos_part (days +ℤ pos julian_day_of_1970_01_01)

-- `ToUtcTime`.
pub to_utc_time : ℤ → Bool → Outcome Tm
to_utc_time seconds_since_epoch yday = do
  let (seconds, days) = split_days seconds_since_epoch
  let julian = julian_of days
  ymd ← to_year_month_day julian
  let utc = record (fill_hms seconds zero_tm) {
    tm_year = sub_ℕ ymd.year 1900;
    tm_mon = ymd.month - 1;
    tm_mday = ymd.day;
    tm_wday = to_week_day julian;
  }
  if yday
      then (new_date ymd.year 1 1 >>= λ start. ok (record utc { tm_yday = julian - start }))
      else ok utc

-- `FromUtcTime` of the parts, the year not negative.
pub from_utc_parts : ℕ → ℕ → ℕ → ℕ → ℕ → ℕ → Outcome ℤ
from_utc_parts year month day hour minute seconds = do
  date ← new_date year month day
  in_int (hour * 3600 + minute * 60 + seconds)
  let days = sub_ℕ date julian_day_of_1970_01_01
  ok (times days seconds_per_day +ℤ pos (hour * 3600 + minute * 60 + seconds))

-- `FromUtcTime`.
pub from_utc_time : Tm → Outcome ℤ
from_utc_time utc =
    from_utc_parts (pos_part (utc.tm_year +ℤ pos 1900)) (utc.tm_mon + 1) utc.tm_mday utc.tm_hour
      utc.tm_min utc.tm_sec
