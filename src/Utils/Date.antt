-- ===== src/Utils/Date.antt =====
-- Julian day numbers: mytinyhttpd/utils/date.h and date.cc. The numbers are those of days from
-- 0000-03-01 on, whose parts are not negative. An `int` that a product or a sum does not fit is a
-- fault; the places where the numbers are greatest are tested.
pub mod Julian
use my_tiny_httpd.Prelude.{ℕ, ◌+◌, ◌-◌, ◌*◌, ◌/◌, ◌%◌, ◌^◌, Outcome, ok, ◌>>◌, in_range, ltb}

pub record YearMonthDay : Type 0 where
  pub year : ℕ
  pub month : ℕ
  pub day : ℕ

-- The number fits an `int`.
abbrev pub in_int : ℕ → Outcome (Unit {0})
in_int n = in_range (ltb n (2 ^ 31))

-- What `ToJulianDayNumber` computes, and with the test of its `int`s.
pub julian_day_of : ℕ → ℕ → ℕ → ℕ
julian_day_of year month day =
    let a = (14 - month) / 12 in
    let y = year + 4800 - a in
    let m = month + 12 * a - 3 in
    day + (153 * m + 2) / 5 + y * 365 + y / 4 - y / 100 + y / 400 - 32045

pub to_julian_day_number : ℕ → ℕ → ℕ → Outcome ℕ
to_julian_day_number year month day =
    let a = (14 - month) / 12 in
    let y = year + 4800 - a in
    let m = month + 12 * a - 3 in
    in_int (year + 4800)
    >> in_int (153 * m + 2)
    >> in_int (day + (153 * m + 2) / 5 + y * 365 + y / 4)
    >> ok (julian_day_of year month day)

-- What `ToYearMonthDay` computes, and with the test of its `int`s.
pub year_month_day_of : ℕ → YearMonthDay
year_month_day_of julian_day_number =
    let a = julian_day_number + 32044 in
    let b = (4 * a + 3) / 146097 in
    let c = a - (b * 146097) / 4 in
    let d = (4 * c + 3) / 1461 in
    let e = c - (1461 * d) / 4 in
    let m = (5 * e + 2) / 153 in
    record {
      year = b * 100 + d - 4800 + m / 10;
      month = m + 3 - 12 * (m / 10);
      day = e - (153 * m + 2) / 5 + 1;
    }

pub to_year_month_day : ℕ → Outcome YearMonthDay
to_year_month_day julian_day_number =
    let a = julian_day_number + 32044 in
    in_int (4 * a + 3)
    >> in_int ((4 * a + 3) / 146097 * 146097)
    >> ok (year_month_day_of julian_day_number)

-- `Date(int, int, int)`.
unfoldable pub new_date : ℕ → ℕ → ℕ → Outcome ℕ
new_date year month day = to_julian_day_number year month day

-- `kJulianDayOf1970_01_01`.
abbrev pub julian_day_of_1970_01_01 : ℕ
julian_day_of_1970_01_01 = 2440588

abbrev pub days_per_week : ℕ
days_per_week = 7

pub to_week_day : ℕ → ℕ
to_week_day julian_day_number = (julian_day_number + 1) % days_per_week
