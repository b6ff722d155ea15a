-- ===== src/Utils/Date/Julian.antt =====
-- The two conversions of mytinyhttpd/utils/date.cc undo each other.
use my_tiny_httpd.Prelude.{
  ℕ, ◌^◌, ◌<◌, lt→ltb, ok, fault, out_of_range, ◌+◌, ◌-◌, ◌*◌, ◌/◌, ◌≤◌, ◌≡◌, refl, arith, ◌∙◌,
}
use my_tiny_httpd.Utils.Date.{
  to_julian_day_number, to_year_month_day, julian_day_of, year_month_day_of,
  julian_day_of_1970_01_01,
}

epoch : to_julian_day_number 1970 1 1 ≡ ok julian_day_of_1970_01_01
unfolding to_julian_day_number julian_day_of
epoch = refl

-- The parts that `ToYearMonthDay` computes on the way.
module _ (j : ℕ) (from : 1721120 ≤ j) where
  abbrev a : ℕ
  a = j + 32044

  abbrev b : ℕ
  b = (4 * a + 3) / 146097

  abbrev c : ℕ
  c = a - (b * 146097) / 4

  abbrev d : ℕ
  d = (4 * c + 3) / 1461

  abbrev e : ℕ
  e = c - (1461 * d) / 4

  abbrev m : ℕ
  m = (5 * e + 2) / 153

  -- The day within a century, within a year and within a month.
  c_lem : (b * 146097) / 4 + c ≡ a
  c_lem = omega arith

  c_bound : c ≤ 36524
  c_bound = omega arith

  d_bound : d ≤ 99
  d_bound = omega (arith, c_bound)

  e_lem : (1461 * d) / 4 + e ≡ c
  e_lem = omega arith

  e_bound : e ≤ 365
  e_bound = omega arith

  m_bound : m ≤ 11
  m_bound = omega (arith, e_bound)

  year_bound : 4800 ≤ b * 100 + d
  year_bound = omega (arith, c_lem, c_bound, d_bound)

  month_start : (153 * m + 2) / 5 ≤ e
  month_start = omega arith

-- A day of the year that begins in March.
julian_parts :
    (y m e : ℕ)
    → m ≤ 11
    → 4800 ≤ y
    → (153 * m + 2) / 5 ≤ e
    → julian_day_of (y - 4800 + m / 10) (m + 3 - 12 * (m / 10)) (e - (153 * m + 2) / 5 + 1)
      ≡ e + 1 + y * 365 + y / 4 - y / 100 + y / 400 - 32045
unfolding julian_day_of
julian_parts y m e h k l =
    let start = (153 * m + 2) / 5 in
    let winter : (14 - (m + 3 - 12 * (m / 10))) / 12 ≡ m / 10 = omega arith in
    let same_year : y - 4800 + m / 10 + 4800 - m / 10 ≡ y = omega arith in
    let same_month : m + 3 - 12 * (m / 10) + 12 * (m / 10) - 3 ≡ m = omega arith in
    let same_day : e - start + 1 + start ≡ e + 1 = omega arith in
    rw (winter, same_year, same_month, same_day)

centuries :
    (j b c d e : ℕ)
    → d ≤ 99
    → (b * 146097) / 4 + c ≡ j + 32044
    → (1461 * d) / 4 + e ≡ c
    → e
        + 1
        + (b * 100 + d) * 365
        + (b * 100 + d) / 4
        - (b * 100 + d) / 100
        + (b * 100 + d) / 400
        - 32045
      ≡ j
centuries j b c d e h k l = omega arith

-- Every day from 0000-03-01 on is found again from its year, month and day.
pub julian_day_of-year_month_day_of :
    (j : ℕ)
    → 1721120 ≤ j
    → julian_day_of (year_month_day_of j).year (year_month_day_of j).month (year_month_day_of j).day
      ≡ j
unfolding year_month_day_of
julian_day_of-year_month_day_of j h =
    julian_parts (b j h * 100 + d j h) (m j h) (e j h) (m_bound j h) (year_bound j h)
      (month_start j h)
    ∙ centuries j (b j h) (c j h) (d j h) (e j h) (d_bound j h) (c_lem j h) (e_lem j h)

pub month_pos : (j : ℕ) → 1721120 ≤ j → 1 ≤ (year_month_day_of j).month
unfolding year_month_day_of
month_pos j h = positive (m j h) (m_bound j h)
  where
    positive : (m : ℕ) → m ≤ 11 → 1 ≤ m + 3 - 12 * (m / 10)
    positive m k = omega arith

-- Days whose computation fits an `int`.
abbrev pub last_day : ℕ
last_day = 536838867

pub to_year_month_day-ok : (j : ℕ) → j ≤ last_day → to_year_month_day j ≡ ok (year_month_day_of j)
unfolding to_year_month_day
to_year_month_day-ok j h =
    rw
      (
        lt→ltb (4 * (j + 32044) + 3) (2 ^ 31) (omega arith),
        lt→ltb ((4 * (j + 32044) + 3) / 146097 * 146097) (2 ^ 31) (omega arith),
      )
      refl

-- Dates of which the computation fits an `int`.
pub to_julian_day_number-ok :
    (year month day : ℕ)
    → year ≤ 1500000
    → month ≤ 12
    → day ≤ 31
    → to_julian_day_number year month day ≡ ok (julian_day_of year month day)
unfolding to_julian_day_number
to_julian_day_number-ok year month day h k l =
    rw
      (
        lt→ltb (year + 4800) (2 ^ 31) (omega arith),
        lt→ltb months (2 ^ 31) m_small,
        lt→ltb days (2 ^ 31) d_small,
      )
      refl
  where
    a : ℕ
    a = (14 - month) / 12

    y : ℕ
    y = year + 4800 - a

    months : ℕ
    months = 153 * (month + 12 * a - 3) + 2

    days : ℕ
    days = day + months / 5 + y * 365 + y / 4

    m_small : months < 2 ^ 31
    m_small = omega arith

    d_small : days < 2 ^ 31
    d_small = omega arith

-- The parts of a day whose computation fits an `int`.
pub year_month_day_of-bounds :
    (j : ℕ)
    → 1721120 ≤ j
    → j ≤ last_day
    → ((year_month_day_of j).year ≤ 1500000)
      × ((year_month_day_of j).month ≤ 12)
      × ((year_month_day_of j).day ≤ 31)
unfolding year_month_day_of
year_month_day_of-bounds j h k = (
  omega (arith, d_bound j h, m_bound j h),
  omega (arith, m_bound j h),
  days (m j h) (e j h) (m_bound j h) refl,
)
  where
    days : (m e : ℕ) → m ≤ 11 → m ≡ (5 * e + 2) / 153 → e - (153 * m + 2) / 5 + 1 ≤ 31
    days m e h p = omega arith

-- One day later `4 * a + 3` does not fit.
too_late : to_year_month_day (last_day + 1) ≡ fault out_of_range
unfolding to_year_month_day
too_late = refl
