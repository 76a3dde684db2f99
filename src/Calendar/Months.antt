-- ===== src/Calendar/Months.antt =====
-- `isLeapYear` and `getDaysInMonth` against the calendar of `Date`.
use bluetooth_autonomous_car.Prelude.{
  ℕ, ◌+◌, ◌-◌, ◌≤◌, ◌<◌, ◌≡◌, arith, ℤ, pos, negsuc, neg_part, ◌+ℤ◌,
}
use bluetooth_autonomous_car.JsDate.{
  epoch_shift, shifted_year, in_leap_year, leap_days, day_within_year,
}
use bluetooth_autonomous_car.Calendar.{is_leap_year, get_days_in_month}

-- The years that the model of `Date` counts.
abbrev pub InRange : ℤ → Type 0
InRange y = neg_part y < epoch_shift

-- The script's leap-year test is the language's.
pub is_leap_year-in_leap_year : (y : ℤ) → InRange y → is_leap_year y ≡ in_leap_year (shifted_year y)
unfolding is_leap_year in_leap_year ◌+ℤ◌
is_leap_year-in_leap_year (pos n) h = ground arith
is_leap_year-in_leap_year (negsuc n) h = ground arith

-- For the months 1 to 12 and a year that the model of `Date` counts, the table of month lengths is
-- the one that `Date` goes by: the days before a month and those of it are the days before the next.
pub get_days_in_month-day_within_year :
    (month : ℕ) (y : ℤ)
    → 1 ≤ month
    → month ≤ 12
    → InRange y
    → day_within_year (leap_days (shifted_year y)) (month - 1) + get_days_in_month month y
      ≡ day_within_year (leap_days (shifted_year y)) month
unfolding get_days_in_month day_within_year leap_days
get_days_in_month-day_within_year month y lo hi h = ground (arith, is_leap_year-in_leap_year y h)
