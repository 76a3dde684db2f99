-- ===== src/JsDate.antt =====
-- JavaScript's `Date`, as far as the admin scripts use it: days counted from 1 January of the
-- year -400000 (a whole number of 400-year cycles before year 0, so no day number is negative),
-- the weekday, and the calendar day of a day number. Years beyond the range of `Date` are not cut
-- off. It is the language's library, so no definition here maps to a file of the repository.
pub mod Years
pub mod Civil
use bluetooth_autonomous_car.Prelude.{
  ℕ, zero, suc, ◌+◌, ◌-◌, ◌*◌, ◌/◌, ◌%◌, Bool, not, ◌&&◌, ◌||◌, ltb, ◌==◌, if◌then◌else◌, ℤ, pos,
  negsuc, pos_part, ◌+ℤ◌, ◌-ℤ◌,
}

abbrev pub epoch_shift : ℕ
epoch_shift = 400000

-- The year counted from -400000.
abbrev pub shifted_year : ℤ → ℕ
shifted_year y = pos_part (y +ℤ pos epoch_shift)

abbrev pub unshifted_year : ℕ → ℤ
unshifted_year y = pos y -ℤ pos epoch_shift

-- InLeapYear of the language's specification; the shift is a multiple of 400.
unfoldable pub in_leap_year : ℕ → Bool
in_leap_year y = (y % 4 == 0) && not (y % 100 == 0) || (y % 400 == 0)

unfoldable pub days_in_year : ℕ → ℕ
days_in_year y = if in_leap_year y then 366 else 365

-- DayFromYear: the days before 1 January of a year.
unfoldable pub day_from_year : ℕ → ℕ
day_from_year y = 365 * y + (y + 3) / 4 - (y + 99) / 100 + (y + 399) / 400

-- The days before the first of a month, `month` from 0, `leap` the leap day or 0.
unfoldable pub day_within_year : ℕ → ℕ → ℕ
day_within_year leap month =
    if month == 0
    then 0
    else if month == 1
    then 31
    else if month == 2
    then 59 + leap
    else if month == 3
    then 90 + leap
    else if month == 4
    then 120 + leap
    else if month == 5
    then 151 + leap
    else if month == 6
    then 181 + leap
    else if month == 7
    then 212 + leap
    else if month == 8
    then 243 + leap
    else if month == 9
    then 273 + leap
    else if month == 10
    then 304 + leap
    else if month == 11
    then 334 + leap
    else 365 + leap

unfoldable pub leap_days : ℕ → ℕ
leap_days y = if in_leap_year y then 1 else 0

-- MakeDay: months from 12 on carry into the year, and any day is counted on from the first.
unfoldable pub make_day : ℕ → ℕ → ℕ → ℕ
make_day y month date =
    let year = y + month / 12 in
    day_from_year year + day_within_year (leap_days year) (month % 12) + date - 1

-- WeekDay: 0 is Sunday.
unfoldable pub week_day : ℕ → ℕ
week_day day = (day + 6) % 7

pub record CivilDay : Type 0 where
  pub year : ℕ
  pub month : ℕ
  pub date : ℕ

abbrev pub civil : ℕ → ℕ → ℕ → CivilDay
civil y m d = record { year = y; month = m; date = d }

-- YearFromTime, within a cycle of 400 years: the year and the days of it that are over.
unfoldable pub find_year : ℕ → ℕ → ℕ → ℕ × ℕ
find_year zero y left = (y, left)
find_year (suc fuel) y left =
    let later = find_year fuel (y + 1) (left - days_in_year y) in
    if ltb left (days_in_year y) then (y, left) else later

-- MonthFromTime and DateFromTime.
unfoldable pub find_month : ℕ → ℕ → ℕ → ℕ → CivilDay
find_month zero y month left = civil y month (left - day_within_year (leap_days y) month + 1)
find_month (suc fuel) y month left =
    let later = find_month fuel y (month + 1) left in
    if ltb left (day_within_year (leap_days y) (month + 1))
    then civil y month (left - day_within_year (leap_days y) month + 1)
    else later

unfoldable pub year_of_day : ℕ → ℕ × ℕ
year_of_day day = find_year 400 (400 * (day / 146097)) (day % 146097)

unfoldable pub civil_of_day : ℕ → CivilDay
civil_of_day day = let (y, left) = year_of_day day in find_month 11 y 0 left

-- MakeFullYear, the rule of the `Date` constructor and of `Date.UTC`: 0 to 99 are 1900 to 1999.
unfoldable pub make_full_year : ℤ → ℤ
make_full_year (pos n) = if ltb n 100 then pos (1900 + n) else pos n
make_full_year (negsuc n) = negsuc n

-- What a script reads of a `Date`: the year, the month from 0, and the day of the month.
pub record DateFields : Type 0 where
  pub full_year : ℤ
  pub month : ℕ
  pub date : ℕ

-- The day number that the fields of a date name.
unfoldable pub day_of_fields : DateFields → ℕ
day_of_fields d = make_day (shifted_year d.full_year) d.month d.date
