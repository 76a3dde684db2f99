-- ===== src/Calendar/Weekday.antt =====
-- The columns of the drawn month against the weekdays of `Date`.
use bluetooth_autonomous_car.Prelude.{
  ℕ, zero, suc, ◌+◌, ◌-◌, ◌/◌, ◌%◌, ◌≤◌, ◌<◌, ◌≡◌, ap, ◌∙◌, arith, Option, some, get_elem?, ℤ, pos,
  ◌+ℤ◌,
}
use bluetooth_autonomous_car.JsDate.{
  shifted_year, make_day, week_day, make_full_year, DateFields, day_from_year, leap_days,
  in_leap_year,
}
use bluetooth_autonomous_car.Calendar.{
  Locale, days_of_week, get_days_in_month, day_cell, starting_pos, header_cells, draw,
}
use bluetooth_autonomous_car.Calendar.Months.{InRange}
use bluetooth_autonomous_car.Calendar.Layout.{get_cell-draw_body}
use bluetooth_autonomous_car.Calendar.Filling.{get_cell}

-- The weekday of a day of a month, `month` from 1.
abbrev pub weekday_of : ℕ → ℤ → ℕ → ℕ
weekday_of month year d = week_day (make_day (shifted_year year) (month - 1) d)

-- The column of a day in the table.
abbrev pub column_of : Locale → ℕ → ℤ → ℕ → ℕ
column_of l month year d = (starting_pos l month year + d - 1) % 7

starting_pos-le : (l : Locale) (month : ℕ) (year : ℤ) → starting_pos l month year ≤ 6
unfolding starting_pos week_day
starting_pos-le l month year = omega arith

make_day-ge : (y m : ℕ) → 1 ≤ y → 365 ≤ make_day y m 1
unfolding make_day day_from_year
make_day-ge y m h = omega arith

make_day-add : (y m d : ℕ) → 1 ≤ d → make_day y m d ≡ make_day y m 1 + (d - 1)
unfolding make_day
make_day-add y m d h = omega arith

shifted_year-pos : (y : ℤ) → InRange y → 1 ≤ shifted_year y
unfolding ◌+ℤ◌
shifted_year-pos y h = ground arith

get_elem?-header_cells :
    (l : Locale) (left i c : ℕ)
    → c < left
    → get_elem? (header_cells l left i) c
      ≡ some (get_elem? (days_of_week l) ((i + c + l.first_day_of_week) % 7))
unfolding header_cells
get_elem?-header_cells l zero i c h = absurd (omega arith)
get_elem?-header_cells l (suc left) i zero h =
    ap (λ n. some (get_elem? (days_of_week l) ((n + l.first_day_of_week) % 7))) (omega arith)
get_elem?-header_cells l (suc left) i (suc c) h =
    get_elem?-header_cells l left (i + 1) c (omega arith)
    ∙ ap (λ n. some (get_elem? (days_of_week l) ((n + l.first_day_of_week) % 7))) (omega arith)

-- The label over a day's column is that of its weekday, for a year that `Date` does not rewrite.
column_of-weekday_of :
    (l : Locale) (month : ℕ) (year : ℤ) (d : ℕ)
    → InRange year
    → make_full_year year ≡ year
    → l.first_day_of_week ≤ 6
    → 1 ≤ d
    → (column_of l month year d + l.first_day_of_week) % 7 ≡ weekday_of month year d
unfolding starting_pos week_day
column_of-weekday_of l month year d h full fd lo = rw full (
    omega (
      arith,
      make_day-add (shifted_year year) (month - 1) d lo,
      make_day-ge (shifted_year year) (month - 1) (shifted_year-pos year h),
    ))

-- For a first day of the week from 0 to 6 and a year that the model of `Date` counts and `Date`
-- does not rewrite (so not 0 to 99), the cell of each day of the month stands in the drawn table in
-- the column whose label is that of the day's weekday.
pub draw_weekday :
    (l : Locale) (now : DateFields) (month : ℕ) (year : ℤ) (chosen : Option DateFields) (d : ℕ)
    → InRange year
    → make_full_year year ≡ year
    → l.first_day_of_week ≤ 6
    → 1 ≤ d
    → d ≤ get_days_in_month month year
    → (get_cell
          (draw l now month year chosen).body
          ((starting_pos l month year + d - 1) / 7)
          (column_of l month year d)
        ≡ some (day_cell now chosen month year d))
      × (get_elem? (draw l now month year chosen).header (column_of l month year d)
          ≡ some (get_elem? (days_of_week l) (weekday_of month year d)))
unfolding draw
draw_weekday l now month year chosen d h full fd lo hi = (
  get_cell-draw_body _ _ _ (starting_pos-le l month year) d lo hi,
  get_elem?-header_cells l 7 0 (column_of l month year d) (omega arith)
      ∙ ap (λ n. some (get_elem? (days_of_week l) n))
          (omega (arith, column_of-weekday_of l month year d h full fd lo)),
)

-- 1900 years on, from the years 1 to 99: the same months, and one weekday later.
century-leap_days : (y : ℕ) → 1 ≤ y → y < 100 → leap_days (401900 + y) ≡ leap_days (400000 + y)
unfolding leap_days in_leap_year
century-leap_days y lo hi = ground arith

century-day_from_year :
    (y : ℕ) → 1 ≤ y → y < 100 → day_from_year (401900 + y) ≡ day_from_year (400000 + y) + 693960
unfolding day_from_year
century-day_from_year y lo hi = omega arith

century-make_day :
    (y month : ℕ)
    → 1 ≤ y
    → y < 100
    → month < 12
    → make_day (401900 + y) month 1 ≡ make_day (400000 + y) month 1 + 693960
unfolding make_day
century-make_day y month lo hi m =
    rw
      (
        whole (401900 + y),
        whole (400000 + y),
        century-leap_days y lo hi,
        century-day_from_year y lo hi,
      )
      (omega arith)
  where
    whole : (n : ℕ) → n + month / 12 ≡ n
    whole n = omega arith

shifted_year-make_full_year : (y : ℕ) → y < 100 → shifted_year (make_full_year (pos y)) ≡ 401900 + y
unfolding make_full_year ◌+ℤ◌
shifted_year-make_full_year y h = ground arith

shifted_year_lem : (y : ℕ) → shifted_year (pos y) ≡ 400000 + y
unfolding ◌+ℤ◌
shifted_year_lem y = ground arith

-- For a first day of the week from 0 to 6, the first of every month of the years 1 to 99 stands under
-- the label of the next weekday: `new Date` reads these years as 1901 to 1999.
pub starting_pos_two_digit :
    (l : Locale) (month year : ℕ)
    → 1 ≤ year
    → year < 100
    → 1 ≤ month
    → month ≤ 12
    → l.first_day_of_week ≤ 6
    → (column_of l month (pos year) 1 + l.first_day_of_week) % 7
      ≡ (weekday_of month (pos year) 1 + 1) % 7
unfolding starting_pos week_day
starting_pos_two_digit l month year lo hi mlo mhi fd =
    rw
      (
        shifted_year-make_full_year year hi,
        shifted_year_lem year,
        century-make_day year (month - 1) lo hi (omega arith),
      )
      (omega (arith, make_day-ge (400000 + year) (month - 1) (omega arith)))
