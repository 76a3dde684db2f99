-- ===== src/Calendar/Examples.antt =====
-- The calendar's theorems at concrete months: February 2024, and clicks from it.
use bluetooth_autonomous_car.Prelude.{
  ℕ, ◌+◌, ◌-◌, ◌/◌, ◌%◌, ◌≡◌, refl, arith, List, [], ◌∷◌, ◌++◌, none, some, length, All, get_elem?,
  pos, ◌+ℤ◌, replicate,
}
use mathlib.Core.List.{flatten}
use bluetooth_autonomous_car.JsDate.{
  DateFields, make_full_year, day_within_year, leap_days, shifted_year,
}
use bluetooth_autonomous_car.Calendar.{
  Locale, Cell, is_leap_year, nonday, day_cell, draw_body, draw, Calendar, Click,
  previous_month_link, next_year_link, run, get_days_in_month, days_of_week, starting_pos,
}
use bluetooth_autonomous_car.Calendar.Months.{get_days_in_month-day_within_year}
use bluetooth_autonomous_car.Calendar.Layout.{draw_body_lem}
use bluetooth_autonomous_car.Calendar.Filling.{days_from, get_cell}
use bluetooth_autonomous_car.Calendar.Weekday.{draw_weekday, weekday_of, column_of}
use bluetooth_autonomous_car.Calendar.Navigation.{
  HasMonth, month_index, total_offset, month_index-run,
}

abbrev english : Locale
english = record { gettext = λ s. s; pgettext = λ c s. s; first_day_of_week = 1 }

abbrev leap_day : DateFields
leap_day = record { full_year = pos 2024; month = 1; date = 29 }

abbrev february : Calendar
february = record { current_month = 2; current_year = pos 2024; selected_date = some leap_day }

get_days_in_month_example :
    day_within_year (leap_days (shifted_year (pos 2024))) 1 + get_days_in_month 2 (pos 2024)
    ≡ day_within_year (leap_days (shifted_year (pos 2024))) 2
get_days_in_month_example =
    get_days_in_month-day_within_year 2 (pos 2024) (omega arith) (omega arith) (omega arith)

abbrev numbered : ℕ → Cell
numbered d = day_cell leap_day none 2 (pos 2024) d

draw_body_example :
    All (λ r. length r ≡ 7) (draw_body numbered 3 29)
    × (flatten (draw_body numbered 3 29)
        ≡ replicate 3 nonday
          ++ (days_from numbered 29 1 ++ replicate ((7 - (3 + 29) % 7) % 7) nonday))
draw_body_example = draw_body_lem numbered 3 29 (omega arith) (omega arith)

draw_weekday_example :
    (get_cell
        (draw english leap_day 2 (pos 2024) none).body
        ((starting_pos english 2 (pos 2024) + 29 - 1) / 7)
        (column_of english 2 (pos 2024) 29)
      ≡ some (day_cell leap_day none 2 (pos 2024) 29))
    × (get_elem?
          (draw english leap_day 2 (pos 2024) none).header
          (column_of english 2 (pos 2024) 29)
        ≡ some (get_elem? (days_of_week english) (weekday_of 2 (pos 2024) 29)))
unfolding make_full_year get_days_in_month is_leap_year
draw_weekday_example =
    draw_weekday english leap_day 2 (pos 2024) none 29 (omega arith) refl (omega arith)
      (omega arith) (omega arith)

abbrev clicks : List Click
clicks = previous_month_link ∷ previous_month_link ∷ next_year_link ∷ []

month_index-run_example :
    HasMonth (run english leap_day clicks february)
    × (month_index (run english leap_day clicks february)
        ≡ month_index february +ℤ total_offset clicks)
    × ((run english leap_day clicks february).selected_date ≡ some leap_day)
month_index-run_example =
    month_index-run english leap_day clicks february (omega arith, omega arith)
