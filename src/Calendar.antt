-- ===== src/Calendar.antt =====
-- static/admin/js/calendar.js: the helpers of `CalendarNamespace`, the table that `draw` builds,
-- and the `Calendar` object. `gettext`, `pgettext` and `get_format` come from the page (Django's
-- catalogue) and are the fields of `Locale`. A drawn table is a value: its cells in their rows,
-- each day's classes, and the arguments that a click passes to the callback.
pub mod Examples
pub mod Months
pub mod Filling
pub mod Layout
pub mod Weekday
pub mod Navigation
use Prim.Native.String.{String}
use bluetooth_autonomous_car.Prelude.{
  ℕ, zero, suc, ◌+◌, ◌-◌, ◌%◌, Bool, true, false, not, ◌&&◌, ◌||◌, List, [], ◌∷◌, ◌++◌, Option,
  none, some, ◌==◌, ltb, if◌then◌else◌, length, get_elem?, replicate, ℤ, pos, negsuc, abs_ℕ, sub_ℕ,
  ◌+ℤ◌, ◌-ℤ◌, map,
}
use bluetooth_autonomous_car.JsDate.{shifted_year, make_day, week_day, make_full_year, DateFields}

pub record Locale : Type 0 where
  pub gettext : String → String
  pub pgettext : String → String → String
  pub first_day_of_week : ℕ

pub months_of_year : Locale → List String
months_of_year l = map l.gettext (
    "January" ∷ "February" ∷ "March" ∷ "April" ∷ "May" ∷ "June" ∷ "July" ∷ "August" ∷ "September"
    ∷ "October" ∷ "November" ∷ "December" ∷ [])

pub days_of_week : Locale → List String
days_of_week l =
    l.pgettext "one letter Sunday" "S"
    ∷ l.pgettext "one letter Monday" "M"
    ∷ l.pgettext "one letter Tuesday" "T"
    ∷ l.pgettext "one letter Wednesday" "W"
    ∷ l.pgettext "one letter Thursday" "T"
    ∷ l.pgettext "one letter Friday" "F"
    ∷ l.pgettext "one letter Saturday" "S"
    ∷ []

-- JavaScript's `%` keeps the sign of its left side, so it is 0 just when that of the size is.
pub is_leap_year : ℤ → Bool
is_leap_year year = (abs_ℕ year % 4 == 0) && not (abs_ℕ year % 100 == 0) || (abs_ℕ year % 400 == 0)

pub get_days_in_month : ℕ → ℤ → ℕ
get_days_in_month month year =
    if (month == 1)
      || (month == 3)
      || (month == 5)
      || (month == 7)
      || (month == 8)
      || (month == 10)
      || (month == 12)
    then 31
    else if (month == 4) || (month == 6) || (month == 9) || (month == 11)
    then 30
    else if (month == 2) && is_leap_year year
    then 29
    else 28

-- The class attribute of a day's cell.
pub data CellClass : Type 0 where
  no_class today selected today_selected : CellClass

-- A cell: blank, or a day whose link calls the callback with a year, a month and that day.
pub data Cell : Type 0 where
  nonday : Cell
  day : ℕ → CellClass → ℤ → ℕ → Cell

abbrev pub Row : Type 0
Row = List Cell

same_ℤ : ℤ → ℤ → Bool
same_ℤ (pos a) (pos b) = a == b
same_ℤ (negsuc a) (negsuc b) = a == b
same_ℤ _ _ = false

-- The two tests of the day loop: is this day today, and is it the selected one?
pub is_today : DateFields → ℕ → ℤ → ℕ → Bool
unfolding same_ℤ
is_today now month year current_day =
    (current_day == now.date) && (month == now.month + 1) && same_ℤ year now.full_year

pub is_selected : Option DateFields → ℕ → ℤ → ℕ → Bool
unfolding same_ℤ
is_selected none month year current_day = false
is_selected (some chosen) month year current_day =
    (same_ℤ chosen.full_year year && (chosen.month + 1 == month)) && (current_day == chosen.date)

pub day_class : Bool → Bool → CellClass
day_class true true = today_selected
day_class true false = today
day_class false true = selected
day_class false false = no_class

pub day_cell : DateFields → Option DateFields → ℕ → ℤ → ℕ → Cell
day_cell now chosen month year current_day =
    day current_day
      (day_class (is_today now month year current_day) (is_selected chosen month year current_day))
      year month

-- `new Date(year, month - 1, 1 - firstDayOfWeek).getDay()`.
pub starting_pos : Locale → ℕ → ℤ → ℕ
starting_pos l month year =
    week_day (make_day (shifted_year (make_full_year year)) (month - 1) 1 - l.first_day_of_week)

-- The rows that are closed, and the row that cells are being added to.
pub record Grid : Type 0 where
  pub rows : List Row
  pub table_row : Row

-- One round of the day loop. A row is opened where the position is a multiple of 7, but for the
-- first day.
pub add_day : Cell → ℕ → ℕ → Grid → Grid
add_day cell i current_day g =
    if (i % 7 == 0) && not (current_day == 1)
    then record { rows = g.rows ++ (g.table_row ∷ []); table_row = cell ∷ [] }
    else record g { table_row = g.table_row ++ (cell ∷ []) }

-- The loop over the days, with `left` rounds to go.
pub draw_days : (ℕ → Cell) → ℕ → ℕ → ℕ → Grid → Grid
unfolding add_day
draw_days cell zero i current_day g = g
draw_days cell (suc left) i current_day g =
    draw_days cell left (i + 1) (current_day + 1) (add_day (cell current_day) i current_day g)

-- The blanks before the first day, the days, and the blanks up to the end of the last row.
pub draw_body : (ℕ → Cell) → ℕ → ℕ → List Row
unfolding draw_days
draw_body cell start days =
    let g =
      draw_days cell days start 1 (record { rows = []; table_row = replicate start nonday }) in
    g.rows ++ ((g.table_row ++ replicate (7 - length g.table_row) nonday) ∷ [])

pub record Table : Type 0 where
  pub caption_month : Option String
  pub caption_year : ℤ
  pub header : List (Option String)
  pub body : List Row

header_cells : Locale → ℕ → ℕ → List (Option String)
header_cells l zero i = []
header_cells l (suc left) i =
    get_elem? (days_of_week l) ((i + l.first_day_of_week) % 7) ∷ header_cells l left (i + 1)

-- `now` is `new Date()`, read when the table is drawn.
pub draw : Locale → DateFields → ℕ → ℤ → Option DateFields → Table
unfolding header_cells
draw l now month year chosen = record {
  caption_month = get_elem? (months_of_year l) (month - 1);
  caption_year = year;
  header = header_cells l 7 0;
  body =
      draw_body (day_cell now chosen month year) (starting_pos l month year)
        (get_days_in_month month year);
}

-- The instance. Its element and its callback do not change; what it draws is the second result.
pub record Calendar : Type 0 where
  pub current_month : ℕ
  pub current_year : ℤ
  pub selected_date : Option DateFields

unfoldable pub new_calendar : DateFields → Option DateFields → Calendar
new_calendar now chosen = record {
  current_month = now.month + 1;
  current_year = now.full_year;
  selected_date = chosen;
}

unfoldable pub draw_current : Locale → DateFields → Calendar → Calendar × Table
draw_current l now c = (c, draw l now c.current_month c.current_year c.selected_date)

-- `if (selected)`: without one the old selection stays.
unfoldable pub draw_date :
    Locale → DateFields → ℕ → ℤ → Option DateFields → Calendar → Calendar × Table
draw_date l now month year none c =
    draw_current l now (record c { current_month = month; current_year = year })
draw_date l now month year (some chosen) c =
    draw_current l now
      (record { current_month = month; current_year = year; selected_date = some chosen })

previous_month : Calendar → Calendar
previous_month c =
    if c.current_month == 1
    then record c { current_month = 12; current_year = c.current_year -ℤ pos 1 }
    else record c { current_month = c.current_month - 1 }

next_month : Calendar → Calendar
next_month c =
    if c.current_month == 12
    then record c { current_month = 1; current_year = c.current_year +ℤ pos 1 }
    else record c { current_month = c.current_month + 1 }

unfoldable pub draw_previous_month : Locale → DateFields → Calendar → Calendar × Table
unfolding previous_month draw_current
draw_previous_month l now c = draw_current l now (previous_month c)

unfoldable pub draw_next_month : Locale → DateFields → Calendar → Calendar × Table
unfolding next_month draw_current
draw_next_month l now c = draw_current l now (next_month c)

pub draw_previous_year : Locale → DateFields → Calendar → Calendar × Table
unfolding draw_current
draw_previous_year l now c =
    draw_current l now (record c { current_year = c.current_year -ℤ pos 1 })

pub draw_next_year : Locale → DateFields → Calendar → Calendar × Table
unfolding draw_current
draw_next_year l now c = draw_current l now (record c { current_year = c.current_year +ℤ pos 1 })

-- The four links of the calendar's navigation, and a session of clicks on them.
pub data Click : Type 0 where
  previous_month_link next_month_link previous_year_link next_year_link : Click

unfoldable pub click : Locale → DateFields → Click → Calendar → Calendar × Table
unfolding draw_previous_month draw_next_month draw_previous_year draw_next_year
click l now previous_month_link c = draw_previous_month l now c
click l now next_month_link c = draw_next_month l now c
click l now previous_year_link c = draw_previous_year l now c
click l now next_year_link c = draw_next_year l now c

pub run : Locale → DateFields → List Click → Calendar → Calendar
run l now [] c = c
run l now (k ∷ ks) c = run l now ks (click l now k c).0
