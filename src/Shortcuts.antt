-- ===== src/Shortcuts.antt =====
-- static/admin/js/admin/DateTimeShortcuts.js: the clock and the calendar beside a field. A widget is
-- the record of its field's value, of its box and of the document's listener that dismisses it; the
-- places of the boxes on the page and the focus are left out. `get_format` comes from the page, so
-- the formats are arguments, and so is the time that `new Date()` reads.
pub mod Offsets
pub mod Boxes
pub mod Clocks
pub mod Formats
pub mod Picked
pub mod Setup
pub mod Examples
use bluetooth_autonomous_car.Prelude.{
  ℕ, zero, suc, ◌+◌, ◌-◌, ◌*◌, Bool, true, false, ◌&&◌, List, [], ◌∷◌, ◌++◌, Option, none, some,
  ◌==◌, leb, ltb, if◌then◌else◌, ℤ, pos, negsuc, pos_part, neg_part, sub_ℕ, ◌+ℤ◌, ◌-ℤ◌,
}
use bluetooth_autonomous_car.JsDate.{
  DateFields, civil_of_day, make_day, make_full_year, shifted_year, unshifted_year, day_of_fields,
}
use bluetooth_autonomous_car.Text.{Text, is_digit}
use bluetooth_autonomous_car.Core.{Moment, strftime, strptime, year_text}
use bluetooth_autonomous_car.Calendar.{
  Locale, Calendar, new_calendar, draw_date, draw_previous_month, draw_next_month,
}

abbrev pub scale : ℕ → ℤ → ℤ
scale k z = sub_ℕ (k * pos_part z) (k * neg_part z)

-- The seconds that local time is ahead of UTC, from `getTimezoneOffset`, in minutes behind.
pub local_offset : ℤ → ℤ
local_offset minutes = pos 0 -ℤ scale 60 minutes

-- `now`, in milliseconds: the time is moved, so that the local getters read the server's clock.
-- There is no `data-admin-utc-offset` where `server_offset` is `none`.
pub now : Option ℤ → ℤ → ℤ → ℤ
unfolding local_offset
now none minutes time = time
now (some server_offset) minutes time = time +ℤ scale 1000 (server_offset -ℤ local_offset minutes)

-- `timezoneOffset`, in seconds.
pub timezone_offset : Option ℤ → ℤ → ℤ
unfolding local_offset
timezone_offset none minutes = pos 0
timezone_offset (some server_offset) minutes = local_offset minutes -ℤ server_offset

-- The warning beside a field. (The script divides the seconds into hours.)
pub data Warning : Type 0 where
  ahead behind : ℕ → Warning

pub timezone_warning : ℤ → Bool → Option Warning
timezone_warning (pos zero) present = none
timezone_warning (pos (suc n)) present = if present then none else some (ahead (suc n))
timezone_warning (negsuc n) present = if present then none else some (behind (suc n))

pub record Time : Type 0 where
  pub hours : ℕ
  pub minutes : ℕ
  pub seconds : ℕ

abbrev pub at_hour : ℕ → Time
at_hour h = record { hours = h; minutes = 0; seconds = 0 }

-- What the browser writes of a date in its own ways, and its month names.
pub record Browser : Type 0 where
  pub text : DateFields → Time → Text
  pub locale_date : DateFields → Text
  pub locale_time : Time → Text
  pub week_day_of : DateFields → ℕ
  pub month_names : Option (List Text)

-- A date at a time of day.
pub moment : Browser → DateFields → Time → Moment
moment b d time = record {
  full_year = d.full_year;
  month = d.month;
  date = d.date;
  hours = time.hours;
  minutes = time.minutes;
  seconds = time.seconds;
  day = b.week_day_of d;
  text = b.text d time;
  locale_date = b.locale_date d;
  locale_time = b.locale_time time;
  month_names = b.month_names;
}

-- The fields of the day with a number.
pub fields_of : ℕ → DateFields
fields_of day =
    let c = civil_of_day day in
    record { full_year = unshifted_year c.year; month = c.month; date = c.date }

pub record Clock : Type 0 where
  pub input : Text
  pub shown : Bool
  pub listening : Bool

pub add_clock : Text → Clock
add_clock value = record { input = value; shown = false; listening = false }

pub open_clock : Clock → Clock
open_clock c = record c { shown = true; listening = true }

pub dismiss_clock : Clock → Clock
dismiss_clock c = record c { shown = false; listening = false }

-- `none` for the value -1: the present moment is written.
pub handle_clock_quicklink : Browser → Text → Moment → Option ℕ → Clock → Clock
unfolding moment dismiss_clock
handle_clock_quicklink b format present none c =
    dismiss_clock (record c { input = strftime present format })
handle_clock_quicklink b format present (some val) c = dismiss_clock (record c {
  input =
      strftime (moment b (record { full_year = pos 1970; month = 1; date = 1 }) (at_hour val))
        format;
})

pub record CalendarBox : Type 0 where
  pub input : Text
  pub calendar : Calendar
  pub shown : Bool
  pub listening : Bool

pub add_calendar : DateFields → Text → CalendarBox
add_calendar now value = record {
  input = value;
  calendar = new_calendar now none;
  shown = false;
  listening = false;
}

-- `/\d{4}/`: four digits in a row, after `run` of them.
pub has_four_digits : ℕ → Text → Bool
has_four_digits run [] = run == 4
has_four_digits run (c ∷ s) =
    let later = has_four_digits (run + 1) s in
    let afresh = has_four_digits 0 s in
    if run == 4 then true else if is_digit c then later else afresh

-- The calendar goes to the field's date, if it is valid and its year has four digits.
pub go_to_date : Locale → DateFields → Option DateFields → Calendar → Calendar
unfolding has_four_digits
go_to_date l now none c = c
go_to_date l now (some d) c =
    if has_four_digits 0 (year_text d.full_year) && (leb 1 (d.month + 1) && leb (d.month + 1) 12)
    then (draw_date l now (d.month + 1) d.full_year (some d) c).0
    else c

pub go_to_input : Locale → DateFields → Text → Text → Calendar → Calendar
unfolding go_to_date
go_to_input l now format [] c = c
go_to_input l now format (a ∷ value) c = go_to_date l now (strptime (a ∷ value) format) c

pub open_calendar : Locale → DateFields → Text → CalendarBox → CalendarBox
unfolding go_to_input
open_calendar l now format w = record w {
  calendar = go_to_input l now format w.input w.calendar;
  shown = true;
  listening = true;
}

pub dismiss_calendar : CalendarBox → CalendarBox
dismiss_calendar w = record w { shown = false; listening = false }

pub draw_prev : Locale → DateFields → CalendarBox → CalendarBox
draw_prev l now w = record w { calendar = (draw_previous_month l now w.calendar).0 }

pub draw_next : Locale → DateFields → CalendarBox → CalendarBox
draw_next l now w = record w { calendar = (draw_next_month l now w.calendar).0 }

-- `replace` with a string: the first occurrence of a character, by two.
pub replace_first : ℕ → ℕ → Text → Text
replace_first c d [] = []
replace_first c d (a ∷ s) = if a == c then b'\\' ∷ d ∷ s else a ∷ replace_first c d s

pub escape_format : Text → Text
unfolding replace_first
escape_format format = replace_first b'\'' b'\'' (
    replace_first b'\t' b't'
      (replace_first b'\n' b'n' (replace_first b'\r' b'r' (replace_first b'\\' b'\\' format))))

-- A click on a day of the calendar: the box is hidden, and the listener stays.
pub handle_calendar_callback : Browser → Text → ℤ → ℕ → ℕ → CalendarBox → CalendarBox
unfolding escape_format moment fields_of
handle_calendar_callback b format y m d w =
    let picked = fields_of (make_day (shifted_year (make_full_year y)) (m - 1) d) in
    record w {
      input = strftime (moment b picked (at_hour 0)) (escape_format format);
      shown = false;
    }

-- The links to yesterday, today and tomorrow: the time of day is kept.
pub handle_calendar_quick_link : Browser → Text → DateFields → Time → ℤ → CalendarBox → CalendarBox
unfolding moment fields_of dismiss_calendar
handle_calendar_quick_link b format now time offset w =
    let d = fields_of (pos_part (pos (day_of_fields now) +ℤ offset)) in
    dismiss_calendar (record w { input = strftime (moment b d time) format })
