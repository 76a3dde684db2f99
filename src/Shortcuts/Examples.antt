-- ===== src/Shortcuts/Examples.antt =====
-- The widgets' theorems at a concrete day, 5 November 2020, and zone, two hours ahead of UTC.
use bluetooth_autonomous_car.Prelude.{◌≡◌, refl, arith, false, List, [], ◌∷◌, none, some, pos, ◌+ℤ◌}
use bluetooth_autonomous_car.JsDate.{
  make_day, day_of_fields, day_from_year, day_within_year, leap_days, in_leap_year,
}
use bluetooth_autonomous_car.Text.{Text}
use bluetooth_autonomous_car.Core.{strptime, is_separator}
use bluetooth_autonomous_car.Core.Pieces.{day_month_year, format}
use bluetooth_autonomous_car.Calendar.{Locale}
use bluetooth_autonomous_car.Calendar.Navigation.{HasMonth}
use bluetooth_autonomous_car.Shortcuts.{
  Browser, at_hour, CalendarBox, add_calendar, add_clock, open_calendar, handle_calendar_callback,
  handle_calendar_quick_link,
}
use bluetooth_autonomous_car.Shortcuts.Boxes.{
  Event, open_link, pick, next, session, document_click, session-document_click,
}
use bluetooth_autonomous_car.Shortcuts.Clocks.{
  ClockEvent, clock_link, clock_session, add_clock-listening,
}
use bluetooth_autonomous_car.Shortcuts.Picked.{
  showing, open_calendar-handle_calendar_callback, strptime-handle_calendar_quick_link,
}
use bluetooth_autonomous_car.Shortcuts.Formats.{IsDay, day_fields}

abbrev english : Locale
english = record { gettext = λ s. s; pgettext = λ c s. s; first_day_of_week = 1 }

abbrev browser : Browser
browser = record {
  text = λ d t. [];
  locale_date = λ d. [];
  locale_time = λ t. [];
  week_day_of = λ d. 4;
  month_names = none;
}

abbrev events : List Event
events = open_link ∷ next ∷ pick (pos 2020) 11 5 ∷ []

abbrev slashes : Text
slashes = format day_month_year b'/' b'/'

session-document_click_example :
    ((document_click (
        session english browser slashes
          (day_fields 2020 10 5)
          events
          (add_calendar (day_fields 2020 10 5) []))).shown
      ≡ false)
    × HasMonth
        (session english browser slashes
          (day_fields 2020 10 5)
          events
          (add_calendar (day_fields 2020 10 5) [])).calendar
session-document_click_example =
    session-document_click english browser slashes [] (day_fields 2020 10 5) events (omega arith)

abbrev clock_events : List ClockEvent
clock_events = clock_link ∷ []

add_clock-listening_example :
    (clock_session browser [] clock_events (add_clock [])).shown
    ≡ (clock_session browser [] clock_events (add_clock [])).listening
add_clock-listening_example = add_clock-listening browser [] [] clock_events

fifth : IsDay 2020 10 5
unfolding day_within_year leap_days in_leap_year
fifth = record {
  four_digits = omega arith;
  at_most = omega arith;
  valid = record { month_in = omega arith; first = omega arith; last = omega arith };
}

abbrev widget : CalendarBox
widget = record {
  input = [];
  calendar = record { current_month = 1; current_year = pos 1999; selected_date = none };
  shown = false;
  listening = false;
}

open_calendar-handle_calendar_callback_example :
    ((handle_calendar_callback browser slashes (pos 2020) 11 5 widget).shown ≡ false)
    × ((open_calendar english
          (day_fields 2020 10 5)
          slashes
          (handle_calendar_callback browser slashes (pos 2020) 11 5 widget)).calendar
        ≡ showing 2020 10 5)
unfolding is_separator
open_calendar-handle_calendar_callback_example =
    open_calendar-handle_calendar_callback english (day_fields 2020 10 5) browser day_month_year
      b'/' b'/' 2020 10 5 widget refl refl fifth

strptime-handle_calendar_quick_link_example :
    strptime
      (handle_calendar_quick_link browser slashes
        (day_fields 2020 10 4)
        (at_hour 9)
        (pos 1)
        widget).input
      slashes
    ≡ some (day_fields 2020 10 5)
unfolding is_separator ◌+ℤ◌ make_day day_of_fields day_from_year day_within_year leap_days
    in_leap_year
strptime-handle_calendar_quick_link_example =
    strptime-handle_calendar_quick_link browser day_month_year b'/' b'/' (day_fields 2020 10 4)
      (at_hour 9) (pos 1) 2020 10 5 widget refl refl fifth refl
