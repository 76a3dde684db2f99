-- ===== src/Shortcuts/Picked.antt =====
-- A date that a click or a link writes into the field, read back from it.
use mathlib.Core.List.{nil≢cons}
use bluetooth_autonomous_car.Prelude.{
  ℕ, ◌+◌, ◌-◌, ◌<◌, ◌≡◌, ◌≢◌, refl, ap, ap₂, sym, ◌∙◌, arith, true, false, ◌&&◌, [], ◌∷◌, ◌++◌,
  some, leb, ℤ, pos, pos_part, ◌+ℤ◌,
}
use bluetooth_autonomous_car.JsDate.{
  DateFields, make_day, make_full_year, shifted_year, day_of_fields,
}
use bluetooth_autonomous_car.Text.{Text}
use bluetooth_autonomous_car.Core.{Moment, strftime, strptime, year_text, is_separator}
use bluetooth_autonomous_car.Core.RoundTrip.{strptime-strftime}
use bluetooth_autonomous_car.Core.Pieces.{
  Order, day_month_year, day_year_month, month_day_year, month_year_day, year_month_day,
  year_day_month, three, format, shown, strftime-three,
}
use bluetooth_autonomous_car.Calendar.{Locale, Calendar, draw_date, draw_current}
use bluetooth_autonomous_car.Shortcuts.{
  Browser, Time, at_hour, moment, fields_of, CalendarBox, go_to_date, go_to_input, open_calendar,
  escape_format, handle_calendar_callback, handle_calendar_quick_link,
}
use bluetooth_autonomous_car.Shortcuts.Formats.{
  IsDay, day_fields, shifted_pos, kept_pos, fields_of-make_day, moment-HasDate,
  escape_format-format, has_four_digits-dec,
}

not_nil : (s : Text) (c : ℕ) (t : Text) → s ++ (c ∷ t) ≢ []
not_nil [] c t e = nil≢cons (sym e)
not_nil (a ∷ s) c t e = nil≢cons (sym e)

strftime-some :
    (o : Order) (s s' : ℕ) (t : Moment)
    → is_separator s ≡ true
    → is_separator s' ≡ true
    → strftime t (format o s s') ≢ []
strftime-some o s s' t e e' = of_order o
  where
    three_some : (a b c : ℕ) → strftime t (three a s b s' c) ≢ []
    three_some a b c q = not_nil (shown t a) s _ (sym (strftime-three t a b c s s' e e') ∙ q)

    of_order : (o : Order) → strftime t (format o s s') ≢ []
    of_order day_month_year = three_some b'd' b'm' b'Y'
    of_order day_year_month = three_some b'd' b'Y' b'm'
    of_order month_day_year = three_some b'm' b'd' b'Y'
    of_order month_year_day = three_some b'm' b'Y' b'd'
    of_order year_month_day = three_some b'Y' b'm' b'd'
    of_order year_day_month = three_some b'Y' b'd' b'm'

go_to_input-some :
    (l : Locale) (now : DateFields) (format value : Text) (c : Calendar)
    → value ≢ []
    → go_to_input l now format value c ≡ go_to_date l now (strptime value format) c
unfolding go_to_input
go_to_input-some l now format [] c h = absurd (h refl)
go_to_input-some l now format (a ∷ value) c h = refl

-- The calendar at a day's month, with the day selected.
abbrev pub showing : ℕ → ℕ → ℕ → Calendar
showing y m d = record {
  current_month = m + 1;
  current_year = pos y;
  selected_date = some (day_fields y m d);
}

go_to_date-day :
    (l : Locale) (now : DateFields) (y m d : ℕ) (c : Calendar)
    → IsDay y m d
    → go_to_date l now (some (day_fields y m d)) c ≡ showing y m d
unfolding go_to_date draw_date draw_current year_text
go_to_date-day l now y m d c h =
    rw (has_four_digits-dec y h.four_digits h.at_most, month_in_range m h.valid.month_in) refl
  where
    month_in_range : (m : ℕ) → m < 12 → (leb 1 (m + 1) && leb (m + 1) 12) ≡ true
    month_in_range m h = ground arith

-- A click on a day of a year of four digits writes the day into the field, in any of the six orders of
-- `%d`, `%m` and `%Y` with any two of the separators, and hides the box; opened again, the calendar
-- shows the day's month with that day selected.
pub open_calendar-handle_calendar_callback :
    (l : Locale) (now : DateFields) (b : Browser) (o : Order) (s s' y m d : ℕ) (w : CalendarBox)
    → is_separator s ≡ true
    → is_separator s' ≡ true
    → IsDay y m d
    → ((handle_calendar_callback b (format o s s') (pos y) (m + 1) d w).shown ≡ false)
      × ((open_calendar l now
            (format o s s')
            (handle_calendar_callback b (format o s s') (pos y) (m + 1) d w)).calendar
          ≡ showing y m d)
unfolding open_calendar handle_calendar_callback
open_calendar-handle_calendar_callback l now b o s s' y m d w e e' h =
    let t = moment b (day_fields y m d) (at_hour 0) in
    (
      refl,
      ap (λ v. go_to_input l now (format o s s') v w.calendar) written
          ∙ go_to_input-some l now (format o s s') (strftime t (format o s s')) w.calendar
              (strftime-some o s s' t e e')
          ∙ ap (λ r. go_to_date l now r w.calendar)
              (strptime-strftime o s s' t e e' (moment-HasDate b y m d (at_hour 0) h))
          ∙ go_to_date-day l now y m d w.calendar h,
    )
  where
    same_month : m + 1 - 1 ≡ m
    same_month = omega arith

    written :
        strftime
          (moment b
            (fields_of (make_day (shifted_year (make_full_year (pos y))) (m + 1 - 1) d))
            (at_hour 0))
          (escape_format (format o s s'))
        ≡ strftime (moment b (day_fields y m d) (at_hour 0)) (format o s s')
    written =
        ap₂ (λ x f. strftime (moment b x (at_hour 0)) f)
          (ap (λ k. fields_of (make_day (shifted_year (make_full_year (pos y))) k d)) same_month
            ∙ fields_of-make_day y m d h)
          (escape_format-format o s s' e e')

-- The links to yesterday, today and tomorrow write the day that is that many days from now, where it is
-- a day of a year of four digits and the format is one of the six orders of `%d`, `%m` and `%Y` with
-- any two of the separators: read back from the field in that format, it is the day whose number is that of
-- today's day and the offset.
pub strptime-handle_calendar_quick_link :
    (b : Browser) (o : Order) (s s' : ℕ) (today' : DateFields) (time : Time) (offset : ℤ)
    (y m d : ℕ) (w : CalendarBox)
    → is_separator s ≡ true
    → is_separator s' ≡ true
    → IsDay y m d
    → pos (make_day (400000 + y) m d) ≡ pos (day_of_fields today') +ℤ offset
    → strptime
        (handle_calendar_quick_link b (format o s s') today' time offset w).input
        (format o s s')
      ≡ some (day_fields y m d)
unfolding handle_calendar_quick_link
strptime-handle_calendar_quick_link b o s s' today' time offset y m d w e e' h q =
    ap (λ x. strptime (strftime (moment b x time) (format o s s')) (format o s s'))
      (ap (λ n. fields_of (pos_part n)) (sym q)
        ∙ ap fields_of (
            ap (λ n. make_day n m d)
              (sym (shifted_pos y) ∙ ap shifted_year (sym (kept_pos y h.four_digits))))
        ∙ fields_of-make_day y m d h)
    ∙ strptime-strftime o s s' (moment b (day_fields y m d) time) e e'
        (moment-HasDate b y m d time h)
