-- ===== src/Shortcuts/Boxes.antt =====
-- The box of a calendar through a session: it can always be dismissed, and its month is a month.
use bluetooth_autonomous_car.Prelude.{
  ℕ, ◌+◌, ◌<◌, ◌≡◌, refl, arith, Bool, true, false, ◌&&◌, List, [], ◌∷◌, Option, none, some, leb,
  if◌then◌else◌, ℤ, Bool-cases, inl, inr,
}
use bluetooth_autonomous_car.JsDate.{DateFields}
use bluetooth_autonomous_car.Text.{Text}
use bluetooth_autonomous_car.Core.{strptime, year_text}
use bluetooth_autonomous_car.Calendar.{
  Locale, Calendar, previous_month_link, next_month_link, click, draw_date, draw_current,
  new_calendar,
}
use bluetooth_autonomous_car.Calendar.Navigation.{HasMonth, click-HasMonth}
use bluetooth_autonomous_car.Shortcuts.{
  Browser, Time, CalendarBox, add_calendar, has_four_digits, go_to_date, go_to_input, open_calendar,
  dismiss_calendar, draw_prev, draw_next, handle_calendar_callback, handle_calendar_quick_link,
}

-- What can happen to the widget: its links, a click on a day, and the field edited by the user.
pub data Event : Type 0 where
  open_link dismiss prev next : Event
  pick : ℤ → ℕ → ℕ → Event
  quick_link : DateFields → Time → ℤ → Event
  type_text : Text → Event

pub handle : Locale → Browser → Text → DateFields → Event → CalendarBox → CalendarBox
handle l b format now open_link w = open_calendar l now format w
handle l b format now dismiss w = dismiss_calendar w
handle l b format now prev w = draw_prev l now w
handle l b format now next w = draw_next l now w
handle l b format now (pick y m d) w = handle_calendar_callback b format y m d w
handle l b format now (quick_link day time offset) w =
    handle_calendar_quick_link b format day time offset w
handle l b format now (type_text s) w = record w { input = s }

pub session : Locale → Browser → Text → DateFields → List Event → CalendarBox → CalendarBox
unfolding handle
session l b format now [] w = w
session l b format now (e ∷ events) w = session l b format now events (handle l b format now e w)

-- A click elsewhere in the document runs the listener, if it is there.
pub document_click : CalendarBox → CalendarBox
document_click w = if w.listening then dismiss_calendar w else w

record IsGuarded (w : CalendarBox) : Type 0 where
  heard : w.shown ≡ true → w.listening ≡ true
  month : HasMonth w.calendar

and_parts : (a b c : Bool) → (a && (b && c)) ≡ true → (b ≡ true) × (c ≡ true)
and_parts a b c h = ground arith

go_to_date-HasMonth :
    (l : Locale) (now : DateFields) (d : Option DateFields) (c : Calendar)
    → HasMonth c
    → HasMonth (go_to_date l now d c)
unfolding go_to_date draw_date draw_current
go_to_date-HasMonth l now none c h = h
go_to_date-HasMonth l now (some d) c h =
    elim (Bool-cases (
      has_four_digits 0 (year_text d.full_year) && (leb 1 (d.month + 1) && leb (d.month + 1) 12))) [
        | inl valid ↦
            let (lo, hi) =
              and_parts (has_four_digits 0 (year_text d.full_year)) (leb 1 (d.month + 1))
                (leb (d.month + 1) 12) valid in
            rw valid (ground arith, ground arith)
        | inr other ↦ rw other h
      ]

go_to_input-HasMonth :
    (l : Locale) (now : DateFields) (format value : Text) (c : Calendar)
    → HasMonth c
    → HasMonth (go_to_input l now format value c)
unfolding go_to_input
go_to_input-HasMonth l now format [] c h = h
go_to_input-HasMonth l now format (a ∷ value) c h =
    go_to_date-HasMonth l now (strptime (a ∷ value) format) c h

handle-IsGuarded :
    (l : Locale) (b : Browser) (format : Text) (now : DateFields) (e : Event) (w : CalendarBox)
    → IsGuarded w
    → IsGuarded (handle l b format now e w)
unfolding handle open_calendar dismiss_calendar draw_prev draw_next handle_calendar_callback
    handle_calendar_quick_link click
handle-IsGuarded l b format now open_link w v = record {
  heard = λ e. refl;
  month = go_to_input-HasMonth l now format w.input w.calendar v.month;
}
handle-IsGuarded l b format now dismiss w v = record { heard = λ e. cc; month = v.month }
handle-IsGuarded l b format now prev w v = record {
  heard = v.heard;
  month = click-HasMonth l now previous_month_link w.calendar v.month;
}
handle-IsGuarded l b format now next w v = record {
  heard = v.heard;
  month = click-HasMonth l now next_month_link w.calendar v.month;
}
handle-IsGuarded l b format now (pick y m d) w v = record { heard = λ e. cc; month = v.month }
handle-IsGuarded l b format now (quick_link day time offset) w v = record {
  heard = λ e. cc;
  month = v.month;
}
handle-IsGuarded l b format now (type_text s) w v = record { heard = v.heard; month = v.month }

session-IsGuarded :
    (l : Locale) (b : Browser) (format : Text) (now : DateFields) (events : List Event)
    (w : CalendarBox)
    → IsGuarded w
    → IsGuarded (session l b format now events w)
unfolding session
session-IsGuarded l b format now [] w v = v
session-IsGuarded l b format now (e ∷ events) w v =
    session-IsGuarded l b format now events (handle l b format now e w)
      (handle-IsGuarded l b format now e w v)

hidden : (w : CalendarBox) → IsGuarded w → w.listening ≡ false → w.shown ≡ false
hidden w v off = elim (Bool-cases w.shown) [ inl on ↦ cc (v.heard on, off) | inr no' ↦ no' ]

added : (now : DateFields) (value : Text) → now.month < 12 → IsGuarded (add_calendar now value)
unfolding add_calendar new_calendar
added now value h = record { heard = λ e. cc; month = (omega arith, omega arith) }

-- After any session of a new calendar widget a click elsewhere in the document leaves the box hidden,
-- and the month that it draws is from 1 to 12. (`now` is a date, its month from 0 to 11.)
pub session-document_click :
    (l : Locale) (b : Browser) (format value : Text) (now : DateFields) (events : List Event)
    → now.month < 12
    → ((document_click (session l b format now events (add_calendar now value))).shown ≡ false)
      × HasMonth (session l b format now events (add_calendar now value)).calendar
unfolding document_click dismiss_calendar
session-document_click l b format value now events h =
    let v = session-IsGuarded l b format now events (add_calendar now value) (added now value h) in
    (closed (session l b format now events (add_calendar now value)) v, v.month)
  where
    closed :
        (w : CalendarBox)
        → IsGuarded w
        → (if w.listening then dismiss_calendar w else w).shown ≡ false
    closed w v = elim (Bool-cases w.listening) [
      | inl on ↦ rw on refl
      | inr off ↦ rw off (hidden w v off)
    ]
