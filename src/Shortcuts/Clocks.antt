-- ===== src/Shortcuts/Clocks.antt =====
-- The box of a clock through a session.
use bluetooth_autonomous_car.Prelude.{ℕ, ◌≡◌, refl, List, [], ◌∷◌, Option, none, some}
use bluetooth_autonomous_car.Text.{Text}
use bluetooth_autonomous_car.Core.{Moment}
use bluetooth_autonomous_car.Shortcuts.{
  Browser, Clock, add_clock, open_clock, dismiss_clock, handle_clock_quicklink,
}

-- What can happen to the widget; a value is chosen at a present moment.
pub data ClockEvent : Type 0 where
  clock_link dismiss_link : ClockEvent
  quicklink : Moment → Option ℕ → ClockEvent

pub clock_session : Browser → Text → List ClockEvent → Clock → Clock
clock_session b format [] c = c
clock_session b format (clock_link ∷ events) c = clock_session b format events (open_clock c)
clock_session b format (dismiss_link ∷ events) c = clock_session b format events (dismiss_clock c)
clock_session b format (quicklink present val ∷ events) c =
    clock_session b format events (handle_clock_quicklink b format present val c)

clock_session-listening :
    (b : Browser) (format : Text) (events : List ClockEvent) (c : Clock)
    → c.shown ≡ c.listening
    → (clock_session b format events c).shown ≡ (clock_session b format events c).listening
unfolding clock_session open_clock dismiss_clock handle_clock_quicklink
clock_session-listening b format [] c h = h
clock_session-listening b format (clock_link ∷ events) c h =
    clock_session-listening b format events (open_clock c) refl
clock_session-listening b format (dismiss_link ∷ events) c h =
    clock_session-listening b format events (dismiss_clock c) refl
clock_session-listening b format (quicklink present none ∷ events) c h =
    clock_session-listening b format events (handle_clock_quicklink b format present none c) refl
clock_session-listening b format (quicklink present (some val) ∷ events) c h =
    clock_session-listening b format events (handle_clock_quicklink b format present (some val) c)
      refl

-- After any session of a new clock the document listens for a click to dismiss the box just while the
-- box is shown.
pub add_clock-listening :
    (b : Browser) (format value : Text) (events : List ClockEvent)
    → (clock_session b format events (add_clock value)).shown
      ≡ (clock_session b format events (add_clock value)).listening
unfolding add_clock
add_clock-listening b format value events =
    clock_session-listening b format events (add_clock value) refl
