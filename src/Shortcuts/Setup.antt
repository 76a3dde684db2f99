-- ===== src/Shortcuts/Setup.antt =====
-- static/admin/js/admin/DateTimeShortcuts.js, `init`: which inputs of the page get a clock or a calendar,
-- and their numbers; and admin/js/inlines.js where it sets them up anew. A field is named by its place
-- among all the inputs that the page has had, and so is the element that it stands in. `none` is a
-- TypeError, which ends the script.
pub mod Wanted
pub mod Numbered
pub mod Examples
use bluetooth_autonomous_car.Prelude.{
  ℕ, Bool, true, false, ◌&&◌, List, [], ◌∷◌, ◌++◌, Option, none, some, if◌then◌else◌, length, ℤ,
}
use bluetooth_autonomous_car.Text.{Text, codes, same_text, includes}
use bluetooth_autonomous_car.SelectBox.{◌>>=◌, update_at}
use bluetooth_autonomous_car.Shortcuts.{Warning, timezone_warning}

-- An input; the type is empty where it has none.
pub record InputField : Type 0 where
  pub number : ℕ
  pub parent : ℕ
  pub type_name : Text
  pub class_name : Text
  pub name : Text

pub data FieldKind : Type 0 where
  time_field date_field other_field : FieldKind

pub kind_of : InputField → FieldKind
kind_of f =
    if same_text f.type_name (codes "text") && includes (codes "vTimeField") f.class_name
    then time_field
    else if same_text f.type_name (codes "text") && includes (codes "vDateField") f.class_name
    then date_field
    else other_field

-- The links beside a field, by the number that their handlers know; a clock's offers choices.
pub data ShortcutLinks : Type 0 where
  clock_links : ℕ → ℕ → List (Text × ℤ) → ShortcutLinks
  calendar_links : ℕ → ℕ → ShortcutLinks

-- `clockInputs`, `calendarInputs` (`calendars` is as long), the links on the page in its order and the warnings.
pub record Setup : Type 0 where
  pub clock_inputs : List ℕ
  pub calendar_inputs : List ℕ
  pub links : List ShortcutLinks
  pub warnings : ℕ → Option Warning

-- A property of `clockHours`: undefined, a list of choices, or what the object inherits, which has no
-- `forEach`.
pub data HoursEntry : Type 0 where
  undefined : HoursEntry
  choices : List (Text × ℤ) → HoursEntry
  inherited : HoursEntry

-- `clockHours`: the properties, and the choices of `default_`.
pub record ClockHours : Type 0 where
  pub of_name : Text → HoursEntry
  pub default : List (Text × ℤ)

-- The choices of a name; `none` is a TypeError.
pub hours_of : ClockHours → Text → Option (List (Text × ℤ))
hours_of hours name = elim (hours.of_name name) [
  | undefined ↦ some hours.default
  | choices l ↦ some l
  | inherited ↦ none
]

pub add_clock_links : ClockHours → InputField → Setup → Option Setup
unfolding hours_of
add_clock_links hours f s = do
  l ← hours_of hours f.name
  some (record s {
    clock_inputs = s.clock_inputs ++ (f.number ∷ []);
    links = s.links ++ (clock_links (length s.clock_inputs) f.number l ∷ []);
  })

pub add_calendar_links : InputField → Setup → Setup
add_calendar_links f s = record s {
  calendar_inputs = s.calendar_inputs ++ (f.number ∷ []);
  links = s.links ++ (calendar_links (length s.calendar_inputs) f.number ∷ []);
}

pub is_warned : Option Warning → Bool
is_warned none = false
is_warned (some w) = true

pub set_warning : ℕ → Option Warning → Setup → Setup
set_warning parent none s = s
set_warning parent (some w) s = record s { warnings = update_at s.warnings parent (some w) }

pub add_timezone_warning : ℤ → InputField → Setup → Setup
unfolding timezone_warning is_warned set_warning
add_timezone_warning offset f s =
    set_warning f.parent (timezone_warning offset (is_warned (s.warnings f.parent))) s

pub init_field : ClockHours → ℤ → InputField → Setup → Option Setup
unfolding kind_of add_clock_links add_calendar_links add_timezone_warning
init_field hours offset f s = elim (kind_of f) [
  | time_field ↦ (add_clock_links hours f s >>= λ t. some (add_timezone_warning offset f t))
  | date_field ↦ some (add_timezone_warning offset f (add_calendar_links f s))
  | other_field ↦ some s
]

pub init_fields : ClockHours → ℤ → List InputField → Setup → Option Setup
unfolding init_field
init_fields hours offset [] s = some s
init_fields hours offset (f ∷ fields) s =
    init_field hours offset f s >>= init_fields hours offset fields

-- `reinitDateTimeShortCuts`: the links are removed, and `init` runs on the inputs of the page now.
pub reinit : ClockHours → ℤ → List InputField → Setup → Option Setup
unfolding init_fields
reinit hours offset fields s = init_fields hours offset fields (record s { links = [] })
