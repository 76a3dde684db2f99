-- ===== src/Shortcuts/Setup/Wanted.antt =====
-- What a set-up of the page is to leave beside its fields.
use bluetooth_autonomous_car.Prelude.{
  ℕ, zero, suc, ◌≡◌, ◌⊎◌, List, [], ◌∷◌, ◌++◌, some, ℤ, get_elem?, All,
}
use bluetooth_autonomous_car.Text.{Text, codes}
use bluetooth_autonomous_car.Text.Occurs.{Occurs}
use bluetooth_autonomous_car.Shortcuts.Setup.{
  InputField, ShortcutLinks, clock_links, calendar_links, ClockHours, undefined, choices,
}

-- A text input of the class for times, or for dates.
abbrev pub IsTime : InputField → Type 0
IsTime f = (f.type_name ≡ codes "text") × Occurs (codes "vTimeField") f.class_name

abbrev pub IsDate : InputField → Type 0
IsDate f = (f.type_name ≡ codes "text") × Occurs (codes "vDateField") f.class_name

-- A clock offers the choices of its field's name, or the default ones if there are none.
abbrev pub Offers : ClockHours → Text → List (Text × ℤ) → Type 0
Offers hours name l =
    (hours.of_name name ≡ choices l) ⊎ ((hours.of_name name ≡ undefined) × (l ≡ hours.default))

-- The links that belong to fields, in their order.
pub data SetUpFor (hours : ClockHours) : List InputField → List ShortcutLinks → Type 0 where
  none_left : SetUpFor hours [] []
  a_clock :
      {fields : List InputField} {links : List ShortcutLinks} (f : InputField) (n : ℕ)
      (l : List (Text × ℤ))
      → IsTime f
      → Offers hours f.name l
      → SetUpFor hours fields links
      → SetUpFor hours (f ∷ fields) (clock_links n f.number l ∷ links)
  a_calendar :
      {fields : List InputField} {links : List ShortcutLinks} (f : InputField) (n : ℕ)
      → ¬ IsTime f
      → IsDate f
      → SetUpFor hours fields links
      → SetUpFor hours (f ∷ fields) (calendar_links n f.number ∷ links)
  neither :
      {fields : List InputField} {links : List ShortcutLinks} (f : InputField)
      → ¬ IsTime f
      → ¬ IsDate f
      → SetUpFor hours fields links
      → SetUpFor hours (f ∷ fields) links

pub SetUpFor-append :
    {hours : ClockHours} {fields fields' : List InputField} {links links' : List ShortcutLinks}
    → SetUpFor hours fields links
    → SetUpFor hours fields' links'
    → SetUpFor hours (fields ++ fields') (links ++ links')
SetUpFor-append none_left w = w
SetUpFor-append (a_clock f n l t o v) w = a_clock f n l t o (SetUpFor-append v w)
SetUpFor-append (a_calendar f n t d v) w = a_calendar f n t d (SetUpFor-append v w)
SetUpFor-append (neither f t d v) w = neither f t d (SetUpFor-append v w)

-- The number of the links is that of their field among the clocks' or the calendars'.
abbrev pub LeadsHome : List ℕ → List ℕ → ShortcutLinks → Type 0
LeadsHome clocks calendars (clock_links n f l) = get_elem? clocks n ≡ some f
LeadsHome clocks calendars (calendar_links n f) = get_elem? calendars n ≡ some f

-- What a number names in the one list it names in the other.
abbrev pub Keeps : List ℕ → List ℕ → Type 0
Keeps inputs inputs' = (n f : ℕ) → get_elem? inputs n ≡ some f → get_elem? inputs' n ≡ some f

pub Keeps-append : (inputs more : List ℕ) → Keeps inputs (inputs ++ more)
Keeps-append [] more n f h = cc
Keeps-append (g ∷ inputs) more zero f h = h
Keeps-append (g ∷ inputs) more (suc n) f h = Keeps-append inputs more n f h

pub LeadsHome-kept :
    (clocks clocks' calendars calendars' : List ℕ) (links : List ShortcutLinks)
    → Keeps clocks clocks'
    → Keeps calendars calendars'
    → All (LeadsHome clocks calendars) links
    → All (LeadsHome clocks' calendars') links
LeadsHome-kept clocks clocks' calendars calendars' [] k k' h = tt
LeadsHome-kept clocks clocks' calendars calendars' (clock_links n f l ∷ links) k k' h =
    (k n f h.0, LeadsHome-kept clocks clocks' calendars calendars' links k k' h.1)
LeadsHome-kept clocks clocks' calendars calendars' (calendar_links n f ∷ links) k k' h =
    (k' n f h.0, LeadsHome-kept clocks clocks' calendars calendars' links k k' h.1)
