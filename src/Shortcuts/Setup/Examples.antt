-- ===== src/Shortcuts/Setup/Examples.antt =====
-- A page with a date, a time and a name, set up for the second time.
use bluetooth_autonomous_car.Prelude.{◌≡◌, ◌≢◌, List, [], some, ◌∷◌, none, pos, negsuc, All}
use bluetooth_autonomous_car.Text.{codes}
use bluetooth_autonomous_car.Shortcuts.Setup.{
  InputField, calendar_links, Setup, ClockHours, undefined, inherited, reinit,
}
use bluetooth_autonomous_car.Shortcuts.Setup.Wanted.{SetUpFor, LeadsHome, Keeps}
use bluetooth_autonomous_car.Shortcuts.Setup.Numbered.{reinit_lem}

abbrev date_input : InputField
date_input = record {
  number = 0;
  parent = 0;
  type_name = codes "text";
  class_name = codes "vDateField";
  name = codes "date_0";
}

abbrev time_input : InputField
time_input = record {
  number = 1;
  parent = 0;
  type_name = codes "text";
  class_name = codes "vTimeField";
  name = codes "date_1";
}

abbrev name_input : InputField
name_input = record {
  number = 2;
  parent = 1;
  type_name = codes "text";
  class_name = codes "vTextField";
  name = codes "name";
}

abbrev inputs : List InputField
inputs = date_input ∷ time_input ∷ name_input ∷ []

abbrev hours : ClockHours
hours = record {
  of_name = λ name. undefined;
  default = (codes "Now", negsuc 0) ∷ (codes "Midnight", pos 0) ∷ [];
}

-- The page has had one calendar before.
abbrev before : Setup
before = record {
  clock_inputs = [];
  calendar_inputs = 0 ∷ [];
  links = calendar_links 0 0 ∷ [];
  warnings = λ parent. none;
}

reinit_lem_example :
    (s' : Setup) × (reinit hours (pos 3600) inputs before ≡ some s')
    × SetUpFor hours inputs s'.links
    × All (LeadsHome s'.clock_inputs s'.calendar_inputs) s'.links
    × Keeps [] s'.clock_inputs
    × Keeps (0 ∷ []) s'.calendar_inputs
reinit_lem_example =
    reinit_lem hours (pos 3600) inputs before
      ((λ t. no_entry), ((λ t. no_entry), ((λ t. no_entry), tt)))
  where
    no_entry : undefined ≢ inherited
    no_entry e = cc
