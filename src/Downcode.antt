-- ===== src/Downcode.antt =====
-- static/admin/js/urlify.js, lines 5 to 158: the maps from letters to ASCII, and `downcode`. Each key
-- of the maps is one code unit, so a map is a list of its entries; an entry of a later map overrides.
mod Western
mod Slavic
mod Eastern
pub mod Ascii
use bluetooth_autonomous_car.Prelude.{
  ℕ, List, [], ◌∷◌, ◌++◌, Option, none, some, ◌==◌, if◌then◌else◌,
}
use bluetooth_autonomous_car.Text.{Text}
use bluetooth_autonomous_car.Downcode.Western.{
  latin_map, latin_symbols_map, greek_map, turkish_map, romanian_map,
}
use bluetooth_autonomous_car.Downcode.Slavic.{
  russian_map, ukrainian_map, czech_map, slovak_map, polish_map,
}
use bluetooth_autonomous_car.Downcode.Eastern.{
  latvian_map, arabic_map, lithuanian_map, serbian_map, azerbaijani_map, georgian_map,
}

abbrev pub Entry : Type 0
Entry = ℕ × Text

-- `Downcoder.map`, in the order in which it is filled.
pub all_downcode_maps : List (List Entry)
unfolding latin_map latin_symbols_map greek_map turkish_map romanian_map russian_map ukrainian_map
    czech_map slovak_map polish_map latvian_map arabic_map lithuanian_map serbian_map
    azerbaijani_map georgian_map
all_downcode_maps =
    latin_map ∷ latin_symbols_map ∷ greek_map ∷ turkish_map ∷ romanian_map ∷ russian_map
    ∷ ukrainian_map ∷ czech_map ∷ slovak_map ∷ polish_map ∷ latvian_map ∷ arabic_map
    ∷ lithuanian_map ∷ serbian_map ∷ azerbaijani_map ∷ georgian_map ∷ []

-- An entry of a map, and of the maps, a later one first.
pub find_entry : ℕ → List Entry → Option Text
find_entry c [] = none
find_entry c (e ∷ entries) = if e.0 == c then some e.1 else find_entry c entries

pub find_last : ℕ → List (List Entry) → Option Text
unfolding find_entry
find_last c [] = none
find_last c (m ∷ maps) = elim (find_last c maps) [ none ↦ find_entry c m | some t ↦ some t ]

pub downcode_one : ℕ → Text
unfolding all_downcode_maps find_last
downcode_one c = elim (find_last c all_downcode_maps) [ none ↦ c ∷ [] | some t ↦ t ]

unfoldable pub downcode : Text → Text
unfolding downcode_one
downcode [] = []
downcode (c ∷ s) = downcode_one c ++ downcode s
