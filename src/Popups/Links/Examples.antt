-- ===== src/Popups/Links/Examples.antt =====
-- Two changes of a select with a link to change what is selected.
use bluetooth_autonomous_car.Prelude.{refl, List, [], ◌∷◌, ◌++◌, none}
use bluetooth_autonomous_car.Text.{Text, codes, includes, starts_with}
use bluetooth_autonomous_car.Popups.Links.{RelatedLink}
use bluetooth_autonomous_car.Popups.Links.Followed.{
  template_of, Leads, change_values, change_values_lem,
}

abbrev parts : List (Text × Text)
parts = (codes "/user/", codes "/change/") ∷ []

abbrev links : List RelatedLink
links = record { href = none; href_template = template_of (codes "/user/", codes "/change/") } ∷ []

change_values_lem_example :
    Leads (codes "7") parts (change_values ((codes "3" ∷ []) ++ (codes "7" ∷ [])) links)
unfolding includes starts_with
change_values_lem_example =
    change_values_lem (codes "3" ∷ []) (codes "7") parts links (refl, tt) (refl, tt) refl
