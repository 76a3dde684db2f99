-- ===== src/Popups/Examples.antt =====
-- The popups' theorems on concrete names, ids and a page with one chosen box.
use bluetooth_autonomous_car.Prelude.{◌≡◌, refl, arith, true, [], ◌∷◌, none, some, if◌then◌else◌}
use bluetooth_autonomous_car.Text.{codes, same_text, starts_with, includes}
use bluetooth_autonomous_car.SelectBox.{Node, Page, displayed_options}
use bluetooth_autonomous_car.SelectBox.Boxes.{IsBox}
use bluetooth_autonomous_car.Popups.{dismiss_add, id_to_windowname, windowname_to_id}
use bluetooth_autonomous_car.Popups.Names.{windowname_to_id-id_to_windowname}
use bluetooth_autonomous_car.Popups.Chosen.{dismiss_add-IsBox}

windowname_to_id-id_to_windowname_example :
    windowname_to_id (id_to_windowname (codes "id_a-0.b")) ≡ codes "id_a-0.b"
unfolding includes starts_with
windowname_to_id-id_to_windowname_example =
    windowname_to_id-id_to_windowname (codes "id_a-0.b") refl refl

abbrev node : Node
node = record { value = codes "1"; text = codes "ann"; displayed = true }

abbrev page : Page
page = record {
  document = λ id. if same_text id (codes "f_to") then some 0 else none;
  options = λ e. [];
  fresh = 1;
  cache = λ id. if same_text id (codes "f_to") then some (node ∷ []) else none;
}

dismiss_add-IsBox_example :
    (p' : Page) × (dismiss_add none (id_to_windowname (codes "f")) (codes "2") (codes "bob") page
      ≡ some (none, p'))
    × IsBox
        (codes "f_to")
        (displayed_options
          (node ∷ record { value = codes "2"; text = codes "bob"; displayed = true } ∷ []))
        (node ∷ record { value = codes "2"; text = codes "bob"; displayed = true } ∷ [])
        p'
unfolding includes starts_with
dismiss_add-IsBox_example =
    dismiss_add-IsBox (codes "f") (codes "2") (codes "bob") [] (node ∷ []) page refl refl (record {
      element = 0;
      in_document = refl;
      allocated = omega arith;
      shows = refl;
      cached = refl;
    })
