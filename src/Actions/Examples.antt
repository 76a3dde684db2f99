-- ===== src/Actions/Examples.antt =====
-- The change list's theorems on a page of three boxes, the second of them checked.
use bluetooth_autonomous_car.Prelude.{
  inl, ◌≡◌, refl, arith, true, false, [], ◌∷◌, some, none, get_elem?, map,
}
use bluetooth_autonomous_car.Text.{codes, dec}
use bluetooth_autonomous_car.Actions.{
  Row, State, ready, box_click, toggle_click, all_checked, count_checked,
}
use bluetooth_autonomous_car.Actions.Range.{box_click-range}
use bluetooth_autonomous_car.Actions.Consistent.{IsConsistent, done, and_then, on_toggle, on_box}
use bluetooth_autonomous_car.Actions.Modes.{Steps-IsConsistent}
use bluetooth_autonomous_car.Actions.Ready.{IsServed, ready-IsConsistent}
use bluetooth_autonomous_car.Actions.Restored.{IsMisshown, ready-IsMisshown}

abbrev box_off : Row
box_off = record { checked = false; highlighted = false }

abbrev box_on : Row
box_on = record { checked = true; highlighted = false }

abbrev served : State
served = record {
  rows = box_off ∷ box_on ∷ box_off ∷ [];
  toggle = false;
  toggle_shown = false;
  across = codes "0";
  clears = false;
  questions = false;
  all = false;
  counter = false;
  container = false;
  label = [];
  last_checked = none;
  list_editable_changed = false;
}

served-IsServed : IsServed served
served-IsServed = record {
  some_box = omega arith;
  plain = (refl, (refl, (refl, tt)));
  not_toggled = refl;
  one_page = refl;
  no_clears = refl;
  no_questions = refl;
}

ready-IsConsistent_example :
    IsConsistent (ready dec served)
    × (map (λ r. r.checked) (ready dec served).rows ≡ false ∷ true ∷ false ∷ [])
ready-IsConsistent_example = ready-IsConsistent dec served served-IsServed

abbrev clicked : State
clicked = record served {
  rows =
      record { checked = false; highlighted = false }
      ∷ record { checked = true; highlighted = true }
      ∷ box_off
      ∷ [];
  last_checked = some 0;
}

clicked-IsConsistent : IsConsistent clicked
unfolding all_checked count_checked
clicked-IsConsistent = record {
  inhabited = omega arith;
  matching = (refl, (refl, (refl, tt)));
  toggle_is = refl;
  mode =
      inl (record {
        rows_part = refl;
        across_part = refl;
        clears_part = refl;
        questions_part = refl;
      });
}

Steps-IsConsistent_example : IsConsistent (toggle_click dec (box_click dec 2 true clicked))
Steps-IsConsistent_example =
    Steps-IsConsistent dec
      (and_then (on_box clicked 2 true (omega arith)) (and_then (on_toggle _) (done _)))
      clicked-IsConsistent

box_click-range_example :
    get_elem? (box_click dec 2 true clicked).rows 1
    ≡ some (record { checked = true; highlighted = true })
box_click-range_example =
    box_click-range dec clicked 0 2 box_off 1 (record { checked = true; highlighted = true }) refl
      (omega arith) refl refl

ready-IsMisshown_example :
    IsMisshown (ready dec (record served { rows = box_on ∷ box_on ∷ []; across = codes "1" }))
unfolding all_checked count_checked
ready-IsMisshown_example =
    ready-IsMisshown dec (record served { rows = box_on ∷ box_on ∷ []; across = codes "1" })
      (omega arith) refl refl
