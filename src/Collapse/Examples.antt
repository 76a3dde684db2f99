-- ===== src/Collapse/Examples.antt =====
-- Two clicks on a page with one fieldset to collapse.
use bluetooth_autonomous_car.Prelude.{◌≡◌, refl, true, false, List, [], ◌∷◌, none, some}
use bluetooth_autonomous_car.Text.{codes}
use bluetooth_autonomous_car.Collapse.{Fieldset, load}
use bluetooth_autonomous_car.Collapse.Toggled.{Click, run, count, is_even, HasState, load-run}

abbrev folded : Fieldset
folded = record { collapsible = true; errors = false; collapsed = false; link = none }

abbrev one_click : Click
one_click = record {
  number = 0;
  inner =
      record { node_name = codes "A"; fieldset = 0 }
      ∷ record { node_name = codes "H2"; fieldset = 0 }
      ∷ [];
  outer = record { node_name = codes "BODY"; fieldset = 0 } ∷ [];
  all_inner = ((refl, refl), ((refl, refl), tt));
}

abbrev clicks : List Click
clicks = one_click ∷ []

load-run_example :
    (after : List Fieldset) × (run (λ s. s) clicks (load (λ s. s) (folded ∷ [])) ≡ some after)
    × HasState (λ s. s) (is_even (count 0 clicks)) 0 after
load-run_example = load-run (λ s. s) clicks (folded ∷ []) 0 folded refl refl refl
