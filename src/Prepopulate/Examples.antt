-- ===== src/Prepopulate/Examples.antt =====
-- A slug field that is filled in from a title.
use bluetooth_autonomous_car.Prelude.{◌≡◌, ◌&&◌, refl, true, false, List, [], ◌∷◌, if◌then◌else◌}
use bluetooth_autonomous_car.Text.{is_empty, codes, is_space}
use bluetooth_autonomous_car.Urlify.{urlify}
use bluetooth_autonomous_car.Prepopulate.{
  PrepopulatedField, Edit, dependency_edited, set_up, present,
}
use bluetooth_autonomous_car.Prepopulate.Filled.{
  hear_each, populates, slug_of, or_else, last_edit, any_dependency, edited_dependencies,
  set_up_value,
}

abbrev slug_field : PrepopulatedField
slug_field = record { value = []; changed = true; listening = false; dependencies = [] ∷ [] ∷ [] }

abbrev titles : List Edit
titles = dependency_edited 1 (codes "Big") ∷ dependency_edited 0 (codes "Car") ∷ []

set_up_value_example :
    (hear_each (populates (λ s. s) (λ c. false) 50 false) titles (set_up slug_field)).value
    ≡ or_else (last_edit titles) (
        if is_empty slug_field.value && any_dependency titles
        then slug_of
            (λ s. s)
            (λ c. false)
            50
            false
            (edited_dependencies titles slug_field.dependencies)
        else slug_field.value)
set_up_value_example = set_up_value (λ s. s) (λ c. false) 50 false titles slug_field

joined :
    slug_of (λ s. s) (λ c. false) 50 false (codes "Car" ∷ [] ∷ codes "Big" ∷ []) ≡ codes "Car-Big"
unfolding urlify is_space present
joined = refl
