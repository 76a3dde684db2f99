-- ===== src/Prepopulate.antt =====
-- static/admin/js/prepopulate.js: a field that is filled in from other fields until the user edits it.
-- The fields it depends on are listed by their values; a `PrepopulatedField` is the prepopulated one. `slug` is
-- `URLify` with the field's length and alphabet (see Urlify).
pub mod Filled
pub mod Examples
use bluetooth_autonomous_car.Prelude.{
  ℕ, zero, suc, Bool, true, false, List, [], ◌∷◌, ◌++◌, if◌then◌else◌,
}
use bluetooth_autonomous_car.Text.{is_empty, Text, codes}
use bluetooth_autonomous_car.Urlify.{urlify}

pub record PrepopulatedField : Type 0 where
  pub value : Text
  pub changed : Bool
  pub listening : Bool
  pub dependencies : List Text

unfoldable pub present : List Text → List Text
present [] = []
present ([] ∷ values) = present values
present ((c ∷ s) ∷ values) = (c ∷ s) ∷ present values

-- `values.join(' ')`.
abbrev pub join : List Text → Text
join [] = []
join (s ∷ []) = s
join (s ∷ t ∷ values) = s ++ (codes " " ++ join (t ∷ values))

module _ (lower : Text → Text) (letter_or_number : ℕ → Bool) (max_length : ℕ)
    (allow_unicode : Bool) where
  unfoldable pub populate : PrepopulatedField → PrepopulatedField
  unfolding present
  populate field = if field.changed then field else record field {
    value =
        urlify lower letter_or_number (join (present field.dependencies)) max_length allow_unicode;
  }

-- The set-up of one field: the others' events are heard only if the field is empty.
unfoldable pub set_up : PrepopulatedField → PrepopulatedField
set_up field = record field { changed = false; listening = is_empty field.value }

abbrev pub set_value : List Text → ℕ → Text → List Text
set_value [] i s = []
set_value (t ∷ values) zero s = s ∷ values
set_value (t ∷ values) (suc i) s = t ∷ set_value values i s

-- What the user does: a new value for the field, which ends in a `change` event, or for one of the
-- fields that it depends on, which ends in a `keyup`, `change` or `focus` event.
pub data Edit : Type 0 where
  edited : Text → Edit
  dependency_edited : ℕ → Text → Edit

unfoldable pub hear :
    (PrepopulatedField → PrepopulatedField) → Edit → PrepopulatedField → PrepopulatedField
hear populates (edited s) field = record field { value = s; changed = true }
hear populates (dependency_edited i s) field =
    let field' = record field { dependencies = set_value field.dependencies i s } in
    if field.listening then populates field' else field'
