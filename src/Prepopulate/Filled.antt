-- ===== src/Prepopulate/Filled.antt =====
-- The value of a prepopulated field after any edits.
use bluetooth_autonomous_car.Prelude.{
  ℕ, ◌≡◌, refl, sym, ap, ◌∙◌, Bool, true, false, List, [], ◌∷◌, Option, none, some, Bool-cases, inl,
  inr, ◌⊎◌, ◌&&◌, if◌then◌else◌,
}
use bluetooth_autonomous_car.Text.{is_empty, Text}
use bluetooth_autonomous_car.Urlify.{urlify}
use bluetooth_autonomous_car.Prepopulate.{
  PrepopulatedField, present, join, populate, set_up, set_value, Edit, edited, dependency_edited,
  hear,
}

pub hear_each :
    (PrepopulatedField → PrepopulatedField) → List Edit → PrepopulatedField → PrepopulatedField
hear_each populates [] field = field
hear_each populates (e ∷ events) field = hear_each populates events (hear populates e field)

abbrev pub or_else : Option Text → Text → Text
or_else none s = s
or_else (some t) s = t

-- The last value that the user gives the field itself, and whether a dependency is edited.
abbrev pub last_edit : List Edit → Option Text
last_edit [] = none
last_edit (edited s ∷ events) = some (or_else (last_edit events) s)
last_edit (dependency_edited i s ∷ events) = last_edit events

abbrev pub any_dependency : List Edit → Bool
any_dependency [] = false
any_dependency (edited s ∷ events) = any_dependency events
any_dependency (dependency_edited i s ∷ events) = true

abbrev pub edited_dependencies : List Edit → List Text → List Text
edited_dependencies [] values = values
edited_dependencies (edited s ∷ events) values = edited_dependencies events values
edited_dependencies (dependency_edited i s ∷ events) values =
    edited_dependencies events (set_value values i s)

no_dependency :
    (events : List Edit) (values : List Text)
    → any_dependency events ≡ false
    → edited_dependencies events values ≡ values
no_dependency [] values h = refl
no_dependency (edited s ∷ events) values h = no_dependency events values h
no_dependency (dependency_edited i s ∷ events) values h = cc

module _ (lower : Text → Text) (letter_or_number : ℕ → Bool) (max_length : ℕ)
    (allow_unicode : Bool) where
  abbrev pub populates : PrepopulatedField → PrepopulatedField
  populates = populate lower letter_or_number max_length allow_unicode

  abbrev pub slug_of : List Text → Text
  slug_of values = urlify lower letter_or_number (join (present values)) max_length allow_unicode

  -- A step on another field leaves an edited field, and one that does not listen.
  kept_step :
      (field : PrepopulatedField) (i : ℕ) (s : Text) (b : Bool)
      → field.listening ≡ b
      → (b ≡ false) ⊎ (field.changed ≡ true)
      → hear populates (dependency_edited i s) field
        ≡ record field { dependencies = set_value field.dependencies i s }
  unfolding hear populate
  kept_step field i s false e h = rw e refl
  kept_step field i s true e (inl no') = cc
  kept_step field i s true e (inr h) = rw (e, h) refl

  kept_value :
      (events : List Edit) (field : PrepopulatedField)
      → (field.listening ≡ false) ⊎ (field.changed ≡ true)
      → (hear_each populates events field).value ≡ or_else (last_edit events) field.value
  unfolding hear_each hear
  kept_value [] field h = refl
  kept_value (edited s ∷ events) field h =
      kept_value events (record field { value = s; changed = true }) (inr refl)
  kept_value (dependency_edited i s ∷ events) field h =
      ap (λ f. (hear_each populates events f).value) (kept_step field i s field.listening refl h)
      ∙ kept_value events (record field { dependencies = set_value field.dependencies i s }) h

  filled_value :
      (events : List Edit) (field : PrepopulatedField)
      → field.listening ≡ true
      → field.changed ≡ false
      → (hear_each populates events field).value
        ≡ or_else (last_edit events) (
            if any_dependency events
            then slug_of (edited_dependencies events field.dependencies)
            else field.value)
  unfolding hear_each hear populate
  filled_value [] field l h = refl
  filled_value (edited s ∷ events) field l h =
      kept_value events (record field { value = s; changed = true }) (inr refl)
  filled_value (dependency_edited i s ∷ events) field l h =
      ap (λ f. (hear_each populates events f).value) step
      ∙ filled_value events filled l h
      ∙ ap (or_else (last_edit events)) (by_later (any_dependency events) refl)
    where
      values : List Text
      values = set_value field.dependencies i s

      filled : PrepopulatedField
      filled = record field { dependencies = values; value = slug_of values }

      step : hear populates (dependency_edited i s) field ≡ filled
      step = rw (l, h) refl

      by_later :
          (b : Bool)
          → any_dependency events ≡ b
          → (if b then slug_of (edited_dependencies events values) else slug_of values)
            ≡ slug_of (edited_dependencies events values)
      by_later true e = refl
      by_later false e = ap slug_of (sym (no_dependency events values e))

  -- After any edits of the field and of those that it depends on: the value is the last one that
  -- the user gave the field itself, if any; otherwise, if the field was empty at the start and
  -- another field has been edited, it is the slug of what the others hold now, the empty ones left
  -- out; and otherwise it is the value at the start.
  pub set_up_value :
      (events : List Edit) (field : PrepopulatedField)
      → (hear_each populates events (set_up field)).value
        ≡ or_else (last_edit events) (
            if is_empty field.value && any_dependency events
            then slug_of (edited_dependencies events field.dependencies)
            else field.value)
  unfolding set_up
  set_up_value events field = elim (Bool-cases (is_empty field.value)) [
    | inl empty ↦
        rw empty
          (filled_value events (record field { changed = false; listening = true }) refl refl)
    | inr full ↦
        rw full (kept_value events (record field { changed = false; listening = false }) (inl refl))
  ]
