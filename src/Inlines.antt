-- ===== src/Inlines.antt =====
-- static/admin/js/inlines.js: a formset, whose forms can be added and deleted. The page has one
-- template after the forms, one TOTAL_FORMS and one MAX_NUM_FORMS field (`none` for a blank one). The
-- prefix is taken to have no character that a pattern reads otherwise. The callbacks `added` and
-- `removed`, which dress the rows of the two layouts, are left out.
pub mod Index
pub mod Families
pub mod Sequence
pub mod Attributes
pub mod Layouts
pub mod Examples
use bluetooth_autonomous_car.Prelude.{
  ℕ, zero, suc, ◌+◌, ◌-◌, Bool, true, false, not, ◌&&◌, List, [], ◌∷◌, ◌++◌, Option, none, some,
  ltb, if◌then◌else◌, map, length, get_elem?,
}
use bluetooth_autonomous_car.Text.{Text, codes, dec, is_digit, starts_with}

pub drop_digits : Text → Text
drop_digits [] = []
drop_digits (c ∷ s) = let rest = drop_digits s in if is_digit c then rest else c ∷ s

-- A text after one that it starts with.
abbrev pub drop_text : Text → Text → Text
drop_text [] s = s
drop_text (a ∷ t) [] = []
drop_text (a ∷ t) (c ∷ s) = drop_text t s

-- What follows a match of `(\d+|__prefix__)`.
pub after_index : Text → Option Text
unfolding drop_digits
after_index [] = none
after_index (c ∷ s) =
    if is_digit c
    then some (drop_digits s)
    else if starts_with (codes "__prefix__") (c ∷ s)
    then some (drop_text (codes "__prefix__") (c ∷ s))
    else none

-- What follows a match of the pattern `prefix-(\d+|__prefix__)` at the front of a text.
pub after_match : Text → Text → Option Text
unfolding after_index
after_match prefix s =
    let dashed = prefix ++ (b'-' ∷ []) in
    if starts_with dashed s then after_index (drop_text dashed s) else none

-- `replace(id_regex, replacement)`: the first match.
pub replace_index : Text → ℕ → Text → Text
unfolding after_match
replace_index prefix ndx [] = []
replace_index prefix ndx (c ∷ s) =
    let later = replace_index prefix ndx s in
    elim (after_match prefix (c ∷ s)) [
      | none ↦ c ∷ later
      | some rest ↦ prefix ++ (b'-' ∷ (dec ndx ++ rest))
    ]

-- The attributes of an element that have an index; an attribute that is not there is empty.
pub record Element : Type 0 where
  pub label_for : Text
  pub id : Text
  pub name : Text

pub update_element : Text → ℕ → Element → Element
unfolding replace_index
update_element prefix ndx el = record {
  label_for = replace_index prefix ndx el.label_for;
  id = replace_index prefix ndx el.id;
  name = replace_index prefix ndx el.name;
}

-- A form: its row and the elements in it, and whether it has the link that deletes it.
pub record Form : Type 0 where
  pub row : Element
  pub elements : List Element
  pub deletable : Bool

pub update_form : Text → ℕ → Form → Form
unfolding update_element
update_form prefix ndx f = record f {
  row = update_element prefix ndx f.row;
  elements = map (update_element prefix ndx) f.elements;
}

pub record Formset : Type 0 where
  pub forms : List Form
  pub total_forms : ℕ
  pub next_index : ℕ
  pub button : Bool

-- A blank maximum, or more than there are forms.
pub below_max : Option ℕ → ℕ → Bool
below_max none n = true
below_max (some max) n = ltb n max

-- The formset as the page starts it; without the button there is nothing to click.
pub start : Option ℕ → List Form → ℕ → Formset
unfolding below_max
start max forms total = record {
  forms = forms;
  total_forms = total;
  next_index = total;
  button = below_max max total;
}

-- The copy of the template, with its row's id and its elements' indices.
pub new_form : Text → Form → ℕ → ℕ → Form
unfolding update_element
new_form prefix template next_index total = record {
  row = record template.row { id = prefix ++ (b'-' ∷ dec next_index) };
  elements = map (update_element prefix total) template.elements;
  deletable = true;
}

pub add_form : Text → Option ℕ → Form → Formset → Formset
unfolding new_form below_max
add_form prefix max template s = record {
  forms = s.forms ++ (new_form prefix template s.next_index s.total_forms ∷ []);
  total_forms = s.total_forms + 1;
  next_index = s.next_index + 1;
  button = s.button && below_max max (s.total_forms + 1);
}

-- The loop that numbers the forms.
pub renumber : Text → ℕ → List Form → List Form
unfolding update_form
renumber prefix i [] = []
renumber prefix i (f ∷ forms) = update_form prefix i f ∷ renumber prefix (i + 1) forms

pub remove_at {ℓ} : {A : Type ℓ} → ℕ → List A → List A
remove_at i [] = []
remove_at zero (a ∷ rest) = rest
remove_at (suc i) (a ∷ rest) = a ∷ remove_at i rest

pub delete_form : Text → Option ℕ → ℕ → Formset → Formset
unfolding renumber remove_at below_max
delete_form prefix max i s =
    let left = remove_at i s.forms in
    record {
      forms = renumber prefix 0 left;
      total_forms = length left;
      next_index = s.next_index - 1;
      button = if below_max max (length left) then true else s.button;
    }

-- The clicks: the add button while it is visible, and the link of a form that has one.
pub data FormsetEvent : Type 0 where
  add : FormsetEvent
  delete : ℕ → FormsetEvent

pub is_deletable : Option Form → Bool
is_deletable none = false
is_deletable (some f) = f.deletable

pub formset_event : Text → Option ℕ → Form → FormsetEvent → Formset → Formset
unfolding add_form delete_form is_deletable
formset_event prefix max template add s = if s.button then add_form prefix max template s else s
formset_event prefix max template (delete i) s =
    if is_deletable (get_elem? s.forms i) then delete_form prefix max i s else s

pub formset_session : Text → Option ℕ → Form → List FormsetEvent → Formset → Formset
unfolding formset_event
formset_session prefix max template [] s = s
formset_session prefix max template (e ∷ events) s =
    formset_session prefix max template events (formset_event prefix max template e s)
