-- ===== src/Popups.antt =====
-- static/admin/js/admin/RelatedObjectLookups.js: the names of the popup windows, and what a popup
-- leaves in the page when it is dismissed. An element of the page is a value of `Target`; the boxes
-- of a two-box selector are those of SelectBox. Opening and closing windows, and the events that the
-- handlers trigger, are left out.
pub mod Names
pub mod Chosen
pub mod Responses
pub mod Links
pub mod Examples
use bluetooth_autonomous_car.Prelude.{
  ℕ, zero, suc, ◌+◌, ◌-◌, Bool, true, false, not, ◌&&◌, ◌||◌, List, [], ◌∷◌, ◌++◌, Option, none,
  some, ◌==◌, if◌then◌else◌, length, map,
}
use bluetooth_autonomous_car.Text.{Text, codes, same_text, starts_with, includes}
use bluetooth_autonomous_car.SelectBox.{OptionElement, Page, ◌>>=◌, add_to_cache, redisplay}

-- `replace` with a pattern of one character, everywhere.
pub replace_char : ℕ → Text → Text → Text
replace_char c t [] = []
replace_char c t (a ∷ s) = if a == c then t ++ replace_char c t s else a ∷ replace_char c t s

-- `replace` with a pattern that is a text, everywhere; `left` characters of a match are to be passed.
pub replace_text : Text → ℕ → ℕ → Text → Text
unfolding starts_with
replace_text t r left [] = []
replace_text t r (suc left) (a ∷ s) = replace_text t r left s
replace_text t r zero (a ∷ s) =
    let matched = replace_text t r (length t - 1) s in
    let plain = replace_text t r zero s in if starts_with t (a ∷ s) then r ∷ matched else a ∷ plain

abbrev pub dot_name : Text
dot_name = codes "__dot__"

abbrev pub dash_name : Text
dash_name = codes "__dash__"

pub id_to_windowname : Text → Text
unfolding replace_char
id_to_windowname text = replace_char b'-' dash_name (replace_char b'.' dot_name text)

pub windowname_to_id : Text → Text
unfolding replace_text
windowname_to_id text = replace_text dash_name b'-' 0 (replace_text dot_name b'.' 0 text)

-- `replace` with a pattern `^lead`.
remove_lead : Text → Text → Text
remove_lead [] s = s
remove_lead (a ∷ t) [] = []
remove_lead (a ∷ t) (c ∷ s) = remove_lead t s

pub without_lead : List Text → Text → Text
unfolding remove_lead
without_lead [] s = s
without_lead (t ∷ leads) s =
    let later = without_lead leads s in if starts_with t s then remove_lead t s else later

data PopupKind : Type 0 where
  lookup related : PopupKind

-- What `name_regexp` takes away.
leads_of : PopupKind → List Text
leads_of lookup = codes "lookup_" ∷ []
leads_of related = codes "change_" ∷ codes "add_" ∷ codes "delete_" ∷ []

-- The name and the address of the popup that a link opens.
popup_name : PopupKind → Text → Text
unfolding leads_of without_lead id_to_windowname
popup_name kind id = id_to_windowname (without_lead (leads_of kind) id)

popup_href : PopupKind → Text → Text
popup_href lookup href =
    if includes (codes "?") href then href ++ codes "&_popup=1" else href ++ codes "?_popup=1"
popup_href related href = href

-- The value of a field for raw ids after a choice; `multiple` is the class of a field for many.
pub chosen_value : Bool → Text → Text → Text
chosen_value multiple [] id = id
chosen_value multiple (c ∷ value) id = if multiple then (c ∷ value) ++ (b',' ∷ id) else id

-- A text input, with the class of a field for many or not.
pub record Input : Type 0 where
  pub multiple : Bool
  pub value : Text

pub choose_id : Text → Input → Input
unfolding chosen_value
choose_id id input = record input { value = chosen_value input.multiple input.value id }

-- The dismissal of a lookup, whose link stands beside an input; `none` is a TypeError, where the page
-- has no element of the name.
pub dismiss_related_lookup : Option Input → Text → Option Input
unfolding choose_id
dismiss_related_lookup none id = none
dismiss_related_lookup (some input) id = some (choose_id id input)

-- An element that a popup was opened for. A select allows several selections or it is a list that drops
-- down, with one; none of its options is disabled.
pub data Target : Type 0 where
  select_element : Bool → List OptionElement → Target
  input_element : Input → Target
  other_element : Target

abbrev pub unselected : OptionElement → OptionElement
unselected o = record o { selected = false }

-- A selected option at the end: where only one may be selected, the others are deselected.
pub append_option : Bool → OptionElement → List OptionElement → List OptionElement
append_option multiple o options =
    if multiple then options ++ (o ∷ []) else map unselected options ++ (o ∷ [])

pub add_to_target : Text → Text → Target → Target
unfolding choose_id append_option
add_to_target id repr (select_element multiple options) =
    select_element multiple
      (append_option multiple (record { value = id; text = repr; selected = true }) options)
add_to_target id repr (input_element input) = input_element (choose_id id input)
add_to_target id repr other_element = other_element

-- The dismissal after an object has been added; without the element, the chosen box of the selector
-- that has its name takes the object.
pub dismiss_add : Option Target → Text → Text → Text → Page → Option (Option Target × Page)
unfolding add_to_target windowname_to_id
dismiss_add (some target) window id repr p = some (some (add_to_target id repr target), p)
dismiss_add none window id repr p =
    let to_id = windowname_to_id window ++ codes "_to" in
    add_to_cache to_id (record { value = id; text = repr; selected = false }) p
    >>= redisplay to_id
    >>= λ p'. some (none, p')

-- The dismissals after a change and after a deletion, on the options of each select of the field.
pub change_options : Text → Text → Text → List OptionElement → List OptionElement
change_options old repr id [] = []
change_options old repr id (o ∷ options) =
    (if same_text o.value old then record o { value = id; text = repr } else o)
    ∷ change_options old repr id options

pub delete_options : Text → List OptionElement → List OptionElement
delete_options old [] = []
delete_options old (o ∷ options) =
    if same_text o.value old then delete_options old options else o ∷ delete_options old options

pub has_value : Text → List OptionElement → Bool
has_value old [] = false
has_value old (o ∷ options) = same_text o.value old || has_value old options

pub has_selected : List OptionElement → Bool
has_selected [] = false
has_selected (o ∷ options) = o.selected || has_selected options

pub select_first : List OptionElement → List OptionElement
select_first [] = []
select_first (o ∷ options) = record o { selected = true } ∷ options

-- The removals from a select. In a list that drops down, a removal that leaves no option selected
-- selects the first.
pub remove_options : Bool → Text → List OptionElement → List OptionElement
unfolding delete_options has_value has_selected select_first
remove_options multiple old options =
    let left = delete_options old options in
    if multiple || not (has_value old options) || has_selected left then left else select_first left
