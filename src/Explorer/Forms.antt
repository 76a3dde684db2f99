-- ===== src/Explorer/Forms.antt =====
-- api.js: the keys of an action, the entries of a form, and the parameters made of them. The readers
-- of numbers and of JSON belong to the language, and are parameters. The parameters are a list by
-- name, and fields that have a name of `Object.prototype` are left out.
use bluetooth_autonomous_car.Prelude.{
  Bool, true, false, ◌||◌, List, [], ◌∷◌, ◌++◌, Option, none, some, map, if◌then◌else◌,
}
use bluetooth_autonomous_car.Text.{is_empty, Text, codes, same_text, split_text}

unfoldable pub normalize_keys : List Text → List Text
normalize_keys [] = []
normalize_keys (key ∷ keys) = split_text (codes " > ") key ++ normalize_keys keys

-- What an entry holds: a text, or a file under its name.
pub data EntryValue : Type 0 where
  text file : Text → EntryValue

abbrev pub FormEntry : Type 0
FormEntry = Text × EntryValue

-- The elements of a form, by their type: a select with the values of its selected options.
pub data Control : Type 0 where
  files_control : List Text → Control
  select_control : List Text → Control
  checkbox : Bool → Text → Control
  plain : Text → Control

pub record ApiElement : Type 0 where
  pub name : Text
  pub control : Control

unfoldable control_entries : Text → Control → List FormEntry
control_entries name (files_control names) = map (λ f. (name, file f)) names
control_entries name (select_control values) = map (λ v. (name, text v)) values
control_entries name (checkbox checked value) = if checked then (name, text value) ∷ [] else []
control_entries name (plain value) = (name, text value) ∷ []

unfoldable polyfill_entries : List ApiElement → List FormEntry
unfolding control_entries
polyfill_entries [] = []
polyfill_entries (e ∷ elements) =
    let later = polyfill_entries elements in
    if is_empty e.name then later else control_entries e.name e.control ++ later

-- The browser's own entries, if it has them.
unfoldable form_entries : Option (List FormEntry) → List ApiElement → List FormEntry
form_entries (some entries) elements = entries
form_entries none elements = polyfill_entries elements

-- The values of parameters, over the numbers and the JSON values of the language. What an object
-- inherits under a name is `inherited`.
pub data Value (Number Json : Type 0) : Type 0 where
  number : Number → Value Number Json
  boolean : Bool → Value Number Json
  json : Json → Value Number Json
  string : EntryValue → Value Number Json
  inherited : Text → Value Number Json

pub record Readers (Number Json : Type 0) : Type 0 where
  pub parse_int : Text → Option Number
  pub parse_float : Text → Option Number
  pub parse_json : Text → Option Json
  pub lower : Text → Text

abbrev pub Params : Type 0 → Type 0 → Type 0
Params Number Json = List (Text × Value Number Json)

module _ {Number Json : Type 0} where
  unfoldable pub has_param : Text → Params Number Json → Bool
  has_param key [] = false
  has_param key ((k, v) ∷ params) = if same_text k key then true else has_param key params

  unfoldable pub set_param : Text → Value Number Json → Params Number Json → Params Number Json
  set_param key value [] = (key, value) ∷ []
  set_param key value ((k, v) ∷ params) =
      if same_text k key then (k, value) ∷ params else (k, v) ∷ set_param key value params

-- A file is read as the text that the language gives for it, and it counts as true.
abbrev pub text_of_value : EntryValue → Text
text_of_value (text s) = s
text_of_value (file f) = codes "[object File]"

module _ {Number Json : Type 0} where
  abbrev pub set_if_read :
      {A : Type 0}
      → Text
      → (A → Value Number Json)
      → Option A
      → Params Number Json
      → Params Number Json
  set_if_read key make none params = params
  set_if_read key make (some a) params = set_param key (make a) params

  -- What the object with the keys `true` and `false` has under a name in lower case.
  abbrev pub boolean_of : Text → Option (Value Number Json)
  boolean_of s =
      if same_text s (codes "true")
      then some (boolean true)
      else if same_text s (codes "false")
      then some (boolean false)
      else if same_text s (codes "constructor") || same_text s (codes "__proto__")
      then some (inherited s)
      else none

  -- The checkboxes that gave no entry.
  unfoldable pub add_unchecked : List Text → Params Number Json → Params Number Json
  unfolding has_param set_param
  add_unchecked [] params = params
  add_unchecked (name ∷ names) params =
      add_unchecked names
        (if has_param name params then params else set_param name (boolean false) params)

module _ {Number Json : Type 0} (readers : Readers Number Json) where
  -- `none` is the TypeError of `toLowerCase` on a file.
  unfoldable pub boolean_param :
      Text → EntryValue → Params Number Json → Option (Params Number Json)
  unfolding set_param
  boolean_param key (text s) params =
      some (set_if_read key (λ v. v) (boolean_of (readers.lower s)) params)
  boolean_param key (file f) params = none

  unfoldable pub add_param :
      Text → Text → EntryValue → Params Number Json → Option (Params Number Json)
  unfolding boolean_param set_param
  add_param type key value params =
      let s = text_of_value value in
      if is_empty s
      then some params
      else if same_text type (codes "integer")
      then some (set_if_read key number (readers.parse_int s) params)
      else if same_text type (codes "number")
      then some (set_if_read key number (readers.parse_float s) params)
      else if same_text type (codes "boolean")
      then boolean_param key value params
      else if same_text type (codes "array")
      then some (set_if_read key json (readers.parse_json s) params)
      else if same_text type (codes "object")
      then some (set_if_read key json (readers.parse_json s) params)
      else if same_text type (codes "string")
      then some (set_param key (string value) params)
      else some params

  -- `type_of` is the data type of the element with a name, `string` if it has none.
  unfoldable pub add_params :
      (Text → Text) → List FormEntry → Params Number Json → Option (Params Number Json)
  unfolding add_param
  add_params type_of [] params = some params
  add_params type_of ((key, value) ∷ entries) params =
      elim (add_param (type_of key) key value params) [
        | none ↦ none
        | some params' ↦ add_params type_of entries params'
      ]

  unfoldable pub form_params :
      (Text → Text) → List Text → List FormEntry → Option (Params Number Json)
  unfolding add_params add_unchecked
  form_params type_of checkboxes entries = elim (add_params type_of entries []) [
    | none ↦ none
    | some params ↦ some (add_unchecked checkboxes params)
  ]
