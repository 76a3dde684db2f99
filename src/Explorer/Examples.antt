-- ===== src/Explorer/Examples.antt =====
-- The API page's theorems on small pages, and runs of its functions.
use bluetooth_autonomous_car.Prelude.{
  ℕ, ◌≡◌, refl, true, false, List, [], ◌∷◌, none, some, if◌then◌else◌,
}
use bluetooth_autonomous_car.Text.{Text, codes, same_text, split_text}
use bluetooth_autonomous_car.Explorer.Forms.{
  FormEntry, text, Readers, Params, form_params, normalize_keys,
}
use bluetooth_autonomous_car.Explorer.Named.{AllParams, HasAll}
use bluetooth_autonomous_car.Explorer.Params.{FitsForm, form_params-AllParams}
use bluetooth_autonomous_car.Explorer.Answers.{
  data_view, raw_view, Panel, ApiPage, ApiEvent, settled, toggled, normalize_http_header,
}
use bluetooth_autonomous_car.Explorer.Views.{run, Agrees, run-Agrees}

keys_apart :
    normalize_keys (codes "users > list" ∷ codes "all" ∷ [])
    ≡ codes "users" ∷ codes "list" ∷ codes "all" ∷ []
unfolding normalize_keys split_text
keys_apart = refl

capital : Text → Text
capital s = if same_text s (codes "m") then codes "M" else s

header_name : normalize_http_header capital (codes "mD-Xss") ≡ codes "MD-XSS"
unfolding normalize_http_header capital
header_name = refl

-- Numbers are read as 7, and JSON not at all.
abbrev readers : Readers ℕ ℕ
readers = record {
  parse_int = λ s. some 7;
  parse_float = λ s. none;
  parse_json = λ s. none;
  lower = λ s. s;
}

abbrev type_of : Text → Text
type_of name = if same_text name (codes "id") then codes "integer" else codes "boolean"

abbrev entries : List FormEntry
entries = (codes "id", text (codes "7")) ∷ (codes "old", text (codes "true")) ∷ []

abbrev boxes : List Text
boxes = codes "old" ∷ codes "new" ∷ []

form_params-AllParams_example :
    (params : Params ℕ ℕ) × (form_params readers type_of boxes entries ≡ some params)
    × AllParams (FitsForm type_of boxes) params
    × HasAll boxes params
form_params-AllParams_example = form_params-AllParams readers type_of boxes entries (tt, (tt, tt))

abbrev panel : Panel
panel = record {
  method = [];
  url = [];
  toggle_hidden = false;
  success = false;
  danger = false;
  status_code = [];
  meta_hidden = false;
  raw_response = [];
  awaiting_hidden = false;
  raw_hidden = true;
  data_hidden = true;
  shown_data = [];
  button = data_view;
}

abbrev page : ApiPage
page = record { display = data_view; panels = λ _. panel }

panel-Agrees : Agrees data_view panel
panel-Agrees = record { highlighted = refl; data_shown = λ e. cc; raw_shown = λ e. cc }

abbrev events : List ApiEvent
events = settled 0 (codes "1") ∷ settled 1 (codes "2") ∷ toggled 0 raw_view ∷ []

run-Agrees_example : Agrees (run (λ s. s) events page).display ((run (λ s. s) events page).panels 0)
run-Agrees_example = run-Agrees (λ s. s) 0 events page (tt, (tt, (refl, tt))) panel-Agrees
