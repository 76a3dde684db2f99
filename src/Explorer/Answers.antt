-- ===== src/Explorer/Answers.antt =====
-- api.js: what the page shows of a request and of its response. Each form of the page is in a
-- dialog of its own, a `Panel`; `responseDisplay` is one for the page.
use bluetooth_autonomous_car.Prelude.{
  ℕ, Bool, ◌||◌, true, false, not, List, [], ◌∷◌, ◌++◌, ◌==◌, if◌then◌else◌, ◌&&◌,
}
use bluetooth_autonomous_car.Text.{Text, codes, same_text, dec}

-- `replace` with a word of three characters.
unfoldable replace_three : Text → Text → Text → Text
replace_three word by [] = []
replace_three word by (a ∷ []) = a ∷ []
replace_three word by (a ∷ b ∷ []) = a ∷ b ∷ []
replace_three word by (a ∷ b ∷ c ∷ s) =
    let after = by ++ replace_three word by s in
    let next = a ∷ replace_three word by (b ∷ c ∷ s) in
    if same_text (a ∷ b ∷ c ∷ []) word then after else next

-- The end of a line, which `.` does not match.
abbrev is_line_end : ℕ → Bool
is_line_end c = (c == 10) || (c == 13) || (c == 8232) || (c == 8233)

-- `replace(/-(.)/g, ...)`: a dash and the character after it, in upper case.
unfoldable upper_after_dashes : (Text → Text) → Text → Text
upper_after_dashes upper [] = []
upper_after_dashes upper (a ∷ []) = a ∷ []
upper_after_dashes upper (a ∷ b ∷ s) =
    let after = upper (a ∷ b ∷ []) ++ upper_after_dashes upper s in
    let next = a ∷ upper_after_dashes upper (b ∷ s) in
    if (a == b'-') && not (is_line_end b) then after else next

abbrev upper_first : (Text → Text) → Text → Text
upper_first upper [] = []
upper_first upper (c ∷ s) = upper (c ∷ []) ++ s

unfoldable pub normalize_http_header : (Text → Text) → Text → Text
unfolding upper_after_dashes replace_three
normalize_http_header upper s = replace_three (codes "Md5") (codes "MD5") (
    replace_three (codes "Xss") (codes "XSS")
      (replace_three (codes "Www") (codes "WWW") (upper_after_dashes upper (upper_first upper s))))

pub data View : Type 0 where
  data_view raw_view : View

-- The link element that reads the address of a request.
pub record Address : Type 0 where
  pathname : Text
  hash : Text
  pub search : Text

pub record Response : Type 0 where
  ok : Bool
  status : ℕ
  status_text : Text
  headers : List (Text × Text)

-- What is hidden of a dialog, and what it says. `button` is the highlighted one of the two that
-- choose the view.
pub record Panel : Type 0 where
  pub method : Text
  pub url : Text
  pub toggle_hidden : Bool
  pub success : Bool
  pub danger : Bool
  pub status_code : Text
  pub meta_hidden : Bool
  pub raw_response : Text
  pub awaiting_hidden : Bool
  pub raw_hidden : Bool
  pub data_hidden : Bool
  pub shown_data : Text
  pub button : View

unfoldable pub request_callback : Text → Address → Panel → Panel
request_callback method parser panel = record panel {
  method = method;
  url = parser.pathname ++ (parser.hash ++ parser.search);
}

unfoldable header_lines : (Text → Text) → List (Text × Text) → Text
unfolding normalize_http_header
header_lines upper [] = []
header_lines upper ((key, header) ∷ headers) =
    normalize_http_header upper key
    ++ (codes ": " ++ (header ++ (codes "\n" ++ header_lines upper headers)))

abbrev response_body : Text → Text
response_body [] = []
response_body (c ∷ s) = 10 ∷ c ∷ s

unfoldable panel_text : (Text → Text) → Response → Text → Text
unfolding header_lines
panel_text upper response response_text =
    codes "HTTP/1.1 "
    ++ (dec response.status
        ++ (codes " "
            ++ (response.status_text
                ++ (codes "\n"
                    ++ (header_lines upper response.headers ++ response_body response_text)))))

unfoldable pub response_callback : (Text → Text) → Response → Text → Panel → Panel
unfolding panel_text
response_callback upper response response_text panel = record panel {
  toggle_hidden = false;
  success = response.ok;
  danger = not response.ok;
  status_code = dec response.status;
  meta_hidden = false;
  raw_response = panel_text upper response response_text;
}

abbrev pub is_data : View → Bool
is_data data_view = true
is_data raw_view = false

-- The request has an answer, or has failed: both handlers show the JSON text of what they are given.
unfoldable pub settle_panel : View → Text → Panel → Panel
settle_panel display json panel = record panel {
  awaiting_hidden = true;
  shown_data = json;
  data_hidden = not (is_data display);
  raw_hidden = is_data display;
}

-- One of the two buttons is clicked; the first result is the page's `responseDisplay`.
unfoldable pub toggle_view : View → Panel → View × Panel
toggle_view view panel = (
  view,
  record panel { button = view; raw_hidden = is_data view; data_hidden = not (is_data view) },
)

-- The dialogs of a page by number.
pub record ApiPage : Type 0 where
  pub display : View
  pub panels : ℕ → Panel

abbrev pub set_panel : (ℕ → Panel) → ℕ → Panel → ℕ → Panel
set_panel panels i panel j = if j == i then panel else panels j

pub data ApiEvent : Type 0 where
  requested : ℕ → Text → Address → ApiEvent
  responded : ℕ → Response → Text → ApiEvent
  settled : ℕ → Text → ApiEvent
  toggled : ℕ → View → ApiEvent

unfoldable pub happen : (Text → Text) → ApiEvent → ApiPage → ApiPage
unfolding request_callback response_callback settle_panel toggle_view
happen upper (requested i method parser) p = record p {
  panels = set_panel p.panels i (request_callback method parser (p.panels i));
}
happen upper (responded i response response_text) p = record p {
  panels = set_panel p.panels i (response_callback upper response response_text (p.panels i));
}
happen upper (settled i json) p = record p {
  panels = set_panel p.panels i (settle_panel p.display json (p.panels i));
}
happen upper (toggled i view) p =
    let (display, panel) = toggle_view view (p.panels i) in
    record p { display = display; panels = set_panel p.panels i panel }
