-- ===== src/AjaxForm.antt =====
-- static/rest_framework/js/ajax-form.js: which submits of a form of the browsable API become
-- requests of the script's own, what these send, and what becomes of the answer. What jQuery reads
-- from the form is the record `SubmittedForm`, `none` where it gives undefined; `upper` and `lower` are
-- `toUpperCase` and `toLowerCase`. A FormData object is left whole.
pub mod Group
pub mod Boundary
pub mod LineEnds
pub mod Requests
pub mod Examples
use bluetooth_autonomous_car.Prelude.{
  ℕ, zero, suc, Bool, true, false, ◌&&◌, ◌||◌, not, List, [], ◌∷◌, ◌++◌, Option, none, some, ◌==◌,
  leb, if◌then◌else◌,
}
use bluetooth_autonomous_car.Text.{is_empty, Text, codes, same_text, is_space, starts_with}

pub record SubmittedForm : Type 0 where
  pub data_method : Option Text
  pub attr_method : Option Text
  pub override_input : Option Text
  pub override_select : Text
  pub content : Option Text
  pub action : Option Text
  pub enctype : Option Text
  pub encoding : Option Text
  pub serialized : Text

-- `a || b`, of a text that may be undefined: the empty text counts as false, too.
abbrev pub or_text : Option Text → Text → Text
or_text none other = other
or_text (some []) other = other
or_text (some (c ∷ s)) other = c ∷ s

-- The method of the button that was clicked, which `captureSubmittingElement` keeps.
unfoldable pub submit_method : (Text → Text) → Option Text → SubmittedForm → Text
submit_method upper button form =
    upper (or_text button (or_text form.data_method (or_text form.attr_method (codes "GET"))))

unfoldable pub override_type : SubmittedForm → Text
override_type form = or_text form.override_input form.override_select

-- The classes of the pattern for a boundary, letters of both cases.
unfoldable pub is_boundary_no_space : ℕ → Bool
is_boundary_no_space c =
    leb b'0' c && leb c b'9'
    || leb b'A' c && leb c b'Z'
    || leb b'a' c && leb c b'z'
    || (c == 39)
    || (c == b'(')
    || (c == b')')
    || (c == b'+')
    || (c == b'_')
    || leb b',' c && leb c b'.'
    || (c == b'/')
    || (c == b':')
    || (c == b'=')
    || (c == b'?')

unfoldable pub is_boundary : ℕ → Bool
unfolding is_boundary_no_space
is_boundary c = is_boundary_no_space c || (c == b' ')

-- The characters that end a line for `^` and `$`.
unfoldable pub ends_a_line : ℕ → Bool
ends_a_line c = (c == 10) || (c == 13) || (c == 8232) || (c == 8233)

-- `[\s]*?$`: nothing but white space up to the end of a line.
unfoldable pub blank_to_end : Text → Bool
unfolding ends_a_line
blank_to_end [] = true
blank_to_end (c ∷ s) = ends_a_line c || is_space c && blank_to_end s

-- `([...]{0,n}[...])[\s]*?$`: the longest group first, as the pattern's search goes.
unfoldable pub match_group : ℕ → Text → Option Text
unfolding is_boundary blank_to_end
match_group n [] = none
match_group n (c ∷ s) =
    let last = if is_boundary_no_space c && blank_to_end s then some (c ∷ []) else none in
    elim n [
      | zero ↦ last
      | suc m ↦ elim (if is_boundary c then match_group m s else none) [
        | none ↦ last
        | some group ↦ some (c ∷ group)
      ]
    ]

unfoldable pub match_dashes : Text → Option Text
unfolding match_group
match_dashes [] = none
match_dashes (_ ∷ []) = none
match_dashes (a ∷ b ∷ s) = if (a == b'-') && (b == b'-') then match_group 69 s else none

-- The first match of the pattern, its group; whether a line starts here is the argument.
unfoldable pub find_boundary : Bool → Text → Option Text
unfolding match_dashes ends_a_line
find_boundary at_start [] = none
find_boundary at_start (c ∷ s) =
    let later = find_boundary (ends_a_line c) s in
    elim (if at_start then match_dashes (c ∷ s) else none) [ none ↦ later | some b ↦ some b ]

-- `replace(/\n/g, '\r\n')`.
unfoldable pub with_carriage_returns : Text → Text
with_carriage_returns [] = []
with_carriage_returns (c ∷ s) =
    if c == 10 then 13 ∷ 10 ∷ with_carriage_returns s else c ∷ with_carriage_returns s

pub data Body : Type 0 where
  text_body : Text → Body
  form_data : Body

-- A content type of `none` is the script's false: the browser sets it.
pub record Request : Type 0 where
  pub url : Option Text
  pub method : Text
  pub body : Body
  pub content_type : Option Text

-- The standard submit goes on; or the script makes a request; or it has none to make, and says so.
pub data Outcome : Type 0 where
  standard : Outcome
  requested : Request → Outcome
  unsupported : Outcome

abbrev pub multipart : Text
multipart = codes "multipart/form-data"

unfoldable pub boundary_header : Text → Text
unfolding find_boundary
boundary_header content = elim (find_boundary true content) [
  | none ↦ []
  | some b ↦ codes "; boundary=\"" ++ (b ++ codes "\"")
]

-- The request with an overridden content type.
unfoldable pub override_request : Text → Text → SubmittedForm → Request
unfolding boundary_header with_carriage_returns
override_request method content_type form =
    let content = or_text form.content [] in
    if same_text content_type multipart
    then record {
      url = form.action;
      method = method;
      body = text_body (with_carriage_returns content);
      content_type = some (content_type ++ boundary_header content);
    }
    else record {
      url = form.action;
      method = method;
      body = text_body content;
      content_type = some content_type;
    }

unfoldable form_request : Bool → Text → SubmittedForm → Outcome
form_request has_form_data method form =
    if same_text (or_text form.enctype (or_text form.encoding [])) multipart
    then (if has_form_data
        then requested
            (record { url = form.action; method = method; body = form_data; content_type = none })
        else unsupported)
    else requested (record {
      url = form.action;
      method = method;
      body = text_body form.serialized;
      content_type = some (codes "application/x-www-form-urlencoded; charset=UTF-8");
    })

unfoldable pub do_ajax_submit : (Text → Text) → Bool → Option Text → SubmittedForm → Outcome
unfolding submit_method override_type override_request form_request
do_ajax_submit upper has_form_data button form =
    let method = submit_method upper button form in
    let content_type = override_type form in
    if same_text method (codes "GET")
    then standard
    else if same_text method (codes "POST") && is_empty content_type
    then standard
    else if is_empty content_type
    then form_request has_form_data method form
    else requested (override_request method content_type form)

-- What becomes of the answer: the document, and where the page is.
pub data Shown : Type 0 where
  replaced : Text → Option Text → Shown
  redirected : Option Text → Shown

-- `history` is whether the browser has `history.replaceState`; without it the page is left after all.
unfoldable pub always : (Text → Text) → Bool → Request → Option Text → Text → Shown
always lower history request response_type response_text =
    if starts_with (codes "text/html") (lower (or_text response_type []))
    then (if history then replaced response_text request.url else redirected request.url)
    else redirected request.url
