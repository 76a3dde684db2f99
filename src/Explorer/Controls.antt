-- ===== src/Explorer/Controls.antt =====
-- api.js: the choice of how requests are authenticated, and the choice of a language for the code
-- that the page shows. `$control.find('[data-auth]')` has one item for each kind of authentication.
use bluetooth_autonomous_car.Prelude.{Bool, true, false, not, List, Option, none, some, map}
use bluetooth_autonomous_car.Text.{Text, codes, same_text}

-- `window.auth`, with null for none.
pub data Auth : Type 0 where
  null session : Auth
  token basic : Text → Text → Auth

pub data Kind : Type 0 where
  none_kind token_kind basic_kind session_kind : Kind

abbrev pub same_kind : Kind → Kind → Bool
same_kind none_kind none_kind = true
same_kind token_kind token_kind = true
same_kind basic_kind basic_kind = true
same_kind session_kind session_kind = true
same_kind _ _ = false

abbrev pub kind_name : Kind → Text
kind_name none_kind = codes "none"
kind_name token_kind = codes "token"
kind_name basic_kind = codes "basic"
kind_name session_kind = codes "session"

-- `modal` is whether the dialog of a kind is open.
pub record Controls : Type 0 where
  pub auth : Auth
  pub selected : Text
  pub active : Kind → Bool
  modal : Kind → Bool

-- The text of the control, and the class `active` taken off every item and put on one.
abbrev mark : Kind → Controls → Controls
mark kind c = record c { selected = kind_name kind; active = λ k. same_kind k kind }

abbrev hide_modal : Kind → Controls → Controls
hide_modal kind c = record c {
  modal = λ k. elim (same_kind k kind) [ true ↦ false | false ↦ c.modal k ];
}

unfoldable pub choose_none : Controls → Controls
choose_none c = mark none_kind (record c { auth = null })

unfoldable pub submit_token : Text → Text → Controls → Controls
submit_token scheme word c =
    hide_modal token_kind (mark token_kind (record c { auth = token scheme word }))

unfoldable pub submit_basic : Text → Text → Controls → Controls
submit_basic username password c =
    hide_modal basic_kind (mark basic_kind (record c { auth = basic username password }))

unfoldable pub submit_session : Controls → Controls
submit_session c = hide_modal session_kind (mark session_kind (record c { auth = session }))

-- The object of coreapi that a request authenticates itself by.
pub data Authentication : Type 0 where
  token_authentication : Text → Text → Authentication
  basic_authentication : Text → Text → Authentication
  session_authentication : Text → Text → Authentication

unfoldable pub authentication : Auth → Option Authentication
authentication null = none
authentication (token scheme word) = some (token_authentication scheme word)
authentication (basic username password) = some (basic_authentication username password)
authentication session = some (session_authentication (codes "csrftoken") (codes "X-CSRFToken"))

-- The page's items for languages, each with its class `active`, and its blocks of code, each with
-- its class `hide`.
record Languages : Type 0 where
  items : List (Text × Bool)
  pub selected : Text
  blocks : List (Text × Bool)

unfoldable choose_language : Text → Languages → Languages
choose_language language l = record {
  items = map (λ i. (i.0, same_text i.0 language)) l.items;
  selected = language;
  blocks = map (λ b. (b.0, not (same_text b.0 language))) l.blocks;
}
