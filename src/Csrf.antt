-- ===== src/Csrf.antt =====
-- static/rest_framework/js/csrf.js: the cookie of the token, and which requests carry it.
-- `document.cookie` and `document.location` are arguments. `trim` is jQuery's and `decode` is
-- `decodeURIComponent`, `none` for its URIError.
pub mod Cookies
pub mod Origins
pub mod Examples
use bluetooth_autonomous_car.Prelude.{
  ℕ, suc, Bool, true, false, not, ◌&&◌, ◌||◌, List, [], ◌∷◌, ◌++◌, Option, none, some, ◌==◌,
  if◌then◌else◌, take, drop, length,
}
use bluetooth_autonomous_car.Text.{Text, codes, same_text, split, starts_with}

abbrev pub semicolon : ℕ → Bool
semicolon c = c == b';'

-- What `getCookie` returns: null, or a value.
abbrev found : Option Text → Option (Option Text)
found none = none
found (some s) = some (some s)

-- The loop over the cookies.
pub find_cookie : (Text → Text) → (Text → Option Text) → Text → List Text → Option (Option Text)
find_cookie trim decode name [] = some none
find_cookie trim decode name (c ∷ cookies) =
    let later = find_cookie trim decode name cookies in
    let cookie = trim c in
    if same_text (take (suc (length name)) cookie) (name ++ (b'=' ∷ []))
    then found (decode (drop (suc (length name)) cookie))
    else later

pub get_cookie : (Text → Text) → (Text → Option Text) → Text → Text → Option (Option Text)
unfolding find_cookie
get_cookie trim decode name [] = some none
get_cookie trim decode name (c ∷ cookie) =
    find_cookie trim decode name (split semicolon (c ∷ cookie))

pub csrf_safe_method : Text → Bool
csrf_safe_method method =
    same_text method (codes "GET")
    || same_text method (codes "HEAD")
    || same_text method (codes "OPTIONS")
    || same_text method (codes "TRACE")

-- `document.location`.
pub record Location : Type 0 where
  pub protocol : Text
  pub host : Text

-- The URL is the origin, or goes on from it with a slash.
pub at_origin : Text → Text → Bool
at_origin url origin =
    same_text url origin || same_text (take (suc (length origin)) url) (origin ++ (b'/' ∷ []))

-- The pattern `^(\/\/|http:|https:).*`.
pub is_absolute : Text → Bool
is_absolute url =
    starts_with (codes "//") url
    || starts_with (codes "http:") url
    || starts_with (codes "https:") url

pub same_origin : Location → Text → Bool
unfolding at_origin is_absolute
same_origin location url =
    let sr_origin = codes "//" ++ location.host in
    let origin = location.protocol ++ sr_origin in
    at_origin url origin || at_origin url sr_origin || not (is_absolute url)

-- Whether `beforeSend` sets the header with the token.
pub sends_token : Location → Text → Text → Bool
unfolding csrf_safe_method same_origin
sends_token location method url = not (csrf_safe_method method) && same_origin location url
