-- ===== src/Core.antt =====
-- static/admin/js/core.js: the extensions of `Date` and of `String`. The texts that the browser
-- makes in its own way (`toString`, `toLocaleDateString`, `toLocaleTimeString`) and the names of
-- the months, if calendar.js is loaded, are fields of `Moment`.
pub mod Examples
pub mod Pieces
pub mod Fields
pub mod RoundTrip
pub mod Century
use bluetooth_autonomous_car.Prelude.{
  ℕ, zero, suc, ◌+◌, ◌-◌, ◌*◌, ◌/◌, ◌%◌, Bool, true, false, ◌&&◌, ◌||◌, List, [], ◌∷◌, ◌++◌, Option,
  none, some, ◌==◌, ltb, leb, if◌then◌else◌, get_elem?, drop, take, ℤ, pos, negsuc, ◌+ℤ◌, ◌-ℤ◌,
  pos_part,
}
use bluetooth_autonomous_car.JsDate.{
  CivilDay, civil_of_day, make_day, make_full_year, shifted_year, unshifted_year, DateFields,
}
use bluetooth_autonomous_car.Text.{Text, codes, dec, same_text, split, to_number}

-- A `Date` as the scripts read it, in local time: `month` from 0, `day` the weekday.
pub record Moment : Type 0 where
  pub full_year : ℤ
  pub month : ℕ
  pub date : ℕ
  pub hours : ℕ
  pub minutes : ℕ
  pub seconds : ℕ
  pub day : ℕ
  pub text : Text
  pub locale_date : Text
  pub locale_time : Text
  pub month_names : Option (List Text)

-- A getter's number, as it stands in a string.
pub two_digits : ℕ → Text
two_digits n = if ltb n 10 then b'0' ∷ dec n else dec n

-- `this.getHours() % 12 || 12`.
pub get_twelve_hours : Moment → ℕ
get_twelve_hours t = if t.hours % 12 == 0 then 12 else t.hours % 12

pub get_two_digit_month : Moment → Text
get_two_digit_month t = if ltb t.month 9 then b'0' ∷ dec (t.month + 1) else dec (t.month + 1)

pub get_two_digit_date : Moment → Text
unfolding two_digits
get_two_digit_date t = two_digits t.date

pub get_two_digit_twelve_hour : Moment → Text
unfolding two_digits get_twelve_hours
get_two_digit_twelve_hour t = two_digits (get_twelve_hours t)

pub get_two_digit_hour : Moment → Text
unfolding two_digits
get_two_digit_hour t = two_digits t.hours

pub get_two_digit_minute : Moment → Text
unfolding two_digits
get_two_digit_minute t = two_digits t.minutes

pub get_two_digit_second : Moment → Text
unfolding two_digits
get_two_digit_second t = two_digits t.seconds

abbrev pub undefined_text : Text
undefined_text = codes "undefined"

abbrev pub or_undefined : Option Text → Text
or_undefined none = undefined_text
or_undefined (some s) = s

pub get_full_month_name : Moment → Text
unfolding get_two_digit_month
get_full_month_name t = elim t.month_names [
  | none ↦ get_two_digit_month t
  | some names ↦ or_undefined (get_elem? names t.month)
]

-- `'' + year`.
unfoldable pub year_text : ℤ → Text
year_text (pos n) = dec n
year_text (negsuc n) = b'-' ∷ dec (suc n)

-- The table `fields` of `strftime`, at a character; another character has no entry.
pub field : Moment → ℕ → Option Text
unfolding get_full_month_name get_two_digit_date get_two_digit_hour get_two_digit_twelve_hour
    get_two_digit_month get_two_digit_minute get_two_digit_second year_text
field t c =
    if c == b'B'
    then some (get_full_month_name t)
    else if c == b'c'
    then some t.text
    else if c == b'd'
    then some (get_two_digit_date t)
    else if c == b'H'
    then some (get_two_digit_hour t)
    else if c == b'I'
    then some (get_two_digit_twelve_hour t)
    else if c == b'm'
    then some (get_two_digit_month t)
    else if c == b'M'
    then some (get_two_digit_minute t)
    else if c == b'p'
    then some (if leb 12 t.hours then codes "PM" else codes "AM")
    else if c == b'S'
    then some (get_two_digit_second t)
    else if c == b'w'
    then some (b'0' ∷ dec t.day)
    else if c == b'x'
    then some t.locale_date
    else if c == b'X'
    then some t.locale_time
    else if c == b'y'
    then some (take 4 (drop 2 (year_text t.full_year)))
    else if c == b'Y'
    then some (year_text t.full_year)
    else if c == b'%'
    then some (b'%' ∷ [])
    else none

-- The loop of `strftime`, over what is left of the format. A `%` at its end reads past it, and
-- the text of a missing entry is "undefined".
pub strftime_from : Moment → Text → Text → Text
unfolding field
strftime_from t result [] = result
strftime_from t result (c ∷ []) = if c == b'%' then result ++ undefined_text else result ++ (c ∷ [])
strftime_from t result (c ∷ d ∷ rest) =
    let directive = strftime_from t (result ++ or_undefined (field t d)) rest in
    let plain = strftime_from t (result ++ (c ∷ [])) (d ∷ rest) in
    if c == b'%' then directive else plain

pub strftime : Moment → Text → Text
unfolding strftime_from
strftime t format = strftime_from t [] format

-- The class `[.\-/]`.
unfoldable pub is_separator : ℕ → Bool
is_separator c = (c == b'.') || (c == b'-') || (c == b'/')

-- The variables of `strptime`: `none` is undefined, or NaN for the month.
pub record Parts : Type 0 where
  pub day : Option ℕ
  pub month : Option ℤ
  pub year : Option ℕ

abbrev pub number_at : List Text → ℕ → Option ℕ
number_at texts i = elim (get_elem? texts i) [ none ↦ none | some s ↦ to_number s ]

pub minus_one : Option ℕ → Option ℤ
minus_one none = none
minus_one (some n) = some (pos n -ℤ pos 1)

-- One round of the loop: the `switch` on a part of the format. `Date.UTC` converts the texts of the
-- day and of the year; the conversion is made here.
pub read_part : List Text → Text → ℕ → Parts → Parts
unfolding minus_one
read_part texts directive i p =
    if same_text directive (codes "%d")
    then record p { day = number_at texts i }
    else if same_text directive (codes "%m")
    then record p { month = minus_one (number_at texts i) }
    else if same_text directive (codes "%Y")
    then record p { year = number_at texts i }
    else if same_text directive (codes "%y")
    then record p { year = number_at texts i }
    else p

pub read_parts : List Text → List Text → ℕ → Parts → Parts
unfolding read_part
read_parts texts [] i p = p
read_parts texts (directive ∷ rest) i p =
    read_parts texts rest (i + 1) (read_part texts directive i p)

-- `Date.UTC(year, month, day)`, a day number; months before January borrow from the year.
pub date_utc : ℤ → ℤ → ℕ → ℕ
date_utc year month day =
    let months = pos_part (pos (12 * shifted_year (make_full_year year)) +ℤ month) in
    make_day (months / 12) (months % 12) day

-- The fields that the UTC getters read of the date; a missing part makes an invalid date.
pub utc_fields : Parts → Option DateFields
unfolding date_utc
utc_fields p = elim p.day [
  | none ↦ none
  | some day ↦ elim p.month [
    | none ↦ none
    | some month ↦ elim p.year [
      | none ↦ none
      | some year ↦
          let c = civil_of_day (date_utc (pos year) month day) in
          some (record { full_year = unshifted_year c.year; month = c.month; date = c.date })
    ]
  ]
]

pub strptime : Text → Text → Option DateFields
unfolding read_parts utc_fields is_separator
strptime s format = utc_fields (
    read_parts (split is_separator s) (split is_separator format) 0
      (record { day = none; month = none; year = none }))
