-- ===== src/Core/Pieces.antt =====
-- What `strftime` and `strptime` make of a format of three directives and two separators.
use bluetooth_autonomous_car.Prelude.{
  ℕ, ◌+◌, ◌≡◌, refl, ap, ◌∙◌, arith, Bool, true, false, [], ◌∷◌, ◌++◌, some, All, ltb, ◌==◌,
  if◌then◌else◌, ℤ, pos, negsuc, neg_part, pos_part, dec_lt, append_assoc,
}
use bluetooth_autonomous_car.JsDate.{civil, make_full_year, shifted_year, DateFields}
use bluetooth_autonomous_car.JsDate.Civil.{IsValid}
use bluetooth_autonomous_car.Text.{Text, dec, split, to_number, is_digit}
use bluetooth_autonomous_car.Text.Decimal.{
  to_number-dec, to_number-cons_zero, IsNumeral, dec-IsNumeral,
}
use bluetooth_autonomous_car.Text.Split.{split_one, split-append}
use bluetooth_autonomous_car.Core.{
  Moment, two_digits, get_two_digit_month, year_text, field, or_undefined, strftime, is_separator,
}

-- The orders of day, month and year in a numeric date format.
pub data Order : Type 0 where
  day_month_year day_year_month month_day_year month_year_day : Order
  year_month_day year_day_month : Order

abbrev pub three : ℕ → ℕ → ℕ → ℕ → ℕ → Text
three a s b s' c = b'%' ∷ a ∷ s ∷ b'%' ∷ b ∷ s' ∷ b'%' ∷ c ∷ []

-- The format with two separators, `%d/%m/%Y` and so on.
abbrev pub format : Order → ℕ → ℕ → Text
format day_month_year s s' = three b'd' s b'm' s' b'Y'
format day_year_month s s' = three b'd' s b'Y' s' b'm'
format month_day_year s s' = three b'm' s b'd' s' b'Y'
format month_year_day s s' = three b'm' s b'Y' s' b'd'
format year_month_day s s' = three b'Y' s b'm' s' b'd'
format year_day_month s s' = three b'Y' s b'd' s' b'm'

-- A calendar day, in a year that `Date` takes as it stands.
pub record HasDate (t : Moment) : Type 0 where
  pub common_era : neg_part t.full_year ≡ 0
  pub kept : make_full_year t.full_year ≡ t.full_year
  pub valid : IsValid (civil (shifted_year t.full_year) t.month t.date)

abbrev pub date_fields : Moment → DateFields
date_fields t = record { full_year = t.full_year; month = t.month; date = t.date }

pub to_number-two_digits : (n : ℕ) → to_number (two_digits n) ≡ some n
unfolding two_digits
to_number-two_digits n = elim (dec_lt n 10) [
  | yes p ↦ ground (arith, to_number-dec n, to_number-cons_zero (dec n))
  | no p ↦ ground (arith, to_number-dec n)
]

pub to_number-get_two_digit_month :
    (t : Moment) → to_number (get_two_digit_month t) ≡ some (t.month + 1)
unfolding get_two_digit_month
to_number-get_two_digit_month t =
    ground (arith, to_number-dec (t.month + 1), to_number-cons_zero (dec (t.month + 1)))

pub to_number-year_text : (y : ℤ) → neg_part y ≡ 0 → to_number (year_text y) ≡ some (pos_part y)
unfolding year_text
to_number-year_text (pos n) h = to_number-dec n
to_number-year_text (negsuc n) h = absurd (omega arith)

-- A text with no separator in it.
abbrev pub IsPiece : Text → Type 0
IsPiece s = All (λ c. is_separator c ≡ false) s

digit-is_separator : (c : ℕ) → is_digit c ≡ true → is_separator c ≡ false
unfolding is_separator
digit-is_separator c h = ground arith

IsNumeral-IsPiece : (s : Text) → IsNumeral s → IsPiece s
IsNumeral-IsPiece [] h = tt
IsNumeral-IsPiece (c ∷ s) h = (digit-is_separator c h.0, IsNumeral-IsPiece s h.1)

padded-IsPiece : (b : Bool) (s : Text) → IsNumeral s → IsPiece (if b then b'0' ∷ s else s)
unfolding is_separator
padded-IsPiece true s h = (refl, IsNumeral-IsPiece s h)
padded-IsPiece false s h = IsNumeral-IsPiece s h

pub two_digits-IsPiece : (n : ℕ) → IsPiece (two_digits n)
unfolding two_digits
two_digits-IsPiece n = padded-IsPiece (ltb n 10) (dec n) (dec-IsNumeral n)

pub month-IsPiece : (t : Moment) → IsPiece (get_two_digit_month t)
unfolding get_two_digit_month
month-IsPiece t = padded-IsPiece (ltb t.month 9) _ (dec-IsNumeral (t.month + 1))

pub year-IsPiece : (y : ℤ) → neg_part y ≡ 0 → IsPiece (year_text y)
unfolding year_text
year-IsPiece (pos n) h = IsNumeral-IsPiece _ (dec-IsNumeral n)
year-IsPiece (negsuc n) h = absurd (omega arith)

separator-percent : (s : ℕ) → is_separator s ≡ true → (s == b'%') ≡ false
unfolding is_separator
separator-percent s h = ground arith

-- The text of a directive.
abbrev pub shown : Moment → ℕ → Text
shown t c = or_undefined (field t c)

pub strftime-three :
    (t : Moment) (a b c s s' : ℕ)
    → is_separator s ≡ true
    → is_separator s' ≡ true
    → strftime t (three a s b s' c) ≡ shown t a ++ (s ∷ (shown t b ++ (s' ∷ shown t c)))
unfolding strftime
strftime-three t a b c s s' h h' =
    rw (separator-percent s h, separator-percent s' h') (simp append_assoc)

pub split-three :
    (u v w : Text) (s s' : ℕ)
    → is_separator s ≡ true
    → is_separator s' ≡ true
    → IsPiece u
    → IsPiece v
    → IsPiece w
    → split is_separator (u ++ (s ∷ (v ++ (s' ∷ w)))) ≡ u ∷ v ∷ w ∷ []
split-three u v w s s' h h' pu pv pw =
    split-append is_separator u s _ pu h
    ∙ ap (u ∷◌) (split-append is_separator v s' _ pv h' ∙ ap (v ∷◌) (split_one is_separator w pw))
