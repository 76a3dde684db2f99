-- ===== src/Shortcuts/Formats.antt =====
-- The days and the formats that the calendar writes and reads.
use bluetooth_autonomous_car.Prelude.{
  ℕ, ◌+◌, ◌/◌, ◌%◌, ◌≤◌, ◌<◌, ◌≡◌, subst, All, refl, ap, sym, ◌∙◌, arith, true, false, [], ◌∷◌,
  ◌==◌, pos, ◌+ℤ◌, ◌-ℤ◌,
}
use bluetooth_autonomous_car.JsDate.{
  DateFields, civil, make_day, make_full_year, shifted_year, unshifted_year,
}
use bluetooth_autonomous_car.JsDate.Civil.{IsValid, civil_of_day-make_day}
use bluetooth_autonomous_car.Text.{Text, dec, is_digit}
use bluetooth_autonomous_car.Text.Decimal.{dec_four}
use bluetooth_autonomous_car.Core.{is_separator}
use bluetooth_autonomous_car.Core.Pieces.{
  Order, day_month_year, day_year_month, month_day_year, month_year_day, year_month_day,
  year_day_month, three, format, HasDate,
}
use bluetooth_autonomous_car.Shortcuts.{
  Browser, Time, moment, fields_of, has_four_digits, replace_first, escape_format,
}

-- A day of a year of four digits.
pub record IsDay (year month date : ℕ) : Type 0 where
  pub four_digits : 1000 ≤ year
  pub at_most : year < 10000
  pub valid : IsValid (civil (400000 + year) month date)

abbrev pub day_fields : ℕ → ℕ → ℕ → DateFields
day_fields year month date = record { full_year = pos year; month = month; date = date }

pub shifted_pos : (y : ℕ) → shifted_year (pos y) ≡ 400000 + y
unfolding ◌+ℤ◌
shifted_pos y = ground arith

unshifted_pos : (y : ℕ) → unshifted_year (400000 + y) ≡ pos y
unfolding ◌-ℤ◌
unshifted_pos y = ground arith

pub kept_pos : (y : ℕ) → 1000 ≤ y → make_full_year (pos y) ≡ pos y
unfolding make_full_year
kept_pos y h = ground arith

-- `new Date` of a day has that day's fields.
pub fields_of-make_day :
    (y m d : ℕ)
    → IsDay y m d
    → fields_of (make_day (shifted_year (make_full_year (pos y))) m d) ≡ day_fields y m d
unfolding fields_of
fields_of-make_day y m d h =
    rw
      (
        kept_pos y h.four_digits,
        shifted_pos y,
        civil_of_day-make_day (civil (400000 + y) m d) h.valid,
        unshifted_pos y,
      )
      refl

pub moment-HasDate :
    (b : Browser) (y m d : ℕ) (time : Time)
    → IsDay y m d
    → HasDate (moment b (day_fields y m d) time)
unfolding moment
moment-HasDate b y m d time h = record {
  common_era = refl;
  kept = kept_pos y h.four_digits;
  valid = subst (λ n. IsValid (civil n m d)) (sym (shifted_pos y)) h.valid;
}

-- The escapes leave a format of letters and separators as it is.
abbrev Safe : ℕ → Type 0
Safe a =
    ((a == b'\\') ≡ false)
    × ((a == b'\r') ≡ false)
    × ((a == b'\n') ≡ false)
    × ((a == b'\t') ≡ false)
    × ((a == b'\'') ≡ false)

replace_first-none :
    (c d : ℕ) (s : Text)
    → ((a : ℕ) → Safe a → (a == c) ≡ false)
    → All Safe s
    → replace_first c d s ≡ s
unfolding replace_first
replace_first-none c d [] f h = refl
replace_first-none c d (a ∷ s) f h = rw (f a h.0) (ap (a ∷◌) (replace_first-none c d s f h.1))

escape_format_lem : (s : Text) → All Safe s → escape_format s ≡ s
unfolding escape_format
escape_format_lem s h =
    rw
      (
        replace_first-none b'\\' b'\\' s (λ a g. g.0) h,
        replace_first-none b'\r' b'r' s (λ a g. g.1) h,
        replace_first-none b'\n' b'n' s (λ a g. g.2) h,
        replace_first-none b'\t' b't' s (λ a g. g.3) h,
      )
      (replace_first-none b'\'' b'\'' s (λ a g. g.4) h)

separator-Safe : (s : ℕ) → is_separator s ≡ true → Safe s
unfolding is_separator
separator-Safe s h = (ground arith, ground arith, ground arith, ground arith, ground arith)

pub letter : Safe b'%' × Safe b'd' × Safe b'm' × Safe b'Y'
letter = (
  (refl, refl, refl, refl, refl),
  (refl, refl, refl, refl, refl),
  (refl, refl, refl, refl, refl),
  (refl, refl, refl, refl, refl),
)

format-Safe : (o : Order) (s s' : ℕ) → Safe s → Safe s' → All Safe (format o s s')
format-Safe o s s' h h' = of_order o
  where
    three_safe : (a b c : ℕ) → Safe a → Safe b → Safe c → All Safe (three a s b s' c)
    three_safe a b c ha hb hc = (letter.0, (ha, (h, (letter.0, (hb, (h', (letter.0, (hc, tt))))))))

    of_order : (o : Order) → All Safe (format o s s')
    of_order day_month_year = three_safe b'd' b'm' b'Y' letter.1 letter.2 letter.3
    of_order day_year_month = three_safe b'd' b'Y' b'm' letter.1 letter.3 letter.2
    of_order month_day_year = three_safe b'm' b'd' b'Y' letter.2 letter.1 letter.3
    of_order month_year_day = three_safe b'm' b'Y' b'd' letter.2 letter.3 letter.1
    of_order year_month_day = three_safe b'Y' b'm' b'd' letter.3 letter.2 letter.1
    of_order year_day_month = three_safe b'Y' b'd' b'm' letter.3 letter.1 letter.2

pub escape_format-format :
    (o : Order) (s s' : ℕ)
    → is_separator s ≡ true
    → is_separator s' ≡ true
    → escape_format (format o s s') ≡ format o s s'
escape_format-format o s s' e e' =
    escape_format_lem _ (format-Safe o s s' (separator-Safe s e) (separator-Safe s' e'))

-- A year of four digits is written with four.
pub digit_is_digit : (n : ℕ) → n < 10 → is_digit (48 + n) ≡ true
digit_is_digit n h = ground arith

pub has_four_digits-dec : (y : ℕ) → 1000 ≤ y → y < 10000 → has_four_digits 0 (dec y) ≡ true
unfolding has_four_digits
has_four_digits-dec y lo hi =
    ap (has_four_digits 0) (dec_four y lo hi)
    ∙ four (48 + y / 10 / 10 / 10) (48 + y / 10 / 10 % 10) (48 + y / 10 % 10) (48 + y % 10)
        (digit_is_digit (y / 10 / 10 / 10) (omega arith))
        (digit_is_digit (y / 10 / 10 % 10) (omega arith))
        (digit_is_digit (y / 10 % 10) (omega arith)) (digit_is_digit (y % 10) (omega arith))
  where
    four :
        (a b c d : ℕ)
        → is_digit a ≡ true
        → is_digit b ≡ true
        → is_digit c ≡ true
        → is_digit d ≡ true
        → has_four_digits 0 (a ∷ b ∷ c ∷ d ∷ []) ≡ true
    four a b c d ha hb hc hd = rw (ha, hb, hc, hd) refl
