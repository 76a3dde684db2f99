-- ===== src/Core/Century.antt =====
-- The two-digit year of a date format, `%y`.
use bluetooth_autonomous_car.Prelude.{
  ℕ, ◌+◌, ◌-◌, ◌*◌, ◌/◌, ◌%◌, ◌≤◌, ◌<◌, ◌≡◌, refl, ap, ◌∙◌, arith, true, false, [], ◌∷◌, some, take,
  drop, pos, ℤ, pos_part, ◌+ℤ◌, ◌-ℤ◌,
}
use bluetooth_autonomous_car.JsDate.{make_full_year, make_day, shifted_year}
use bluetooth_autonomous_car.Text.{dec, to_number}
use bluetooth_autonomous_car.Text.Decimal.{to_number_two, dec_four}
use bluetooth_autonomous_car.Core.{
  Moment, get_two_digit_month, get_two_digit_date, year_text, minus_one, field, strftime,
  is_separator, Parts, read_part, read_parts, date_utc, utc_fields, strptime,
}
use bluetooth_autonomous_car.Core.Fields.{
  parts, fields_of_day, strptime-three, utc_fields_lem, day-IsPiece, month-IsPiece',
}
use bluetooth_autonomous_car.Core.Pieces.{
  HasDate, date_fields, three, shown, IsPiece, to_number-two_digits, to_number-get_two_digit_month,
}

-- The text of `%y` for a year of four digits.
two_of_four :
    (y : ℕ)
    → 1000 ≤ y
    → y < 10000
    → take 4 (drop 2 (dec y)) ≡ (48 + y / 10 % 10) ∷ (48 + y % 10) ∷ []
two_of_four y lo hi = ap (λ s. take 4 (drop 2 s)) (dec_four y lo hi)

-- The moment in the year `y`.
abbrev pub in_year : ℕ → Moment → Moment
in_year y t = record t { full_year = pos y }

digit_IsPiece : (d : ℕ) → d < 10 → is_separator (48 + d) ≡ false
unfolding is_separator
digit_IsPiece d h = ground arith

year_text-IsPiece : (t : Moment) (y : ℕ) → 2000 ≤ y → y < 2100 → IsPiece (shown (in_year y t) b'y')
unfolding field year_text
year_text-IsPiece t y lo hi =
    rw (two_of_four y (omega arith) (omega arith))
      (digit_IsPiece (y / 10 % 10) (omega arith), (digit_IsPiece (y % 10) (omega arith), tt))

abbrev read_values : Moment → ℕ → Parts
read_values t y = record {
  day = to_number (get_two_digit_date t);
  month = minus_one (to_number (get_two_digit_month t));
  year = to_number (take 4 (drop 2 (dec y)));
}

read_values_lem :
    (t : Moment) (y : ℕ)
    → 2000 ≤ y
    → y < 2100
    → read_values t y ≡ parts t.date (t.month + 1) (y / 10 % 10 * 10 + y % 10)
unfolding get_two_digit_date minus_one
read_values_lem t y lo hi = λ i. record {
  day = to_number-two_digits t.date i;
  month = minus_one (to_number-get_two_digit_month t i);
  year =
      (ap to_number (two_of_four y (omega arith) (omega arith))
          ∙ to_number_two (y / 10 % 10) (y % 10) (omega arith) (omega arith))
        i;
}

-- `Date.UTC` takes the two digits for a year of the twentieth century.
two_digit_full_year :
    (y : ℕ)
    → 2000 ≤ y
    → y < 2100
    → make_full_year (pos (y / 10 % 10 * 10 + y % 10)) ≡ make_full_year (pos (y - 100))
unfolding make_full_year
two_digit_full_year y lo hi = ground arith

utc_fields_century :
    (d m y : ℕ)
    → 2000 ≤ y
    → y < 2100
    → utc_fields (parts d m (y / 10 % 10 * 10 + y % 10)) ≡ utc_fields (parts d m (y - 100))
unfolding utc_fields date_utc
utc_fields_century d m y lo hi =
    ap
      (λ (year : ℤ).
        let months = pos_part (pos (12 * shifted_year year) +ℤ (pos m -ℤ pos 1)) in
        some (fields_of_day (make_day (months / 12) (months % 12) d)))
      (two_digit_full_year y lo hi)

-- A date from 2000 to 2099 written as `%m`, `%d` and `%y` with any two of the separators reads back
-- as the day a century before, wherever that day exists (29 February 1900 does not).
pub strptime-strftime_two_digit :
    (s s' y : ℕ) (t : Moment)
    → is_separator s ≡ true
    → is_separator s' ≡ true
    → 2000 ≤ y
    → y < 2100
    → HasDate (in_year (y - 100) t)
    → strptime (strftime (in_year y t) (three b'm' s b'd' s' b'y')) (three b'm' s b'd' s' b'y')
      ≡ some (date_fields (in_year (y - 100) t))
unfolding read_parts read_part field is_separator minus_one year_text
strptime-strftime_two_digit s s' y t e e' lo hi h =
    strptime-three (in_year y t) b'm' b'd' b'y' s s' e e'
      (month-IsPiece' (in_year y t), day-IsPiece (in_year y t), year_text-IsPiece t y lo hi)
      (refl, refl, refl)
    ∙ ap utc_fields (read_values_lem t y lo hi)
    ∙ utc_fields_century t.date (t.month + 1) y lo hi
    ∙ utc_fields_lem (in_year (y - 100) t) h
