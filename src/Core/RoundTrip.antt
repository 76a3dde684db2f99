-- ===== src/Core/RoundTrip.antt =====
-- A date written by `strftime` in a numeric format is read back by `strptime`.
use bluetooth_autonomous_car.Prelude.{ℕ, ◌+◌, ◌≡◌, refl, ap, ◌∙◌, true, some, pos_part}
use bluetooth_autonomous_car.Text.{to_number}
use bluetooth_autonomous_car.Core.{
  Moment, get_two_digit_month, get_two_digit_date, year_text, minus_one, field, strftime,
  is_separator, Parts, read_part, read_parts, utc_fields, strptime,
}
use bluetooth_autonomous_car.Core.Fields.{
  parts, utc_fields_lem, strptime-three, day-IsPiece, month-IsPiece', year-IsPiece',
}
use bluetooth_autonomous_car.Core.Pieces.{
  Order, format, HasDate, date_fields, to_number-two_digits, to_number-get_two_digit_month,
  to_number-year_text, IsPiece, shown, day_month_year, day_year_month, month_day_year,
  month_year_day, year_month_day, year_day_month,
}

-- What the loop makes of the three texts, in whatever order they came.
abbrev read_values : Moment → Parts
read_values t = record {
  day = to_number (get_two_digit_date t);
  month = minus_one (to_number (get_two_digit_month t));
  year = to_number (year_text t.full_year);
}

read_values_lem :
    (t : Moment) → HasDate t → read_values t ≡ parts t.date (t.month + 1) (pos_part t.full_year)
unfolding get_two_digit_date minus_one
read_values_lem t h = λ i. record {
  day = to_number-two_digits t.date i;
  month = minus_one (to_number-get_two_digit_month t i);
  year = to_number-year_text t.full_year h.common_era i;
}

-- A date in a year of the common era that `Date` does not rewrite (so not 0 to 99), written in
-- any of the six orders of `%d`, `%m` and `%Y` with any two of the separators, reads back as
-- itself.
pub strptime-strftime :
    (o : Order) (s s' : ℕ) (t : Moment)
    → is_separator s ≡ true
    → is_separator s' ≡ true
    → HasDate t
    → strptime (strftime t (format o s s')) (format o s s') ≡ some (date_fields t)
unfolding read_parts read_part field is_separator minus_one
strptime-strftime o s s' t e e' h =
    in_order o ∙ ap utc_fields (read_values_lem t h) ∙ utc_fields_lem t h
  where
    d : IsPiece (shown t b'd')
    d = day-IsPiece t

    m : IsPiece (shown t b'm')
    m = month-IsPiece' t

    y : IsPiece (shown t b'Y')
    y = year-IsPiece' t h

    in_order :
        (o : Order)
        → strptime (strftime t (format o s s')) (format o s s') ≡ utc_fields (read_values t)
    in_order day_month_year = strptime-three t b'd' b'm' b'Y' s s' e e' (d, m, y) (refl, refl, refl)
    in_order day_year_month = strptime-three t b'd' b'Y' b'm' s s' e e' (d, y, m) (refl, refl, refl)
    in_order month_day_year = strptime-three t b'm' b'd' b'Y' s s' e e' (m, d, y) (refl, refl, refl)
    in_order month_year_day = strptime-three t b'm' b'Y' b'd' s s' e e' (m, y, d) (refl, refl, refl)
    in_order year_month_day = strptime-three t b'Y' b'm' b'd' s s' e e' (y, m, d) (refl, refl, refl)
    in_order year_day_month = strptime-three t b'Y' b'd' b'm' s s' e e' (y, d, m) (refl, refl, refl)
