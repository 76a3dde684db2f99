-- ===== src/Core/Fields.antt =====
-- The fields of the day that is read, and the loop of `strptime` on a format.
use bluetooth_autonomous_car.Prelude.{
  ℕ, ◌+◌, ◌*◌, ◌<◌, ◌≡◌, refl, ap, ap₂, ◌∙◌, arith, true, false, [], ◌∷◌, none, some, ℤ, pos,
  negsuc, neg_part, pos_part, ◌+ℤ◌, ◌-ℤ◌,
}
use bluetooth_autonomous_car.JsDate.{
  CivilDay, civil, civil_of_day, make_day, make_full_year, shifted_year, unshifted_year, DateFields,
}
use bluetooth_autonomous_car.JsDate.Civil.{civil_of_day-make_day}
use bluetooth_autonomous_car.Text.{Text, split}
use bluetooth_autonomous_car.Core.{
  Moment, field, strftime, is_separator, Parts, read_parts, date_utc, utc_fields, strptime,
}
use bluetooth_autonomous_car.Core.Pieces.{
  three, HasDate, date_fields, IsPiece, two_digits-IsPiece, month-IsPiece, year-IsPiece, shown,
  strftime-three, split-three,
}

unshifted_year-shifted_year : (y : ℤ) → neg_part y ≡ 0 → unshifted_year (shifted_year y) ≡ y
unfolding ◌+ℤ◌ ◌-ℤ◌
unshifted_year-shifted_year y h = ground arith

months_lem : (y m : ℕ) → pos_part (pos (12 * y) +ℤ (pos (m + 1) -ℤ pos 1)) ≡ 12 * y + m
unfolding ◌+ℤ◌ ◌-ℤ◌
months_lem y m = ground arith

pos-pos_part : (y : ℤ) → neg_part y ≡ 0 → pos (pos_part y) ≡ y
pos-pos_part (pos n) h = refl
pos-pos_part (negsuc n) h = absurd (omega arith)

date_utc_lem :
    (y : ℤ) (m d : ℕ)
    → make_full_year y ≡ y
    → m < 12
    → date_utc y (pos (m + 1) -ℤ pos 1) d ≡ make_day (shifted_year y) m d
unfolding date_utc
date_utc_lem y m d kept h =
    rw (kept, months_lem (shifted_year y) m)
      (ap₂ (λ q r. make_day q r d) (omega arith) (omega arith))

-- The UTC fields of a day number.
abbrev pub fields_of_day : ℕ → DateFields
fields_of_day n =
    let c = civil_of_day n in
    record { full_year = unshifted_year c.year; month = c.month; date = c.date }

fields_of_day-make_day :
    (t : Moment)
    → HasDate t
    → fields_of_day (make_day (shifted_year t.full_year) t.month t.date) ≡ date_fields t
fields_of_day-make_day t h =
    ap
      (λ (c : CivilDay). record {
        full_year = unshifted_year c.year;
        month = c.month;
        date = c.date;
      })
      (civil_of_day-make_day (civil (shifted_year t.full_year) t.month t.date) h.valid)
    ∙ ap (λ y. record { full_year = y; month = t.month; date = t.date })
        (unshifted_year-shifted_year t.full_year h.common_era)

abbrev pub parts : ℕ → ℕ → ℕ → Parts
parts d m y = record { day = some d; month = some (pos m -ℤ pos 1); year = some y }

pub utc_fields_lem :
    (t : Moment)
    → HasDate t
    → utc_fields (parts t.date (t.month + 1) (pos_part t.full_year)) ≡ some (date_fields t)
unfolding utc_fields
utc_fields_lem t h =
    ap (λ n. some (fields_of_day n))
      (ap (λ y. date_utc y (pos (t.month + 1) -ℤ pos 1) t.date)
          (pos-pos_part t.full_year h.common_era)
        ∙ date_utc_lem t.full_year t.month t.date h.kept h.valid.month_in)
    ∙ ap some (fields_of_day-make_day t h)

-- The pieces of the text and of the format meet in the loop of `strptime`.
abbrev pub directive : ℕ → Text
directive c = b'%' ∷ c ∷ []

directive-IsPiece : (c : ℕ) → is_separator c ≡ false → IsPiece (directive c)
unfolding is_separator
directive-IsPiece c h = (refl, (h, tt))

abbrev no_parts : Parts
no_parts = record { day = none; month = none; year = none }

pub strptime-three :
    (t : Moment) (a b c s s' : ℕ)
    → is_separator s ≡ true
    → is_separator s' ≡ true
    → IsPiece (shown t a) × IsPiece (shown t b) × IsPiece (shown t c)
    → (is_separator a ≡ false) × (is_separator b ≡ false) × (is_separator c ≡ false)
    → strptime (strftime t (three a s b s' c)) (three a s b s' c)
      ≡ utc_fields (
          read_parts
            (shown t a ∷ shown t b ∷ shown t c ∷ [])
            (directive a ∷ directive b ∷ directive c ∷ [])
            0
            no_parts)
unfolding strptime
strptime-three t a b c s s' e e' (pa, pb, pc) (da, db, dc) =
    ap₂ (λ x y. utc_fields (read_parts x y 0 no_parts))
      (ap (split is_separator) (strftime-three t a b c s s' e e')
        ∙ split-three (shown t a) (shown t b) (shown t c) s s' e e' pa pb pc)
      (split-three (directive a) (directive b) (directive c) s s' e e' (directive-IsPiece a da)
        (directive-IsPiece b db) (directive-IsPiece c dc))

pub day-IsPiece : (t : Moment) → IsPiece (shown t b'd')
unfolding field
day-IsPiece t = two_digits-IsPiece t.date

pub month-IsPiece' : (t : Moment) → IsPiece (shown t b'm')
unfolding field
month-IsPiece' t = month-IsPiece t

pub year-IsPiece' : (t : Moment) → HasDate t → IsPiece (shown t b'Y')
unfolding field
year-IsPiece' t h = year-IsPiece t.full_year h.common_era
