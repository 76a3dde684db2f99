-- ===== src/JsDate/Civil.antt =====
-- The calendar day of a day number and the day number of a calendar day undo one another.
use bluetooth_autonomous_car.Prelude.{
  ℕ, zero, suc, ◌+◌, ◌-◌, ◌/◌, ◌%◌, ◌≤◌, ◌<◌, ◌≡◌, refl, ap, arith,
}
use native.Mathlib.Nat.{add-zero, add-suc, suc-add}
use native.Mathlib.Numerals.{add-one}
use bluetooth_autonomous_car.JsDate.{
  day_from_year, day_within_year, leap_days, make_day, CivilDay, civil, find_month, year_of_day,
  civil_of_day,
}
use bluetooth_autonomous_car.JsDate.Years.{
  day_within_year-year, IsYearOf, not_lt-le, year_of_day-IsYearOf, IsYearOf-unique,
}

pub record IsValid (c : CivilDay) : Type 0 where
  pub month_in : c.month < 12
  pub first : 1 ≤ c.date
  pub last :
      day_within_year (leap_days c.year) c.month + c.date
      ≤ day_within_year (leap_days c.year) (c.month + 1)

-- The calendar day of a year with a number of days of it over.
record IsDayOf (y left : ℕ) (c : CivilDay) : Type 0 where
  year_is : c.year ≡ y
  pub total : day_within_year (leap_days y) c.month + c.date ≡ left + 1
  pub valid : IsValid c

find_month-IsDayOf :
    (fuel y month left : ℕ)
    → month + fuel ≡ 11
    → day_within_year (leap_days y) month ≤ left
    → left < day_within_year (leap_days y) 12
    → IsDayOf y left (find_month fuel y month left)
unfolding find_month
find_month-IsDayOf zero y month left e lo hi =
    let december : month ≡ 11 = rw (add-zero month) at e in
    let ends = ap (λ (m : ℕ). day_within_year (leap_days y) (m + 1)) december in
    record {
      year_is = refl;
      total = omega arith;
      valid = record { month_in = omega arith; first = omega arith; last = omega (arith, ends) };
    }
find_month-IsDayOf (suc fuel) y month left e lo hi =
    ground (arith, find_month-IsDayOf fuel y (month + 1) left)

day_within_year-zero : (l : ℕ) → day_within_year l 0 ≡ 0
unfolding day_within_year
day_within_year-zero l = refl

day_within_year-suc : (l m : ℕ) → day_within_year l m ≤ day_within_year l (m + 1)
unfolding day_within_year
day_within_year-suc l m = ground arith

day_within_year-add : (k l m : ℕ) → day_within_year l m ≤ day_within_year l (m + k)
day_within_year-add zero l m = rw (add-zero m) (omega arith)
day_within_year-add (suc k) l m =
    rw (add-suc, ← suc-add, ← add-one)
      (omega (arith, day_within_year-suc l m, day_within_year-add k l (m + 1)))

day_within_year_mono : (l m m' : ℕ) → m ≤ m' → day_within_year l m ≤ day_within_year l m'
day_within_year_mono l m m' h = rw (← split) (day_within_year-add (m' - m) l m)
  where
    split : m + (m' - m) ≡ m'
    split = omega arith

civil_of_day-IsDayOf :
    (day : ℕ) → IsDayOf (year_of_day day).0 (year_of_day day).1 (civil_of_day day)
unfolding civil_of_day
civil_of_day-IsDayOf day =
    let r = year_of_day day in
    find_month-IsDayOf 11 r.0 0 r.1 (omega arith)
      (omega (arith, day_within_year-zero (leap_days r.0)))
      (omega (arith, day_within_year-year r.0, (year_of_day-IsYearOf day).within))

civil_of_day-IsValid : (day : ℕ) → IsValid (civil_of_day day)
civil_of_day-IsValid day = (civil_of_day-IsDayOf day).valid

-- The day number of a valid calendar day, with no month to carry.
make_day-valid :
    (c : CivilDay)
    → IsValid c
    → make_day c.year c.month c.date
      ≡ day_from_year c.year + (day_within_year (leap_days c.year) c.month + c.date - 1)
unfolding make_day
make_day-valid c v = rw (no_carry, in_place) (omega (arith, v.first))
  where
    no_carry : c.year + c.month / 12 ≡ c.year
    no_carry = omega (arith, v.month_in)

    in_place : c.month % 12 ≡ c.month
    in_place = omega (arith, v.month_in)

-- The year and the days over of a valid day.
IsValid-IsYearOf :
    (c : CivilDay)
    → IsValid c
    → IsYearOf
        (make_day c.year c.month c.date)
        (c.year, day_within_year (leap_days c.year) c.month + c.date - 1)
IsValid-IsYearOf c v = record {
  total = omega (arith, make_day-valid c v);
  within = omega (
    arith,
    v.first,
    v.last,
    day_within_year-year c.year,
    day_within_year_mono (leap_days c.year) (c.month + 1) 12 (omega (arith, v.month_in)),
  );
}

make_day-civil_of_day :
    (day : ℕ)
    → make_day (civil_of_day day).year (civil_of_day day).month (civil_of_day day).date ≡ day
make_day-civil_of_day day = ground (
  arith,
  make_day-valid (civil_of_day day) (civil_of_day-IsValid day),
  civil_of_day-IsDayOf day,
  year_of_day-IsYearOf day,
)

month_le :
    (l m m' d d' : ℕ)
    → 1 ≤ d
    → day_within_year l m' + d' ≤ day_within_year l (m' + 1)
    → day_within_year l m + d ≡ day_within_year l m' + d'
    → m ≤ m'
month_le l m m' d d' first last e =
    not_lt-le (λ lt. omega (arith, day_within_year_mono l (m' + 1) m (omega arith)))

-- Two valid days with one day number are equal.
make_day_inj :
    (c c' : CivilDay)
    → IsValid c
    → IsValid c'
    → make_day c.year c.month c.date ≡ make_day c'.year c'.month c'.date
    → c ≡ c'
make_day_inj c c' v v' e = λ i. civil (same_year i) (same_month i) (same_date i)
  where
    place :
        (c.year ≡ c'.year)
        × (day_within_year (leap_days c.year) c.month + c.date - 1
            ≡ day_within_year (leap_days c'.year) c'.month + c'.date - 1)
    place = IsYearOf-unique (rw e at (IsValid-IsYearOf c v)) (IsValid-IsYearOf c' v')

    same_year : c.year ≡ c'.year
    same_year = place.0

    at : (m : ℕ) → day_within_year (leap_days c.year) m ≡ day_within_year (leap_days c'.year) m
    at m = ap (λ y. day_within_year (leap_days y) m) same_year

    same_month : c.month ≡ c'.month
    same_month = omega (
      arith,
      at c.month,
      at c'.month,
      at (c.month + 1),
      place.1,
      month_le (leap_days c'.year) c.month c'.month c.date c'.date,
      month_le (leap_days c'.year) c'.month c.month c'.date c.date,
    )

    same_date : c.date ≡ c'.date
    same_date =
        omega (arith, at c.month, place.1, ap (day_within_year (leap_days c'.year)) same_month)

pub civil_of_day-make_day :
    (c : CivilDay) → IsValid c → civil_of_day (make_day c.year c.month c.date) ≡ c
civil_of_day-make_day c v = make_day_inj _ c (civil_of_day-IsValid _) v (make_day-civil_of_day _)
