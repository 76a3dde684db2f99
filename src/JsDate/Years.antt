-- ===== src/JsDate/Years.antt =====
-- The year of a day number, and the days of years.
use bluetooth_autonomous_car.Prelude.{
  ℕ, zero, suc, ◌+◌, ◌-◌, ◌*◌, ◌/◌, ◌%◌, ◌≤◌, ◌<◌, ◌≡◌, ap, arith,
}
use native.Mathlib.Nat.{add-zero, add-suc, suc-add}
use native.Mathlib.Numerals.{add-one}
use bluetooth_autonomous_car.JsDate.{
  in_leap_year, days_in_year, day_from_year, day_within_year, leap_days, find_year, year_of_day,
}

day_from_year-suc : (y : ℕ) → day_from_year (y + 1) ≡ day_from_year y + days_in_year y
unfolding day_from_year days_in_year in_leap_year
day_from_year-suc y = ground arith

days_in_year_min : (y : ℕ) → 365 ≤ days_in_year y
unfolding days_in_year
days_in_year_min y = ground arith

day_from_year-add : (k y : ℕ) → day_from_year y + 365 * k ≤ day_from_year (y + k)
day_from_year-add zero y = rw (add-zero y) (omega arith)
day_from_year-add (suc k) y =
    rw (add-suc, ← suc-add, ← add-one)
      (ground (arith, day_from_year-add k (y + 1), day_from_year-suc y, days_in_year_min y))

day_from_year_mono : (y y' : ℕ) → y ≤ y' → day_from_year y ≤ day_from_year y'
day_from_year_mono y y' h = rw (← split) (omega (arith, day_from_year-add (y' - y) y))
  where
    split : y + (y' - y) ≡ y'
    split = omega arith

pub day_within_year-year : (y : ℕ) → day_within_year (leap_days y) 12 ≡ days_in_year y
unfolding day_within_year leap_days days_in_year
day_within_year-year y = ground arith

-- A day number splits in one way into a year and days within it.
pub record IsYearOf (day : ℕ) (r : ℕ × ℕ) : Type 0 where
  pub total : day_from_year r.0 + r.1 ≡ day
  pub within : r.1 < days_in_year r.0

pub not_lt-le : {a b : ℕ} → ¬ (b < a) → a ≤ b
not_lt-le h = omega arith

find_year-IsYearOf :
    (fuel y left : ℕ)
    → day_from_year y + left < day_from_year (y + fuel)
    → IsYearOf (day_from_year y + left) (find_year fuel y left)
unfolding find_year
find_year-IsYearOf zero y left h = absurd (omega (arith, rw add-zero at h))
find_year-IsYearOf (suc fuel) y left h =
    let h' = rw (add-suc, ← suc-add, ← add-one) at h in
    ground (arith, day_from_year-suc y, find_year-IsYearOf fuel (y + 1) (left - days_in_year y))

cycle_start : (day : ℕ) → day_from_year (400 * (day / 146097)) + day % 146097 ≡ day
unfolding day_from_year
cycle_start day = omega arith

cycle_end :
    (day : ℕ)
    → day_from_year (400 * (day / 146097)) + day % 146097
      < day_from_year (400 * (day / 146097) + 400)
unfolding day_from_year
cycle_end day = omega arith

pub year_of_day-IsYearOf : (day : ℕ) → IsYearOf day (year_of_day day)
unfolding year_of_day
year_of_day-IsYearOf day =
    rw (cycle_start day) at
      (find_year-IsYearOf 400 (400 * (day / 146097)) (day % 146097) (cycle_end day))

IsYearOf-le : {day : ℕ} {r r' : ℕ × ℕ} → IsYearOf day r → IsYearOf day r' → r.0 ≤ r'.0
IsYearOf-le {day} {r} {r'} v v' =
    not_lt-le
      (λ lt. omega (arith, day_from_year_mono (r'.0 + 1) r.0 (omega arith), day_from_year-suc r'.0))

pub IsYearOf-unique :
    {day : ℕ} {r r' : ℕ × ℕ} → IsYearOf day r → IsYearOf day r' → (r.0 ≡ r'.0) × (r.1 ≡ r'.1)
IsYearOf-unique {day} {r} {r'} v v' = (same, omega (arith, ap day_from_year same))
  where
    same : r.0 ≡ r'.0
    same = omega (arith, IsYearOf-le v v', IsYearOf-le v' v)
