-- ===== src/Actions/Rows.antt =====
-- The rows of a change list: how many are checked, and a row at a place.
use bluetooth_autonomous_car.Prelude.{
  ℕ, zero, suc, ◌≤◌, ◌<◌, ◌≡◌, ◌≢◌, refl, ap, sym, ◌∙◌, arith, Bool, true, false, List, [], ◌∷◌,
  some, ◌==◌, map, length, get_elem?, All, Bool-cases, inl, inr,
}
use bluetooth_autonomous_car.Actions.{
  Row, Flag, boolean, number, truthy, toggle_class, check_row, count_checked, all_checked,
  update_row,
}

-- Each row is highlighted just when its box is checked.
abbrev pub Matches : List Row → Type 0
Matches rows = All (λ r. r.highlighted ≡ r.checked) rows

eq_suc : (a b : ℕ) → (suc a == suc b) ≡ (a == b)
eq_suc a b = ground arith

count_checked-le : (rows : List Row) → count_checked rows ≤ length rows
unfolding count_checked
count_checked-le [] = omega arith
count_checked-le (r ∷ rows) = ground (arith, count_checked-le rows)

-- All the boxes are checked just when each is.
pub all_checked-at :
    (rows : List Row) (i : ℕ) (r : Row)
    → all_checked rows ≡ true
    → get_elem? rows i ≡ some r
    → r.checked ≡ true
unfolding all_checked count_checked
all_checked-at [] i r h e = cc
all_checked-at (r' ∷ rows) zero r h e = elim (Bool-cases r'.checked) [
  | inl yes' ↦ cc
  | inr no' ↦ absurd (ground (arith, count_checked-le rows))
]
all_checked-at (r' ∷ rows) (suc i) r h e =
    all_checked-at rows i r (ground (arith, count_checked-le rows)) e

pub not-all_checked :
    (rows : List Row) (i : ℕ) (r : Row)
    → get_elem? rows i ≡ some r
    → r.checked ≡ false
    → all_checked rows ≡ false
not-all_checked rows i r e h = elim (Bool-cases (all_checked rows)) [
  | inl all ↦ absurd (cc (all_checked-at rows i r all e))
  | inr some' ↦ some'
]

-- All rows checked at once.
pub all_checked-checked :
    (rows : List Row) → all_checked (map (check_row (boolean true)) rows) ≡ true
unfolding all_checked count_checked check_row truthy
all_checked-checked [] = refl
all_checked-checked (r ∷ rows) = eq_suc _ _ ∙ all_checked-checked rows

pub Matches-checked : (v : Bool) (rows : List Row) → Matches (map (check_row (boolean v)) rows)
unfolding check_row truthy toggle_class
Matches-checked v [] = tt
Matches-checked v (r ∷ rows) = (refl, Matches-checked v rows)

-- The rows of a list that holds one, all unchecked.
pub all_checked-unchecked :
    (flag : Flag) (rows : List Row)
    → truthy flag ≡ false
    → 1 ≤ length rows
    → all_checked (map (check_row flag) rows) ≡ false
unfolding check_row
all_checked-unchecked flag [] h n = absurd (omega arith)
all_checked-unchecked flag (r ∷ rows) h n = not-all_checked _ 0 (check_row flag r) refl h

all_checked-tail :
    (r : Row) (rows : List Row) → all_checked (r ∷ rows) ≡ true → all_checked rows ≡ true
unfolding all_checked count_checked
all_checked-tail r rows h = elim (Bool-cases r.checked) [
  | inl yes' ↦ sym (eq_suc _ _) ∙ (rw yes' at h)
  | inr no' ↦ absurd (ground (arith, count_checked-le rows))
]

-- A flip of every class, where all rows are highlighted.
pub Matches-flipped :
    (rows : List Row)
    → Matches rows
    → all_checked rows ≡ true
    → Matches (map (check_row (number 0)) rows)
unfolding check_row truthy toggle_class
Matches-flipped [] m h = tt
Matches-flipped (r ∷ rows) m h = (
  rw (m.0, all_checked-at (r ∷ rows) 0 r h refl) refl,
  Matches-flipped rows m.1 (all_checked-tail r rows h),
)

pub length-update_row :
    (i : ℕ) (f : Row → Row) (rows : List Row) → length (update_row i f rows) ≡ length rows
unfolding update_row
length-update_row i f [] = refl
length-update_row zero f (r ∷ rows) = refl
length-update_row (suc i) f (r ∷ rows) = ap suc (length-update_row i f rows)

-- A row of the list after one has been updated.
pub get_elem?-update_row :
    (i : ℕ) (f : Row → Row) (rows : List Row) (r : Row)
    → get_elem? rows i ≡ some r
    → get_elem? (update_row i f rows) i ≡ some (f r)
unfolding update_row
get_elem?-update_row i f [] r e = cc
get_elem?-update_row zero f (r' ∷ rows) r e = cc
get_elem?-update_row (suc i) f (r' ∷ rows) r e = get_elem?-update_row i f rows r e

pub get_elem?-update_row_ne :
    (i j : ℕ) (f : Row → Row) (rows : List Row)
    → j ≢ i
    → get_elem? (update_row i f rows) j ≡ get_elem? rows j
unfolding update_row
get_elem?-update_row_ne i j f [] ne = refl
get_elem?-update_row_ne zero zero f (r ∷ rows) ne = absurd (ne refl)
get_elem?-update_row_ne zero (suc j) f (r ∷ rows) ne = refl
get_elem?-update_row_ne (suc i) zero f (r ∷ rows) ne = refl
get_elem?-update_row_ne (suc i) (suc j) f (r ∷ rows) ne =
    get_elem?-update_row_ne i j f rows (λ e. ne (ap suc e))

pub some_row : (rows : List Row) (i : ℕ) → i < length rows → (r : Row) × (get_elem? rows i ≡ some r)
some_row [] i h = absurd (omega arith)
some_row (r ∷ rows) zero h = (r, refl)
some_row (r ∷ rows) (suc i) h = some_row rows i (omega arith)

-- What holds of the row at each place holds of all.
pub Matches-of_at :
    (rows : List Row)
    → ((i : ℕ) (r : Row) → get_elem? rows i ≡ some r → r.highlighted ≡ r.checked)
    → Matches rows
Matches-of_at [] h = tt
Matches-of_at (r ∷ rows) h = (h 0 r refl, Matches-of_at rows (λ i. h (suc i)))

pub Matches-at :
    (rows : List Row) (i : ℕ) (r : Row)
    → Matches rows
    → get_elem? rows i ≡ some r
    → r.highlighted ≡ r.checked
Matches-at [] i r m e = cc
Matches-at (r' ∷ rows) zero r m e = cc (m.0)
Matches-at (r' ∷ rows) (suc i) r m e = Matches-at rows i r m.1 e
