-- ===== src/Calendar/Filling.antt =====
-- The rows of a table while `draw` fills them, and the list of its cells.
use mathlib.Core.List.{flatten}
use mathlib.Core.Path.{subst₂}
use native.Mathlib.Nat.{add-zero}
use bluetooth_autonomous_car.Prelude.{
  ℕ, zero, suc, ◌+◌, ◌-◌, ◌*◌, ◌/◌, ◌%◌, ◌≤◌, ◌<◌, ◌≡◌, ◌≢◌, refl, ap, sym, ◌∙◌, arith, List, [],
  ◌∷◌, ◌++◌, length, Bool-cases, ◌&&◌, not, ◌==◌, inl, inr, length-append, length-replicate,
  replicate, All, All-append, Option, none, some, dec_lt, get_elem?-append_left,
  get_elem?-append_right, get_elem?, append_assoc, append-nil, true, false,
}
use bluetooth_autonomous_car.Calendar.{Cell, nonday, Row, Grid, add_day, draw_days}

abbrev pub Week : Row → Type 0
Week r = length r ≡ 7

-- What holds before each round: closed rows are full, and the position counts the cells.
pub record IsFilled (i current_day : ℕ) (g : Grid) : Type 0 where
  pub full : All Week g.rows
  pub position : 7 * length g.rows + length g.table_row ≡ i
  pub fits : length g.table_row ≤ 7
  pub opened : current_day ≢ 1 → 1 ≤ length g.table_row
  pub first : current_day ≡ 1 → length g.table_row ≤ 6
  pub counted : 1 ≤ current_day

pub length-snoc {ℓ} : {A : Type ℓ} (xs : List A) (x : A) → length (xs ++ (x ∷ [])) ≡ length xs + 1
length-snoc xs x = omega (arith, length-append xs (x ∷ []))

-- A row is closed when it is full, and a row that is kept has room.
closed_row :
    (i current_day : ℕ) (g : Grid)
    → IsFilled i current_day g
    → ((i % 7 == 0) && not (current_day == 1)) ≡ true
    → length g.table_row ≡ 7
closed_row i current_day g v opens = ground arith

kept_row :
    (i current_day : ℕ) (g : Grid)
    → IsFilled i current_day g
    → ((i % 7 == 0) && not (current_day == 1)) ≡ false
    → length g.table_row ≤ 6
kept_row i current_day g v stays = ground arith

add_day-IsFilled :
    (cell : Cell) (i current_day : ℕ) (g : Grid)
    → IsFilled i current_day g
    → IsFilled (i + 1) (current_day + 1) (add_day cell i current_day g)
unfolding add_day
add_day-IsFilled cell i current_day g v =
    elim (Bool-cases ((i % 7 == 0) && not (current_day == 1))) [
      | inl opens ↦ rw opens record {
        full =
            All-append Week g.rows (g.table_row ∷ []) v.full
              (closed_row i current_day g v opens, tt);
        position =
            omega (arith, length-snoc g.rows g.table_row, closed_row i current_day g v opens);
        fits = omega arith;
        opened = λ _. omega arith;
        first = λ _. omega arith;
        counted = omega arith;
      }
      | inr stays ↦ rw stays record {
        full = v.full;
        position = omega (arith, length-snoc g.table_row cell);
        fits = omega (arith, length-snoc g.table_row cell, kept_row i current_day g v stays);
        opened = λ _. omega (arith, length-snoc g.table_row cell);
        first = λ e. absurd (omega arith);
        counted = omega arith;
      }
    ]

-- The cell at a row and a column.
abbrev pub get_cell : List Row → ℕ → ℕ → Option Cell
get_cell rows r c = elim (get_elem? rows r) [ none ↦ none | some row ↦ get_elem? row c ]

-- Over full rows, reading by row and column is reading in order.
pub get_cell-flatten :
    (rows : List Row) (n : ℕ)
    → All Week rows
    → get_cell rows (n / 7) (n % 7) ≡ get_elem? (flatten rows) n
unfolding flatten
get_cell-flatten [] n full = refl
get_cell-flatten (row ∷ rows) n full = elim (dec_lt n 7) [
  | yes p ↦
      rw (first_row p, in_row p)
        (sym (get_elem?-append_left row (flatten rows) n (omega (arith, full.0))))
  | no p ↦
      rw (next_row p, in_next p)
        (get_cell-flatten rows (n - 7) full.1
          ∙ sym (get_elem?-append_right row (flatten rows) (n - 7))
          ∙ ap (get_elem? (row ++ flatten rows)) (omega (arith, full.0)))
]
  where
    first_row : n < 7 → n / 7 ≡ 0
    first_row p = omega arith

    in_row : n < 7 → n % 7 ≡ n
    in_row p = omega arith

    next_row : ¬ (n < 7) → n / 7 ≡ suc ((n - 7) / 7)
    next_row p = omega arith

    in_next : ¬ (n < 7) → n % 7 ≡ (n - 7) % 7
    in_next p = omega arith

-- The cells so far, in reading order.
abbrev pub cells : Grid → List Cell
cells g = flatten g.rows ++ g.table_row

pub flatten-snoc {ℓ} :
    {A : Type ℓ} (rows : List (List A)) (row : List A)
    → flatten (rows ++ (row ∷ [])) ≡ flatten rows ++ row
unfolding flatten
flatten-snoc [] row = append-nil row
flatten-snoc (r ∷ rows) row = simp (flatten-snoc rows row, append_assoc)

cells-add_day :
    (cell : Cell) (i current_day : ℕ) (g : Grid)
    → cells (add_day cell i current_day g) ≡ cells g ++ (cell ∷ [])
unfolding add_day
cells-add_day cell i current_day g = elim (Bool-cases ((i % 7 == 0) && not (current_day == 1))) [
  | inl opens ↦ rw opens (simp (flatten-snoc g.rows g.table_row))
  | inr stays ↦ rw stays (simp append_assoc)
]

-- The days `first`, `first` + 1, and so on.
abbrev pub days_from : (ℕ → Cell) → ℕ → ℕ → List Cell
days_from cell zero first = []
days_from cell (suc left) first = cell first ∷ days_from cell left (first + 1)

pub length-days_from : (cell : ℕ → Cell) (n first : ℕ) → length (days_from cell n first) ≡ n
length-days_from cell zero first = refl
length-days_from cell (suc n) first = ap suc (length-days_from cell n (first + 1))

pub get_elem?-days_from :
    (cell : ℕ → Cell) (n first i : ℕ)
    → i < n
    → get_elem? (days_from cell n first) i ≡ some (cell (first + i))
get_elem?-days_from cell zero first i h = absurd (omega arith)
get_elem?-days_from cell (suc n) first zero h = ap (λ d. some (cell d)) (omega arith)
get_elem?-days_from cell (suc n) first (suc i) h =
    get_elem?-days_from cell n (first + 1) i (omega arith) ∙ ap (λ d. some (cell d)) (omega arith)

module _ (cell : ℕ → Cell) where
  pub draw_days-IsFilled :
      (left i current_day : ℕ) (g : Grid)
      → IsFilled i current_day g
      → IsFilled (i + left) (current_day + left) (draw_days cell left i current_day g)
  unfolding draw_days
  draw_days-IsFilled zero i current_day g v = rw (add-zero i, add-zero current_day) v
  draw_days-IsFilled (suc left) i current_day g v =
      subst₂ (λ j d. IsFilled j d (draw_days cell (suc left) i current_day g)) (omega arith)
        (omega arith)
        (draw_days-IsFilled left (i + 1) (current_day + 1) _
          (add_day-IsFilled (cell current_day) i current_day g v))

  pub cells-draw_days :
      (left i current_day : ℕ) (g : Grid)
      → cells (draw_days cell left i current_day g) ≡ cells g ++ days_from cell left current_day
  unfolding draw_days
  cells-draw_days zero i current_day g = sym (append-nil (cells g))
  cells-draw_days (suc left) i current_day g =
      cells-draw_days left (i + 1) (current_day + 1) _
      ∙ ap (λ c. c ++ days_from cell left (current_day + 1))
          (cells-add_day (cell current_day) i current_day g)
      ∙ append_assoc (cells g) (cell current_day ∷ []) _

abbrev pub start_grid : ℕ → Grid
start_grid start = record { rows = []; table_row = replicate start nonday }

pub start_grid-IsFilled : (start : ℕ) → start ≤ 6 → IsFilled start 1 (start_grid start)
start_grid-IsFilled start h = record {
  full = tt;
  position = omega (arith, length-replicate start nonday);
  fits = omega (arith, length-replicate start nonday);
  opened = λ ne. absurd (ne refl);
  first = λ _. omega (arith, length-replicate start nonday);
  counted = omega arith;
}
