-- ===== src/Calendar/Layout.antt =====
-- The layout of the table that `draw` builds, whatever the cells hold.
use mathlib.Core.List.{flatten}
use bluetooth_autonomous_car.Prelude.{
  ℕ, ◌+◌, ◌-◌, ◌/◌, ◌%◌, ◌≤◌, ◌≡◌, ap, ap₂, sym, ◌∙◌, arith, ◌++◌, length, length-append,
  length-replicate, replicate, All, All-append, some, get_elem?-append_left, get_elem?-append_right,
  get_elem?, append_assoc,
}
use bluetooth_autonomous_car.Calendar.{Cell, nonday, Grid, draw_days, draw_body}
use bluetooth_autonomous_car.Calendar.Filling.{
  Week, IsFilled, get_cell, get_cell-flatten, flatten-snoc, days_from, length-days_from,
  get_elem?-days_from, draw_days-IsFilled, cells-draw_days, start_grid, start_grid-IsFilled,
}

module _ (cell : ℕ → Cell) (start days : ℕ) (column : start ≤ 6) where
  last_grid : Grid
  last_grid = draw_days cell days start 1 (start_grid start)

  last_grid-IsFilled : IsFilled (start + days) (1 + days) last_grid
  unfolding last_grid
  last_grid-IsFilled = draw_days-IsFilled cell days start 1 _ (start_grid-IsFilled start column)

  draw_body-weeks : All Week (draw_body cell start days)
  unfolding draw_body last_grid
  draw_body-weeks = All-append Week last_grid.rows _ v.full (omega (arith, v.fits, lengths), tt)
    where
      v : IsFilled (start + days) (1 + days) last_grid
      v = last_grid-IsFilled

      blanks : ℕ
      blanks = 7 - length last_grid.table_row

      lengths :
          length (last_grid.table_row ++ replicate blanks nonday)
          ≡ length last_grid.table_row + blanks
      lengths =
          length-append last_grid.table_row _
          ∙ ap (λ n. length last_grid.table_row + n) (length-replicate blanks nonday)

  flatten-draw_body :
      1 ≤ days
      → flatten (draw_body cell start days)
        ≡ replicate start nonday
          ++ (days_from cell days 1 ++ replicate ((7 - (start + days) % 7) % 7) nonday)
  unfolding draw_body last_grid flatten
  flatten-draw_body lo =
      flatten-snoc last_grid.rows _
      ∙ sym (append_assoc (flatten last_grid.rows) last_grid.table_row _)
      ∙ ap₂ (λ c n. c ++ replicate n nonday) (cells-draw_days cell days start 1 (start_grid start))
          blanks
      ∙ append_assoc (replicate start nonday) (days_from cell days 1) _
    where
      v : IsFilled (start + days) (1 + days) last_grid
      v = last_grid-IsFilled

      blanks : 7 - length last_grid.table_row ≡ (7 - (start + days) % 7) % 7
      blanks = omega (arith, v.position, v.fits, v.opened (omega arith))

  -- Where a day stands.
  pub get_cell-draw_body :
      (d : ℕ)
      → 1 ≤ d
      → d ≤ days
      → get_cell (draw_body cell start days) ((start + d - 1) / 7) ((start + d - 1) % 7)
        ≡ some (cell d)
  get_cell-draw_body d lo hi =
      get_cell-flatten _ (start + d - 1) draw_body-weeks
      ∙ ap (λ l. get_elem? l (start + d - 1)) (flatten-draw_body (omega arith))
      ∙ ap (get_elem? _) past
      ∙ get_elem?-append_right (replicate start nonday) _ (d - 1)
      ∙ get_elem?-append_left (days_from cell days 1) _ (d - 1)
          (omega (arith, length-days_from cell days 1))
      ∙ get_elem?-days_from cell days 1 (d - 1) (omega arith)
      ∙ ap (λ n. some (cell n)) (omega arith)
    where
      past : start + d - 1 ≡ length (replicate start nonday) + (d - 1)
      past = omega (arith, length-replicate start nonday)

  -- For a first day's column from 0 to 6 and a month of at least one day, the table's body has full
  -- weeks only, and its cells in reading order are blanks up to the first
  -- day's column, every day once and in order, and the blanks that the last week lacks.
  pub draw_body_lem :
      1 ≤ days
      → All (λ r. length r ≡ 7) (draw_body cell start days)
        × (flatten (draw_body cell start days)
            ≡ replicate start nonday
              ++ (days_from cell days 1 ++ replicate ((7 - (start + days) % 7) % 7) nonday))
  draw_body_lem lo = (draw_body-weeks, flatten-draw_body lo)
