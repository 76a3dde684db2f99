-- ===== src/Actions/Visits.antt =====
-- The visits of the boxes when the page is set up, as flips of rows.
use bluetooth_autonomous_car.Prelude.{ℕ, ◌≡◌, refl, ap, ◌∙◌, List, [], ◌∷◌}
use bluetooth_autonomous_car.Text.{Text}
use bluetooth_autonomous_car.Actions.{
  Row, State, update_counter, update_row, strictly_equal, flip_highlighted, visit, visit_all,
}
use bluetooth_autonomous_car.Actions.Range.{rows-update_counter}

-- One visit counts and shows as `updateCounter` does; the test for a restored value never holds.
pub visit_lem :
    (label_of : ℕ → Text) (i : ℕ) (s : State)
    → visit label_of i s
      ≡ update_counter label_of (record s { rows = update_row i flip_highlighted s.rows })
unfolding visit strictly_equal
visit_lem label_of i s = refl

rows-visit :
    (label_of : ℕ → Text) (i : ℕ) (s : State)
    → (visit label_of i s).rows ≡ update_row i flip_highlighted s.rows
rows-visit label_of i s =
    ap (λ x. x.rows) (visit_lem label_of i s)
    ∙ rows-update_counter label_of (record s { rows = update_row i flip_highlighted s.rows })

-- The flips alone.
abbrev pub flip_all : List ℕ → List Row → List Row
flip_all [] rows = rows
flip_all (i ∷ is) rows = flip_all is (update_row i flip_highlighted rows)

pub rows-visit_all :
    (label_of : ℕ → Text) (is : List ℕ) (s : State)
    → (visit_all label_of is s).rows ≡ flip_all is s.rows
unfolding visit_all
rows-visit_all label_of [] s = refl
rows-visit_all label_of (i ∷ is) s =
    rows-visit_all label_of is (visit label_of i s) ∙ ap (flip_all is) (rows-visit label_of i s)
