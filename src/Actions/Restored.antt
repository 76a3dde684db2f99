-- ===== src/Actions/Restored.antt =====
-- The set-up of a page that the browser restored after all the objects had been chosen.
use bluetooth_autonomous_car.Prelude.{
  ℕ, zero, suc, ◌≤◌, ◌≡◌, refl, ap, ap₂, subst, sym, ◌∙◌, arith, true, false, List, [], ◌∷◌, none,
  if◌then◌else◌, length, ◌==◌,
}
use bluetooth_autonomous_car.Text.{Text, codes}
use bluetooth_autonomous_car.Actions.{
  Row, State, all_checked, count_checked, update_counter, show_question, update_row,
  flip_highlighted, visit, visit_all, checked_from, ready,
}
use bluetooth_autonomous_car.Actions.Rows.{all_checked-at, length-update_row}
use bluetooth_autonomous_car.Actions.Visits.{visit_lem}

count_checked-flip :
    (i : ℕ) (rows : List Row)
    → count_checked (update_row i flip_highlighted rows) ≡ count_checked rows
unfolding count_checked update_row
count_checked-flip i [] = refl
count_checked-flip zero (r ∷ rows) = refl
count_checked-flip (suc i) (r ∷ rows) =
    ap (λ n. if r.checked then suc n else n) (count_checked-flip i rows)

all_checked-flip :
    (i : ℕ) (rows : List Row) → all_checked (update_row i flip_highlighted rows) ≡ all_checked rows
unfolding all_checked
all_checked-flip i rows =
    ap₂ (λ m n. m == n) (count_checked-flip i rows) (length-update_row i flip_highlighted rows)

-- All boxes are checked and the value is 1, yet the page asks whether to choose all objects.
pub record IsMisshown (s : State) : Type 0 where
  pub all_on : all_checked s.rows ≡ true
  pub across_on : s.across ≡ codes "1"
  pub toggle_on : s.toggle ≡ true
  pub no_clear : s.clears ≡ false
  pub asked : s.questions ≡ true

update_counter-IsMisshown :
    (label_of : ℕ → Text) (s : State)
    → all_checked s.rows ≡ true
    → s.across ≡ codes "1"
    → IsMisshown (update_counter label_of s)
unfolding update_counter show_question
update_counter-IsMisshown label_of s all h =
    rw all (record { all_on = all; across_on = h; toggle_on = refl; no_clear = refl; asked = refl })

visit-IsMisshown :
    (label_of : ℕ → Text) (i : ℕ) (s : State)
    → all_checked s.rows ≡ true
    → s.across ≡ codes "1"
    → IsMisshown (visit label_of i s)
visit-IsMisshown label_of i s all h =
    let counted = record s { rows = update_row i flip_highlighted s.rows } in
    subst IsMisshown (sym (visit_lem label_of i s))
      (update_counter-IsMisshown label_of counted (all_checked-flip i s.rows ∙ all) h)

visit_all-IsMisshown :
    (label_of : ℕ → Text) (is : List ℕ) (s : State)
    → IsMisshown s
    → IsMisshown (visit_all label_of is s)
unfolding visit_all
visit_all-IsMisshown label_of [] s v = v
visit_all-IsMisshown label_of (i ∷ is) s v =
    visit_all-IsMisshown label_of is (visit label_of i s)
      (visit-IsMisshown label_of i s v.all_on v.across_on)

checked_from-some :
    (rows : List Row)
    → 1 ≤ length rows
    → all_checked rows ≡ true
    → (is : List ℕ) × (checked_from 0 rows ≡ 0 ∷ is)
unfolding checked_from
checked_from-some [] n all = absurd (omega arith)
checked_from-some (r ∷ rows) n all =
    (checked_from 1 rows, rw (all_checked-at (r ∷ rows) 0 r all refl) refl)

-- Where the browser restores a page whose boxes are all checked and whose value is 1, the set-up asks
-- the question again and hides the link to clear, and the value stays 1.
pub ready-IsMisshown :
    (label_of : ℕ → Text) (s : State)
    → 1 ≤ length s.rows
    → all_checked s.rows ≡ true
    → s.across ≡ codes "1"
    → IsMisshown (ready label_of s)
unfolding ready visit_all
ready-IsMisshown label_of s n all h =
    let (is, e) = checked_from-some s.rows n all in
    let shown = record s { counter = true } in
    finish _ (
      subst (λ js. IsMisshown (visit_all label_of js shown)) (sym e)
        (visit_all-IsMisshown label_of is (visit label_of 0 shown)
          (visit-IsMisshown label_of 0 shown all h)))
  where
    finish :
        (s' : State)
        → IsMisshown s'
        → IsMisshown (record s' { toggle_shown = true; last_checked = none })
    finish s' v = record {
      all_on = v.all_on;
      across_on = v.across_on;
      toggle_on = v.toggle_on;
      no_clear = v.no_clear;
      asked = v.asked;
    }
