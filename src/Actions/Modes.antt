-- ===== src/Actions/Modes.antt =====
-- What the page shows, through any sequence of events: which links are visible, the value that
-- chooses the objects of all pages, and the classes of the rows.
use bluetooth_autonomous_car.Prelude.{
  ℕ, ◌≤◌, ◌<◌, ◌≡◌, refl, sym, ◌∙◌, arith, Bool, true, false, some, length, Bool-cases, inl, inr,
  length-map,
}
use bluetooth_autonomous_car.Text.{Text, codes}
use bluetooth_autonomous_car.Actions.{
  State, boolean, number, truthy, check_row, checker, reset, show_clear, all_checked,
  update_counter, show_question, clear_across, clicked_rows, box_click, toggle_click, question_link,
  clear_link, field_change,
}
use bluetooth_autonomous_car.Actions.Rows.{
  Matches, Matches-checked, Matches-flipped, all_checked-unchecked,
}
use bluetooth_autonomous_car.Actions.Clicked.{
  length-clicked_rows, Matches-clicked_rows, all_checked-clicked_rows,
}
use bluetooth_autonomous_car.Actions.Consistent.{
  Mode, IsConsistent, Step, Steps, on_toggle, on_question, on_clear, on_box, on_field, done,
  and_then,
}

-- What `updateCounter` leaves, where all boxes being checked means that the value is 0.
update_counter-IsConsistent :
    (label_of : ℕ → Text) (s : State)
    → 1 ≤ length s.rows
    → Matches s.rows
    → (all_checked s.rows ≡ true → s.across ≡ codes "0")
    → IsConsistent (update_counter label_of s)
unfolding update_counter show_question clear_across reset
update_counter-IsConsistent label_of s n m h = elim (Bool-cases (all_checked s.rows)) [
  | inl all ↦ rw all (record {
    inhabited = n;
    matching = m;
    toggle_is = sym all;
    mode = inr (
        inl (record {
          rows_whole = all;
          across_whole = h all;
          clears_whole = refl;
          questions_whole = refl;
        }));
  })
  | inr part ↦ rw part (record {
    inhabited = n;
    matching = m;
    toggle_is = sym part;
    mode = inl (record {
      rows_part = part;
      across_part = refl;
      clears_part = refl;
      questions_part = refl;
    });
  })
]

-- The value is 0 unless the link to clear is visible.
across_of_part : (s : State) → Mode s → all_checked s.rows ≡ false → s.across ≡ codes "0"
across_of_part s (inl part) h = part.across_part
across_of_part s (inr (inl whole)) h = whole.across_whole
across_of_part s (inr (inr across)) h = cc (across.rows_across)

toggle_click-IsConsistent :
    (label_of : ℕ → Text) (s : State) → IsConsistent s → IsConsistent (toggle_click label_of s)
unfolding toggle_click checker show_question reset truthy
toggle_click-IsConsistent label_of s v = elim (Bool-cases s.toggle) [
  | inl on ↦ rw on (
      update_counter-IsConsistent label_of (checker (boolean false) (record s { toggle = false }))
        (rw (length-map (check_row (boolean false)) s.rows) v.inhabited)
        (Matches-checked false s.rows)
        (λ e. cc (all_checked-unchecked (boolean false) s.rows refl v.inhabited, e)))
  | inr off ↦ rw off (
      update_counter-IsConsistent label_of (checker (boolean true) (record s { toggle = true }))
        (rw (length-map (check_row (boolean true)) s.rows) v.inhabited)
        (Matches-checked true s.rows) (λ e. across_of_part s v.mode (sym v.toggle_is ∙ off)))
]

question_link-IsConsistent :
    (s : State) → s.questions ≡ true → IsConsistent s → IsConsistent (question_link s)
unfolding question_link show_clear
question_link-IsConsistent s shown v = record {
  inhabited = v.inhabited;
  matching = v.matching;
  toggle_is = v.toggle_is;
  mode = inr (
      inr (record {
        rows_across = whole v.mode;
        across_across = refl;
        clears_across = refl;
        questions_across = refl;
      }));
}
  where
    whole : Mode s → all_checked s.rows ≡ true
    whole (inl part) = cc (part.questions_part)
    whole (inr (inl w)) = w.rows_whole
    whole (inr (inr across)) = across.rows_across

clear_link-IsConsistent :
    (label_of : ℕ → Text) (s : State)
    → s.clears ≡ true
    → IsConsistent s
    → IsConsistent (clear_link label_of s)
unfolding clear_link checker clear_across reset truthy
clear_link-IsConsistent label_of s shown v =
    update_counter-IsConsistent label_of
      (checker (number 0) (clear_across (record s { toggle = false })))
      (rw (length-map (check_row (number 0)) s.rows) v.inhabited)
      (Matches-flipped s.rows v.matching (all v.mode)) (λ e. refl)
  where
    all : Mode s → all_checked s.rows ≡ true
    all (inl part) = cc (part.clears_part)
    all (inr (inl w)) = w.rows_whole
    all (inr (inr across)) = across.rows_across

box_click-IsConsistent :
    (label_of : ℕ → Text) (s : State) (t : ℕ) (shift : Bool)
    → t < length s.rows
    → IsConsistent s
    → IsConsistent (box_click label_of t shift s)
unfolding box_click
box_click-IsConsistent label_of s t shift inside v =
    let rows = clicked_rows s.last_checked t shift s.rows in
    update_counter-IsConsistent label_of (record s { rows = rows; last_checked = some t })
      (omega (arith, length-clicked_rows s.last_checked t shift s.rows, v.inhabited))
      (Matches-clicked_rows s.last_checked t shift s.rows v.matching) (λ e. not_across v.mode e)
  where
    not_across :
        Mode s
        → all_checked (clicked_rows s.last_checked t shift s.rows) ≡ true
        → s.across ≡ codes "0"
    not_across (inl part) e = part.across_part
    not_across (inr (inl whole)) e = whole.across_whole
    not_across (inr (inr across)) e =
        cc (all_checked-clicked_rows s.last_checked t shift s.rows inside across.rows_across, e)

field_change-IsConsistent : (s : State) → IsConsistent s → IsConsistent (field_change s)
unfolding field_change
field_change-IsConsistent s v = record {
  inhabited = v.inhabited;
  matching = v.matching;
  toggle_is = v.toggle_is;
  mode = same v.mode;
}
  where
    same : Mode s → Mode (field_change s)
    same (inl p) = inl (record {
      rows_part = p.rows_part;
      across_part = p.across_part;
      clears_part = p.clears_part;
      questions_part = p.questions_part;
    })
    same (inr (inl w)) = inr (
        inl (record {
          rows_whole = w.rows_whole;
          across_whole = w.across_whole;
          clears_whole = w.clears_whole;
          questions_whole = w.questions_whole;
        }))
    same (inr (inr a)) = inr (
        inr (record {
          rows_across = a.rows_across;
          across_across = a.across_across;
          clears_across = a.clears_across;
          questions_across = a.questions_across;
        }))

Step-IsConsistent :
    (label_of : ℕ → Text) {s s' : State} → Step label_of s s' → IsConsistent s → IsConsistent s'
Step-IsConsistent label_of (on_toggle s) v = toggle_click-IsConsistent label_of s v
Step-IsConsistent label_of (on_question s shown) v = question_link-IsConsistent s shown v
Step-IsConsistent label_of (on_clear s shown) v = clear_link-IsConsistent label_of s shown v
Step-IsConsistent label_of (on_box s t shift inside) v =
    box_click-IsConsistent label_of s t shift inside v
Step-IsConsistent label_of (on_field s) v = field_change-IsConsistent s v

-- Through any sequence of events, from a consistent page with at least one box: every row is
-- highlighted just when its box is checked, the box that toggles them all is checked just when all
-- are, and the page shows one of three modes. Some box is unchecked, the value that chooses the
-- objects of all pages is 0 and neither link is visible; or all are checked, the value is 0 and only
-- the question is visible; or all are checked, the value is 1 and only the link to clear is visible.
pub Steps-IsConsistent :
    (label_of : ℕ → Text) {s s' : State} → Steps label_of s s' → IsConsistent s → IsConsistent s'
Steps-IsConsistent label_of (done s) v = v
Steps-IsConsistent label_of (and_then step steps) v =
    Steps-IsConsistent label_of steps (Step-IsConsistent label_of step v)
