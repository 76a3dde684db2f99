-- ===== src/Actions/Consistent.antt =====
-- The states that the change list can be in, and its events.
use bluetooth_autonomous_car.Prelude.{ℕ, ◌≤◌, ◌<◌, ◌≡◌, Bool, true, false, length, ◌⊎◌}
use bluetooth_autonomous_car.Text.{Text, codes}
use bluetooth_autonomous_car.Actions.{
  State, all_checked, box_click, toggle_click, question_link, clear_link, field_change,
}
use bluetooth_autonomous_car.Actions.Rows.{Matches}

-- Some box of the page is not checked; all are; or the objects of all pages are chosen.
pub record IsPart (s : State) : Type 0 where
  pub rows_part : all_checked s.rows ≡ false
  pub across_part : s.across ≡ codes "0"
  pub clears_part : s.clears ≡ false
  pub questions_part : s.questions ≡ false

pub record IsWhole (s : State) : Type 0 where
  pub rows_whole : all_checked s.rows ≡ true
  pub across_whole : s.across ≡ codes "0"
  pub clears_whole : s.clears ≡ false
  pub questions_whole : s.questions ≡ true

pub record IsAcross (s : State) : Type 0 where
  pub rows_across : all_checked s.rows ≡ true
  pub across_across : s.across ≡ codes "1"
  pub clears_across : s.clears ≡ true
  pub questions_across : s.questions ≡ false

abbrev pub Mode : State → Type 0
Mode s = IsPart s ⊎ (IsWhole s ⊎ IsAcross s)

pub record IsConsistent (s : State) : Type 0 where
  pub inhabited : 1 ≤ length s.rows
  pub matching : Matches s.rows
  pub toggle_is : s.toggle ≡ all_checked s.rows
  pub mode : Mode s

-- An event: a link can be clicked only while it is visible, and a box only if it is there.
pub data Step (label_of : ℕ → Text) : State → State → Type 0 where
  on_toggle : (s : State) → Step label_of s (toggle_click label_of s)
  on_question : (s : State) → s.questions ≡ true → Step label_of s (question_link s)
  on_clear : (s : State) → s.clears ≡ true → Step label_of s (clear_link label_of s)
  on_box :
      (s : State) (t : ℕ) (shift : Bool)
      → t < length s.rows
      → Step label_of s (box_click label_of t shift s)
  on_field : (s : State) → Step label_of s (field_change s)

pub data Steps (label_of : ℕ → Text) : State → State → Type 0 where
  done : (s : State) → Steps label_of s s
  and_then : {s s' s'' : State} → Step label_of s s' → Steps label_of s' s'' → Steps label_of s s''
