-- ===== src/Actions.antt =====
-- static/admin/js/actions.js: the check boxes of a change list, the box that toggles them all, and
-- the links that choose the objects of all pages. A check box is named by its place in the list;
-- its row is the table row around it. The page has one of each element that the options name. A
-- call of jQuery is read as what it does to these: `show`, `hide`, `val`, `prop`, and
-- `toggleClass`, which sets the class if its second argument is a Boolean and else flips it.
-- `label_of` is the translated text of the counter for a number of checked boxes.
pub mod Rows
pub mod Range
pub mod Clicked
pub mod Consistent
pub mod Modes
pub mod Visits
pub mod Ready
pub mod Restored
pub mod Examples
use bluetooth_autonomous_car.Prelude.{
  ℕ, zero, suc, ◌+◌, Bool, true, false, not, ◌&&◌, ◌||◌, List, [], ◌∷◌, Option, none, some, ◌==◌,
  if◌then◌else◌, map, length, get_elem?,
}
use bluetooth_autonomous_car.Text.{Text, codes}

pub record Row : Type 0 where
  pub checked : Bool
  pub highlighted : Bool

-- `across` is the value of the hidden input, `clears`, `questions`, `all` and `counter` are the
-- elements that are visible, `container` is the class of the actions' element.
pub record State : Type 0 where
  pub rows : List Row
  pub toggle : Bool
  pub toggle_shown : Bool
  pub across : Text
  pub clears : Bool
  pub questions : Bool
  pub all : Bool
  pub counter : Bool
  pub container : Bool
  pub label : Text
  pub last_checked : Option ℕ
  pub list_editable_changed : Bool

pub show_question : State → State
show_question s = record s { clears = false; questions = true; all = false }

pub show_clear : State → State
show_clear s = record s {
  clears = true;
  questions = false;
  container = not s.container;
  all = true;
  counter = false;
}

pub reset : State → State
reset s = record s { clears = false; questions = false; all = false; counter = true }

pub clear_across : State → State
unfolding reset
clear_across s = record (reset s) { across = codes "0"; container = false }

-- The argument of `checker`: a Boolean, or the number 0.
pub data Flag : Type 0 where
  boolean : Bool → Flag
  number : ℕ → Flag

pub truthy : Flag → Bool
truthy (boolean b) = b
truthy (number n) = not (n == 0)

-- `toggleClass(name, flag)` on an element that has the class or not.
pub toggle_class : Flag → Bool → Bool
toggle_class (boolean b) has = b
toggle_class (number n) has = not has

pub check_row : Flag → Row → Row
unfolding truthy toggle_class
check_row flag r = record { checked = truthy flag; highlighted = toggle_class flag r.highlighted }

pub checker : Flag → State → State
unfolding truthy check_row show_question reset
checker flag s =
    let shown = if truthy flag then show_question s else reset s in
    record shown { rows = map (check_row flag) s.rows }

pub count_checked : List Row → ℕ
count_checked [] = 0
count_checked (r ∷ rows) = if r.checked then suc (count_checked rows) else count_checked rows

pub all_checked : List Row → Bool
unfolding count_checked
all_checked rows = count_checked rows == length rows

pub update_counter : (ℕ → Text) → State → State
unfolding count_checked all_checked show_question clear_across
update_counter label_of s =
    let labelled = record s { label = label_of (count_checked s.rows) } in
    if all_checked s.rows
    then record (show_question labelled) { toggle = true }
    else record (clear_across labelled) { toggle = false }

pub update_row : ℕ → (Row → Row) → List Row → List Row
update_row i f [] = []
update_row zero f (r ∷ rows) = f r ∷ rows
update_row (suc i) f (r ∷ rows) = r ∷ update_row i f rows

-- `===` of a string and a number: values of two types are never the same.
pub strictly_equal : Text → ℕ → Bool
strictly_equal s n = false

abbrev pub flip_highlighted : Row → Row
flip_highlighted r = record r { highlighted = not r.highlighted }

-- The set-up of one checked box.
pub visit : (ℕ → Text) → ℕ → State → State
unfolding update_row update_counter strictly_equal show_clear
visit label_of i s =
    let counted =
      update_counter label_of (record s { rows = update_row i flip_highlighted s.rows }) in
    if strictly_equal counted.across 1 then show_clear counted else counted

pub visit_all : (ℕ → Text) → List ℕ → State → State
unfolding visit
visit_all label_of [] s = s
visit_all label_of (i ∷ is) s = visit_all label_of is (visit label_of i s)

-- The places of the checked boxes, from `i` on.
pub checked_from : ℕ → List Row → List ℕ
checked_from i [] = []
checked_from i (r ∷ rows) =
    if r.checked then i ∷ checked_from (i + 1) rows else checked_from (i + 1) rows

-- The set-up of the page.
pub ready : (ℕ → Text) → State → State
unfolding checked_from visit_all
ready label_of s =
    record (visit_all label_of (checked_from 0 s.rows) (record s { counter = true })) {
      toggle_shown = true;
      last_checked = none;
    }

-- A click on the box that toggles all: the browser changes it first.
pub toggle_click : (ℕ → Text) → State → State
unfolding checker update_counter
toggle_click label_of s =
    let clicked = record s { toggle = not s.toggle } in
    update_counter label_of (checker (boolean clicked.toggle) clicked)

pub question_link : State → State
unfolding show_clear
question_link s = show_clear (record s { across = codes "1" })

pub clear_link : (ℕ → Text) → State → State
unfolding clear_across checker update_counter
clear_link label_of s =
    update_counter label_of (checker (number 0) (clear_across (record s { toggle = false })))

abbrev pub set_row : Bool → Row → Row
set_row v r = record { checked = v; highlighted = v }

-- The loop of a click with the shift key, between the boxes `l` and `t`, from the place `j`.
pub set_range : ℕ → ℕ → Bool → ℕ → Bool → List Row → List Row
set_range l t v j inrange [] = []
set_range l t v j inrange (r ∷ rows) =
    let within = if (j == l) || (j == t) then not inrange else inrange in
    (if within then set_row v r else r) ∷ set_range l t v (j + 1) within rows

pub shift_rows : Option ℕ → ℕ → Bool → Bool → List Row → List Row
unfolding update_row set_range
shift_rows none t shift v rows = rows
shift_rows (some l) t shift v rows =
    if not (l == t) && shift then set_range l t v 0 false (update_row l (set_row v) rows) else rows

pub is_checked : Option Row → Bool
is_checked none = false
is_checked (some r) = r.checked

abbrev pub flip_checked : Row → Row
flip_checked r = record r { checked = not r.checked }

abbrev pub highlight : Bool → Row → Row
highlight v r = record r { highlighted = v }

-- The rows after a click on the box `t`, which the browser has changed first.
pub clicked_rows : Option ℕ → ℕ → Bool → List Row → List Row
unfolding update_row shift_rows is_checked
clicked_rows last t shift rows =
    let clicked = update_row t flip_checked rows in
    let v = is_checked (get_elem? clicked t) in
    update_row t (highlight v) (shift_rows last t shift v clicked)

pub box_click : (ℕ → Text) → ℕ → Bool → State → State
unfolding clicked_rows update_counter
box_click label_of t shift s =
    update_counter label_of
      (record s { rows = clicked_rows s.last_checked t shift s.rows; last_checked = some t })

-- A change of an editable field of the list.
pub field_change : State → State
field_change s = record s { list_editable_changed = true }

-- The questions that the buttons ask before they submit the form.
pub data Question : Type 0 where
  unsaved_changes_lost not_saved_yet nothing_changed : Question

pub run_question : State → Option Question
run_question s = if s.list_editable_changed then some unsaved_changes_lost else none

-- `chosen` has the values of the selected options of the action select.
pub has_value : List Text → Bool
has_value [] = false
has_value ([] ∷ chosen) = has_value chosen
has_value ((c ∷ s) ∷ chosen) = true

pub save_question : List Text → State → Option Question
unfolding has_value
save_question chosen s =
    if has_value chosen
    then (if s.list_editable_changed then some not_saved_yet else some nothing_changed)
    else none
