-- ===== src/SelectFilter.antt =====
-- static/admin/js/SelectFilter2.js: the two boxes of a multiple choice, the links between them and
-- the field that filters the first, over SelectBox. The elements that `init` builds are taken as
-- built; what it does after that is `init_boxes`. A `Widget` is the page with the four links, each of
-- which is active or not. `none` is a TypeError.
pub mod Touched
pub mod Moved
pub mod Events
pub mod Steps
pub mod Submitted
pub mod Started
pub mod Icons
pub mod Keys
pub mod Examples
use bluetooth_autonomous_car.Prelude.{
  ℕ, zero, suc, Bool, true, false, ◌&&◌, ◌||◌, not, List, [], ◌∷◌, ◌++◌, Option, some, map, length,
  ◌==◌, if◌then◌else◌, ℤ, pos, negsuc, ◌+ℤ◌, ◌-ℤ◌,
}
use bluetooth_autonomous_car.Text.{Text, codes, same_text}
use bluetooth_autonomous_car.SelectBox.{
  OptionElement, Page, ◌>>=◌, update_at, init, filter, move, move_all, select_all,
}

-- Which of the links have the class `active`.
pub record ActiveLinks : Type 0 where
  pub add : Bool
  pub remove : Bool
  pub add_all : Bool
  pub remove_all : Bool

pub record Widget : Type 0 where
  pub page : Page
  pub icons : ActiveLinks

abbrev pub from_id : Text → Text
from_id field = field ++ codes "_from"

abbrev pub to_id : Text → Text
to_id field = field ++ codes "_to"

-- The property `selectedIndex` of a box that allows several selections: the first selected option,
-- or -1. To set it selects that option alone, or none if there is no such option.
unfoldable pub selected_index : List OptionElement → ℤ
selected_index [] = negsuc 0
selected_index (o ∷ options) =
    if o.selected
    then pos 0
    else elim (selected_index options) [ pos i ↦ pos (suc i) | negsuc i ↦ negsuc i ]

abbrev pub deselect : OptionElement → OptionElement
deselect o = record o { selected = false }

unfoldable pub select_only : ℕ → List OptionElement → List OptionElement
select_only i [] = []
select_only zero (o ∷ options) = record o { selected = true } ∷ map deselect options
select_only (suc i) (o ∷ options) = deselect o ∷ select_only i options

unfoldable pub set_index : ℤ → List OptionElement → List OptionElement
unfolding select_only
set_index (pos i) options = select_only i options
set_index (negsuc i) options = map deselect options

-- `box.selectedIndex = i`, on the element that the variable `box` holds.
unfoldable pub set_selected_index : ℕ → ℤ → Page → Page
set_selected_index box i p = record p {
  options = update_at p.options box (set_index i (p.options box));
}

-- A required box with several selections is valid when some option is selected.
unfoldable pub any_selected : List OptionElement → Bool
any_selected [] = false
any_selected (o ∷ options) = o.selected || any_selected options

abbrev pub any_option : List OptionElement → Bool
any_option [] = false
any_option (o ∷ options) = true

-- The options that a jQuery selection by an id finds: none, if it finds no box.
abbrev pub options_of : Text → Page → List OptionElement
options_of id p = elim (p.document id) [ Option.none ↦ [] | some box ↦ p.options box ]

unfoldable pub icons_of : Text → Page → ActiveLinks
icons_of field p = record {
  add = any_selected (options_of (from_id field) p);
  remove = any_selected (options_of (to_id field) p);
  add_all = any_option (options_of (from_id field) p);
  remove_all = any_option (options_of (to_id field) p);
}

unfoldable pub refresh_icons : Text → Widget → Widget
refresh_icons field w = record w { icons = icons_of field w.page }

-- A link acts while it is active.
unfoldable pub move_selection :
    Text → Bool → (Text → Text → Page → Option Page) → Text → Text → Widget → Option Widget
move_selection field active move_func from to w =
    if active
    then (move_func from to w.page >>= λ p. some (refresh_icons field (record w { page = p })))
    else some w

-- The end of `init`: the caches of the boxes, the move of the options that are selected at the
-- start, and the icons.
unfoldable pub init_boxes : Text → Widget → Option Widget
init_boxes field w = do
  p₁ ← init (from_id field) w.page
  p₂ ← init (to_id field) p₁
  p₃ ← move (from_id field) (to_id field) p₂
  some (refresh_icons field (record w { page = p₃ }))

-- `which` and `keyCode` of a key event, 0 where the browser leaves it undefined.
pub record Key : Type 0 where
  pub which : ℕ
  pub key_code : ℕ

unfoldable pub is_key : ℕ → Key → Bool
is_key code e =
    not (e.which == 0) && (e.which == code) || not (e.key_code == 0) && (e.key_code == code)

-- Enter moves the first option across. The second result is whether the event is stopped.
unfoldable pub enter_pressed : Text → Page → Option (Page × Bool)
enter_pressed field p = do
  from ← p.document (from_id field)
  moved ← move (from_id field) (to_id field) (set_selected_index from (pos 0) p)
  some (set_selected_index from (pos 0) moved, true)

unfoldable pub filter_key_press : Text → Key → Page → Option (Page × Bool)
unfolding enter_pressed
filter_key_press field e p = if is_key 13 e then enter_pressed field p else some (p, false)

-- The text of the field is an argument.
unfoldable pub filter_key_up : (Text → Text) → Text → Text → Page → Option Page
filter_key_up lower field text p = do
  from ← p.document (from_id field)
  let temp = selected_index (p.options from)
  filtered ← filter lower (from_id field) text p
  some (set_selected_index from temp filtered)

abbrev pub box_length : ℕ → Page → ℕ
box_length box p = length (p.options box)

abbrev same_index : ℤ → ℤ → Bool
same_index (pos i) (pos j) = i == j
same_index (negsuc i) (negsuc j) = i == j
same_index _ _ = false

abbrev pub right_index : ℤ → ℕ → ℤ
right_index old_index n = if same_index old_index (pos n) then pos n -ℤ pos 1 else old_index

-- The right arrow moves the selection across, and sets an index on the box that it read before.
unfoldable pub right_arrow : Text → Page → Option (Page × Bool)
right_arrow field p = do
  from ← p.document (from_id field)
  let old_index = selected_index (p.options from)
  moved ← move (from_id field) (to_id field) p
  some (set_selected_index from (right_index old_index (box_length from moved)) moved, false)

-- The arrows down and up go on to the next option, round the ends of the list.
unfoldable pub down_index : List OptionElement → ℤ
down_index options =
    let index = selected_index options in
    if same_index (pos (length options)) (index +ℤ pos 1) then pos 0 else index +ℤ pos 1

unfoldable pub up_index : List OptionElement → ℤ
up_index options =
    let index = selected_index options in
    if same_index index (pos 0) then pos (length options) -ℤ pos 1 else index -ℤ pos 1

abbrev pub set_by : Text → (List OptionElement → ℤ) → Page → Option Page
set_by field index p = do
  from ← p.document (from_id field)
  some (set_selected_index from (index (p.options from)) p)

-- The second result is what the handler returns.
unfoldable pub filter_key_down : Text → Key → Page → Option (Page × Bool)
unfolding right_arrow
filter_key_down field e p =
    if is_key 39 e
    then right_arrow field p
    else ((if is_key 40 e then set_by field down_index p else some p) >>= λ p₁.
        (if is_key 38 e then set_by field up_index p₁ else some p₁) >>= λ p₂. some (p₂, true))

pub data Link : Type 0 where
  choose_all add remove clear_all : Link

unfoldable pub click_link : Text → Link → Widget → Option Widget
click_link field choose_all w =
    move_selection field w.icons.add_all move_all (from_id field) (to_id field) w
click_link field add w = move_selection field w.icons.add move (from_id field) (to_id field) w
click_link field remove w = move_selection field w.icons.remove move (to_id field) (from_id field) w
click_link field clear_all w =
    move_selection field w.icons.remove_all move_all (to_id field) (from_id field) w

-- A double click on an option of the box that has the id.
unfoldable pub double_click : Text → Text → Widget → Option Widget
double_click field id w = do
  moved ←
      if same_text id (to_id field)
      then move (to_id field) (from_id field) w.page
      else move (from_id field) (to_id field) w.page
  some (refresh_icons field (record w { page = moved }))

-- The form is about to be submitted.
unfoldable pub submit : Text → Widget → Option Widget
submit field w = do p ← select_all (to_id field) w.page; some (record w { page = p })
