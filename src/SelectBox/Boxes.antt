-- ===== src/SelectBox/Boxes.antt =====
-- A select box of the page: its element, its options and its cache, and `redisplay` of them.
use bluetooth_autonomous_car.Prelude.{
  ℕ, ◌+◌, ◌<◌, ◌≡◌, ◌≢◌, arith, true, false, List, [], some, ◌==◌, refl, ◌∷◌, All, Bool-cases, inl,
  inr,
}
use bluetooth_autonomous_car.Text.{Text}
use bluetooth_autonomous_car.Text.Same.{same_text_refl, same_text_ne}
use bluetooth_autonomous_car.SelectBox.{
  OptionElement, Node, Page, update, update_at, redisplay, displayed_options,
}

-- The id names an element of the page, with these options and this cache.
pub record IsBox (id : Text) (options : List OptionElement) (nodes : List Node) (p : Page)
    : Type 0 where
  pub element : ℕ
  pub in_document : p.document id ≡ some element
  pub allocated : element < p.fresh
  pub shows : p.options element ≡ options
  pub cached : p.cache id ≡ some nodes

-- Two boxes with elements of their own.
pub record IsPair (from to : Text) (fo : List OptionElement) (f : List Node)
    (to_options : List OptionElement) (t : List Node) (p : Page) : Type 0 where
  pub from_box : IsBox from fo f p
  pub to_box : IsBox to to_options t p
  pub two_elements : from_box.element ≢ to_box.element

pub eq_at_ne : (a b : ℕ) → a ≢ b → (a == b) ≡ false
eq_at_ne a b h = ground arith

pub eq_at_self : (a : ℕ) → (a == a) ≡ true
eq_at_self a = ground arith

pub fresh_next : (n : ℕ) → n < n + 1
fresh_next n = omega arith

pub lt_next : {a b : ℕ} → a < b → a < b + 1
lt_next h = omega arith

pub ne_of_lt : {a b : ℕ} → a < b → a ≢ b
ne_of_lt h = omega arith

-- The page after `redisplay` of a box.
abbrev redisplayed : Text → ℕ → List Node → Page → Page
redisplayed id element nodes p = record p {
  document = update p.document id (some p.fresh);
  options = update_at (update_at p.options element []) p.fresh (displayed_options nodes);
  fresh = p.fresh + 1;
}

module _ (id : Text) {options : List OptionElement} {nodes : List Node} {p : Page}
    (box : IsBox id options nodes p) where
  pub redisplay_lem : redisplay id p ≡ some (redisplayed id box.element nodes p)
  unfolding redisplay
  redisplay_lem = simp (box.in_document, box.cached)

  -- The box itself shows its displayed nodes, none of them selected.
  unfoldable pub redisplayed-IsBox :
      IsBox id (displayed_options nodes) nodes (redisplayed id box.element nodes p)
  redisplayed-IsBox = record {
    element = p.fresh;
    in_document = simp (same_text_refl id);
    allocated = fresh_next p.fresh;
    shows = simp (eq_at_self p.fresh);
    cached = box.cached;
  }

  -- Another box keeps its element, its options and its cache.
  unfoldable pub redisplayed-IsBox_other :
      (other : Text) {options' : List OptionElement} {nodes' : List Node}
      → other ≢ id
      → (b : IsBox other options' nodes' p) → b.element ≢ box.element
      → IsBox other options' nodes' (redisplayed id box.element nodes p)
  redisplayed-IsBox_other other ne b apart = record {
    element = b.element;
    in_document = simp (same_text_ne other id ne, b.in_document);
    allocated = lt_next b.allocated;
    shows = simp (
      eq_at_ne b.element p.fresh (ne_of_lt b.allocated),
      eq_at_ne b.element box.element apart,
      b.shows,
    );
    cached = b.cached;
  }

-- `redisplay` makes options that are not selected.
pub displayed_options_unselected :
    (nodes : List Node) → All (λ o. o.selected ≡ false) (displayed_options nodes)
unfolding displayed_options
displayed_options_unselected [] = tt
displayed_options_unselected (n ∷ nodes) = elim (Bool-cases n.displayed) [
  | inl shown ↦ rw shown (refl, displayed_options_unselected nodes)
  | inr hidden ↦ rw hidden (displayed_options_unselected nodes)
]
