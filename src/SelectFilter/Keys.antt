-- ===== src/SelectFilter/Keys.antt =====
-- The arrow keys in the filter field move the selection of the first box, round its ends.
use native.Mathlib.Nat.{mod-eq_of_lt, mod_self}
use bluetooth_autonomous_car.Prelude.{
  ℕ, zero, suc, ◌+◌, ◌-◌, ◌%◌, ◌<◌, ◌≡◌, refl, ap, ◌∙◌, arith, true, false, List, [], ◌∷◌, some,
  length, ◌==◌, if◌then◌else◌, ℤ, pos, negsuc, ◌+ℤ◌, ◌-ℤ◌, Bool-cases, inl, inr,
}
use bluetooth_autonomous_car.Text.{Text}
use bluetooth_autonomous_car.SelectBox.{OptionElement, Page, update_at}
use bluetooth_autonomous_car.SelectBox.Boxes.{eq_at_self}
use bluetooth_autonomous_car.SelectFilter.{
  from_id, Key, is_key, selected_index, select_only, set_index, set_selected_index, down_index,
  up_index, filter_key_down,
}

-- A browser reports the code of a key in both properties.
abbrev pub key : ℕ → Key
key code = record { which = code; key_code = code }

-- The page with one option of the element selected.
abbrev pub with_only : ℕ → ℕ → Page → Page
with_only box i p = record p { options = update_at p.options box (select_only i (p.options box)) }

shifted-lt :
    (z : ℤ) (n i : ℕ)
    → ((j : ℕ) → z ≡ pos j → j < n)
    → elim z [ pos j ↦ pos (suc j) | negsuc j ↦ negsuc j ] ≡ pos i
    → i < suc n
shifted-lt (pos j) n i below h = ground (arith, below j refl)
shifted-lt (negsuc j) n i below h = cc

selected_index-lt :
    (options : List OptionElement) (i : ℕ) → selected_index options ≡ pos i → i < length options
unfolding selected_index
selected_index-lt [] i h = cc
selected_index-lt (o ∷ options) i h = elim (Bool-cases o.selected) [
  | inl here ↦ let first : pos 0 ≡ pos i = rw here at h in let at_first : 0 ≡ i = cc in omega arith
  | inr there ↦
      shifted-lt (selected_index options) (length options) i (selected_index-lt options)
        (rw there at h)
]

pos-add_one : (i : ℕ) → pos i +ℤ pos 1 ≡ pos (i + 1)
unfolding ◌+ℤ◌
pos-add_one i = ground arith

pos-sub_one : (n : ℕ) → 0 < n → pos n -ℤ pos 1 ≡ pos (n - 1)
unfolding ◌-ℤ◌
pos-sub_one n h = ground arith

-- The two computations of an index, at a list of `n` options.
next_index : (n i : ℕ) → i < n → (if n == i + 1 then pos 0 else pos (i + 1)) ≡ pos ((i + 1) % n)
next_index n i h = elim (Bool-cases (n == i + 1)) [
  | inl last ↦ let e : n ≡ i + 1 = ground arith in rw (e, eq_at_self (i + 1), mod_self (i + 1)) refl
  | inr inside ↦ let below : i + 1 < n = ground arith in rw (inside, mod-eq_of_lt below) refl
]

previous_mod : (n i : ℕ) → suc i < n → i ≡ (suc i + n - 1) % n
previous_mod n i h =
    let e : suc i + n - 1 ≡ i + n = omega arith in
    let below : i < n = omega arith in rw e (grind arith)

previous_index :
    (n i : ℕ) → i < n → (if i == 0 then pos n -ℤ pos 1 else pos i -ℤ pos 1) ≡ pos ((i + n - 1) % n)
previous_index n zero h =
    let e : 0 + n - 1 ≡ n - 1 = omega arith in
    let below : n - 1 < n = omega arith in rw (e, mod-eq_of_lt below) (pos-sub_one n h)
previous_index n (suc i) h =
    let not_first : (suc i == 0) ≡ false = ground arith in
    let back : suc i - 1 ≡ i = omega arith in
    rw not_first (pos-sub_one (suc i) (omega arith) ∙ ap pos (back ∙ previous_mod n i h))

down_index-mod :
    (options : List OptionElement) (i : ℕ)
    → selected_index options ≡ pos i
    → down_index options ≡ pos ((i + 1) % length options)
unfolding down_index
down_index-mod options i h =
    rw (h, pos-add_one i) (next_index (length options) i (selected_index-lt options i h))

up_index-mod :
    (options : List OptionElement) (i : ℕ)
    → selected_index options ≡ pos i
    → up_index options ≡ pos ((i + length options - 1) % length options)
unfolding up_index
up_index-mod options i h = rw h (previous_index (length options) i (selected_index-lt options i h))

in_range : (n i j : ℕ) → i < n → j % n < n
in_range n i j h = grind arith

-- When an option of the first box is selected, the arrow down selects the one after it and the
-- arrow up the one before, and no other; after the last one comes the first, and before the first
-- the last, so the index is again one of the box's. The page is otherwise as it was.
pub filter_key_down-wraps :
    (field : Text) (p : Page) (box i n : ℕ)
    → p.document (from_id field) ≡ some box
    → selected_index (p.options box) ≡ pos i
    → n ≡ length (p.options box)
    → (filter_key_down field (key 40) p ≡ some (with_only box ((i + 1) % n) p, true))
      × ((i + 1) % n < n)
      × (filter_key_down field (key 38) p ≡ some (with_only box ((i + n - 1) % n) p, true))
      × ((i + n - 1) % n < n)
unfolding filter_key_down is_key set_selected_index set_index
filter_key_down-wraps field p box i n named h e = rw e (
  rw (named, down_index-mod (p.options box) i h) refl,
  in_range (length (p.options box)) i (i + 1) (selected_index-lt (p.options box) i h),
  rw (named, up_index-mod (p.options box) i h) refl,
  in_range (length (p.options box)) i (i + length (p.options box) - 1)
      (selected_index-lt (p.options box) i h),
)
