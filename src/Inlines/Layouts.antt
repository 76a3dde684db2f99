-- ===== src/Inlines/Layouts.antt =====
-- static/admin/js/inlines.js, the two layouts of a formset: the labels of stacked forms and the
-- classes of rows. The rows that a layout's selector finds are the forms' and, after them, the
-- template's. The widgets that `added` sets up in a new form are left out.
pub mod Labels
pub mod Counted
pub mod Rows
use bluetooth_autonomous_car.Prelude.{
  ℕ, zero, suc, ◌+◌, Bool, true, false, not, ◌&&◌, List, [], ◌∷◌, ◌++◌, Option, if◌then◌else◌, ◌==◌,
  length, get_elem?,
}
use bluetooth_autonomous_car.Text.{Text, codes, dec, is_digit, starts_with_one}
use bluetooth_autonomous_car.Inlines.{
  Form, Formset, FormsetEvent, add, delete, formset_event, is_deletable, remove_at,
}

-- `replace(/(#\d+)/g, "#" + count)`; the argument is whether the digits of a match are passed.
pub replace_counts : ℕ → Bool → Text → Text
replace_counts count passing [] = []
replace_counts count passing (c ∷ s) =
    let passed = replace_counts count true s in
    let next = c ∷ replace_counts count false s in
    if passing && is_digit c
    then passed
    else if (c == b'#') && starts_with_one is_digit s
    then b'#' ∷ (dec count ++ passed)
    else next

pub update_labels : ℕ → List Text → List Text
unfolding replace_counts
update_labels i [] = []
update_labels i (label ∷ labels) = replace_counts (i + 1) false label ∷ update_labels (i + 1) labels

-- A row's classes, and whether it is that of the add button.
pub record RowClasses : Type 0 where
  pub add_row : Bool
  pub row1 : Bool
  pub row2 : Bool

-- `even` is whether the row is the first, the third and so on of those without the class `add-row`.
pub alternating_rows : Bool → List RowClasses → List RowClasses
alternating_rows even [] = []
alternating_rows even (r ∷ rows) =
    if r.add_row
    then r ∷ alternating_rows even rows
    else record r { row1 = even; row2 = not even } ∷ alternating_rows (not even) rows

-- A stacked formset with the labels of its forms and its template's.
pub record Stacked : Type 0 where
  pub formset : Formset
  pub labels : List Text

-- The copy of the template's label, before the template's.
pub copy_label : List Text → List Text
copy_label [] = []
copy_label (label ∷ []) = label ∷ label ∷ []
copy_label (label ∷ l ∷ labels) = label ∷ copy_label (l ∷ labels)

-- The click, and then `added` or `removed`.
pub stacked_event : Text → Option ℕ → Form → FormsetEvent → Stacked → Stacked
unfolding formset_event update_labels copy_label remove_at
stacked_event prefix max template add s =
    if s.formset.button
    then record {
      formset = formset_event prefix max template add s.formset;
      labels = update_labels 0 (copy_label s.labels);
    }
    else s
stacked_event prefix max template (delete i) s =
    if is_deletable (get_elem? s.formset.forms i)
    then record {
      formset = formset_event prefix max template (delete i) s.formset;
      labels = update_labels 0 (remove_at i s.labels);
    }
    else s

pub stacked_session : Text → Option ℕ → Form → List FormsetEvent → Stacked → Stacked
unfolding stacked_event
stacked_session prefix max template [] s = s
stacked_session prefix max template (e ∷ events) s =
    stacked_session prefix max template events (stacked_event prefix max template e s)
