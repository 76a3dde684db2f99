-- ===== src/Popups/Responses.antt =====
-- static/admin/js/popup_response.js, the answer of a popup, and what the page that opened the popup does
-- with it (admin/js/admin/RelatedObjectLookups.js). The value that select2 draws is left out, and so are the
-- events of a change. An id is taken to have only characters that a selector can hold.
pub mod Undone
pub mod Stale
pub mod Examples
use bluetooth_autonomous_car.Prelude.{
  ℕ, zero, suc, ◌-◌, Bool, true, false, List, [], ◌∷◌, ◌++◌, Option, none, some, ◌==◌,
  if◌then◌else◌, length, map,
}
use bluetooth_autonomous_car.Text.{Text, codes, same_text, is_empty, starts_with}
use bluetooth_autonomous_car.SelectBox.{OptionElement, Page, update, update_at}
use bluetooth_autonomous_car.Popups.{
  Target, select_element, input_element, other_element, windowname_to_id, without_lead,
  change_options, remove_options, dismiss_add,
}

-- The page that opened the popup: the elements that have ids, and the boxes of the selectors.
pub record Opener : Type 0 where
  pub elements : Text → Option Target
  pub page : Page

-- `find('option').each`, on the element of the id and on the boxes that are named after it.
pub on_target : (Bool → List OptionElement → List OptionElement) → Option Target → Option Target
on_target f (some (select_element multiple options)) =
    some (select_element multiple (f multiple options))
on_target f t = t

pub on_box : (List OptionElement → List OptionElement) → Text → Page → Page
on_box f id p = elim (p.document id) [
  | none ↦ p
  | some box ↦ record p { options = update_at p.options box (f (p.options box)) }
]

pub on_selects : (Bool → List OptionElement → List OptionElement) → Text → Opener → Opener
unfolding on_target on_box
on_selects f id o = record {
  elements = update o.elements id (on_target f (o.elements id));
  page = on_box (f true) (id ++ codes "_to") (on_box (f true) (id ++ codes "_from") o.page);
}

dismiss_change : Text → Text → Text → Text → Opener → Opener
unfolding on_selects change_options windowname_to_id without_lead
dismiss_change window old repr id o =
    on_selects (λ multiple. change_options old repr id)
      (without_lead (codes "edit_" ∷ []) (windowname_to_id window)) o

pub dismiss_delete : Text → Text → Opener → Opener
unfolding on_selects remove_options windowname_to_id without_lead
dismiss_delete window old o =
    on_selects (λ multiple. remove_options multiple old)
      (without_lead (codes "delete_" ∷ []) (windowname_to_id window)) o

-- `dismissAddRelatedObjectPopup`, where the page of the popup calls it: what it leaves in the element
-- of the name and in the boxes.
pub put_back : Text → Opener → Option (Option Target × Page) → Option Opener
put_back name o none = none
put_back name o (some (target, p)) =
    some (record { elements = update o.elements name target; page = p })

pub dismiss_added : Text → Text → Text → Opener → Option Opener
unfolding dismiss_add put_back windowname_to_id
dismiss_added window id repr o =
    let name = windowname_to_id window in
    put_back name o (dismiss_add (o.elements name) window id repr o.page)

-- What the server writes into the popup's page.
pub record InitData : Type 0 where
  pub action : Text
  pub value : Text
  pub obj : Text
  pub new_value : Text

pub respond : Text → InitData → Opener → Option Opener
unfolding dismiss_change dismiss_delete dismiss_added
respond window d o =
    let added = dismiss_added window d.value d.obj o in
    if same_text d.action (codes "change")
    then some (dismiss_change window d.value d.obj d.new_value o)
    else if same_text d.action (codes "delete")
    then some (dismiss_delete window d.value o)
    else added
