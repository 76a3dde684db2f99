-- ===== src/Collapse.antt =====
-- static/admin/js/collapse.js: the fieldsets that show and hide. A fieldset is named by its number on
-- the page, and the node that a click hits by its ancestors, from itself upwards. `gettext` is the
-- page's translation function. Each fieldset has a heading for its link.
pub mod Toggled
pub mod Examples
use bluetooth_autonomous_car.Prelude.{
  ℕ, zero, suc, Bool, true, false, not, List, [], ◌∷◌, Option, none, some, map, if◌then◌else◌, ◌&&◌,
}
use bluetooth_autonomous_car.Text.{Text, codes, same_text}

-- A node: its name, in capitals, and the number of a fieldset.
pub record PathNode : Type 0 where
  pub node_name : Text
  pub fieldset : ℕ

-- `closestElem`: an element, null, or a TypeError at a node that has no parent.
pub data Found : Type 0 where
  found : PathNode → Found
  null : Found
  type_error : Found

unfoldable pub closest_elem : Text → List PathNode → Found
closest_elem tag [] = type_error
closest_elem tag (elem ∷ []) = if same_text elem.node_name tag then found elem else type_error
closest_elem tag (elem ∷ parent ∷ path) =
    let above = closest_elem tag (parent ∷ path) in
    if same_text elem.node_name tag
    then found elem
    else if same_text parent.node_name (codes "BODY")
    then null
    else above

-- A fieldset of the page: whether it has the class `collapse` and fields with errors; the class `collapsed`; and the text of its link.
pub record Fieldset : Type 0 where
  pub collapsible : Bool
  pub errors : Bool
  pub collapsed : Bool
  pub link : Option Text

module _ (gettext : Text → Text) where
  -- The loop of the page's load, on one fieldset.
  unfoldable pub add_link : Fieldset → Fieldset
  add_link f =
      if f.collapsible && not f.errors
      then record f { collapsed = true; link = some (gettext (codes "Show")) }
      else f

  unfoldable pub load : List Fieldset → List Fieldset
  unfolding add_link
  load fieldsets = map add_link fieldsets

  -- What a click on the link does to the fieldset that it is in.
  unfoldable pub toggle_link : Fieldset → Fieldset
  toggle_link f =
      if f.collapsed
      then record f { collapsed = false; link = some (gettext (codes "Hide")) }
      else record f { collapsed = true; link = some (gettext (codes "Show")) }

  unfoldable pub toggle_at : ℕ → List Fieldset → List Fieldset
  unfolding toggle_link
  toggle_at i [] = []
  toggle_at zero (f ∷ fieldsets) = toggle_link f ∷ fieldsets
  toggle_at (suc i) (f ∷ fieldsets) = f ∷ toggle_at i fieldsets

  -- `toggleFunc`, for a click that a fieldset of a module hears; `none` is a TypeError. The event
  -- stops there, so an outer fieldset does not hear it.
  unfoldable pub toggle_func : Bool → List PathNode → List Fieldset → Option (List Fieldset)
  unfolding closest_elem toggle_at
  toggle_func on_link path fieldsets =
      if on_link
      then elim (closest_elem (codes "FIELDSET") path) [
        | found node ↦ some (toggle_at node.fieldset fieldsets)
        | null ↦ none
        | type_error ↦ none
      ]
      else some fieldsets
