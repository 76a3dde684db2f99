-- ===== src/Popups/Responses/Stale.antt =====
-- A box of a selector that is drawn again after an object of it is deleted.
use bluetooth_autonomous_car.Prelude.{◌≡◌, ◌≢◌, ℕ, refl, subst, sym, ◌++◌, List, some}
use bluetooth_autonomous_car.Text.{Text, codes, starts_with}
use bluetooth_autonomous_car.SelectBox.{
  OptionElement, Node, Page, redisplay, displayed_options, update_at,
}
use bluetooth_autonomous_car.SelectBox.Boxes.{
  IsBox, IsPair, redisplay_lem, redisplayed-IsBox, eq_at_self, eq_at_ne,
}
use bluetooth_autonomous_car.Popups.{id_to_windowname, without_lead, delete_options, remove_options}
use bluetooth_autonomous_car.Popups.Names.{
  Lacks, dot_word, dash_word, windowname_to_id-id_to_windowname,
}
use bluetooth_autonomous_car.Popups.Responses.{Opener, dismiss_delete, on_selects, on_box}

-- The page where the element shows other options.
abbrev shown_on : (List OptionElement → List OptionElement) → ℕ → Page → Page
shown_on f e p = record p { options = update_at p.options e (f (p.options e)) }

on_box_lem :
    (f : List OptionElement → List OptionElement) (id : Text) (e : ℕ) (p : Page)
    → p.document id ≡ some e
    → on_box f id p ≡ shown_on f e p
unfolding on_box
on_box_lem f id e p h = rw (on_box, h) refl

module _ (f : List OptionElement → List OptionElement) (id : Text) {options : List OptionElement}
    {nodes : List Node} {p : Page} (box : IsBox id options nodes p) where
  on_box-IsBox : IsBox id (f options) nodes (on_box f id p)
  on_box-IsBox =
      subst (IsBox id (f options) nodes) (sym (on_box_lem f id box.element p box.in_document))
        (record {
          element = box.element;
          in_document = box.in_document;
          allocated = box.allocated;
          shows = simp (eq_at_self box.element, box.shows);
          cached = box.cached;
        })

  on_box-IsBox_other :
      (other : Text) {options' : List OptionElement} {nodes' : List Node}
      (b : IsBox other options' nodes' p)
      → b.element ≢ box.element
      → IsBox other options' nodes' (on_box f id p)
  on_box-IsBox_other other {options'} {nodes'} b apart =
      subst (IsBox other options' nodes') (sym (on_box_lem f id box.element p box.in_document))
        (record {
          element = b.element;
          in_document = b.in_document;
          allocated = b.allocated;
          shows = simp (eq_at_ne b.element box.element apart, b.shows);
          cached = b.cached;
        })

-- An object that is deleted from a popup of a selector leaves the chosen box, but not the box's cache:
-- the next `redisplay` of the box shows the options that it had before. (The box shows the displayed
-- nodes of its cache. The selector's id begins with `id_` and has neither `dot` nor `dash` in it.)
pub dismiss_delete-redisplay :
    (name id : Text) (from_options : List OptionElement) (from_nodes nodes : List Node) (o : Opener)
    → Lacks dot_word (codes "id_" ++ name)
    → Lacks dash_word (codes "id_" ++ name)
    → IsPair
        ((codes "id_" ++ name) ++ codes "_from")
        ((codes "id_" ++ name) ++ codes "_to")
        from_options
        from_nodes
        (displayed_options nodes)
        nodes
        o.page
    → let to_id = (codes "id_" ++ name) ++ codes "_to" in
      let p = Opener.page (dismiss_delete (id_to_windowname (codes "id_" ++ name)) id o) in
      IsBox to_id (delete_options id (displayed_options nodes)) nodes p
      × ((p' : Page) × (redisplay to_id p ≡ some p')
          × IsBox to_id (displayed_options nodes) nodes p')
unfolding dismiss_delete on_selects remove_options without_lead starts_with
dismiss_delete-redisplay name id from_options from_nodes nodes o h h' boxes =
    let the_id = codes "id_" ++ name in
    let to_id = the_id ++ codes "_to" in
    let kept =
      on_box-IsBox_other (delete_options id) (the_id ++ codes "_from") boxes.from_box to_id
        boxes.to_box (λ e. boxes.two_elements (sym e)) in
    let box = on_box-IsBox (delete_options id) to_id kept in
    rw (windowname_to_id-id_to_windowname the_id h h')
      (box, (_, redisplay_lem to_id box, redisplayed-IsBox to_id box))
