-- ===== src/SelectFilter/Submitted.antt =====
-- Whatever the user does with the widget, what the form submits and what is left to choose are the
-- choices together.
use mathlib.Core.List.{Perm}
use bluetooth_autonomous_car.Prelude.{
  ℕ, ◌≡◌, refl, ap, ◌∙◌, true, List, [], ◌∷◌, ◌++◌, some, map, All,
}
use bluetooth_autonomous_car.Text.{Text}
use bluetooth_autonomous_car.SelectBox.{OptionElement, Page, Node, ◌>>=◌, select_all, select}
use bluetooth_autonomous_car.SelectBox.Boxes.{eq_at_self}
use bluetooth_autonomous_car.SelectBox.Nodes.{Entry, entries}
use bluetooth_autonomous_car.SelectBox.Sync.{option_entries, displayed_options-AllShown}
use bluetooth_autonomous_car.SelectBox.Session.{NoRepeat}
use bluetooth_autonomous_car.SelectFilter.{Widget, from_id, to_id, init_boxes, submit}
use bluetooth_autonomous_car.SelectFilter.Events.{WidgetEvent, session}
use bluetooth_autonomous_car.SelectFilter.Touched.{touched, map-KeepsEntries}
use bluetooth_autonomous_car.SelectFilter.Started.{IsBuilt, init_boxes-Ends}
use bluetooth_autonomous_car.SelectFilter.Steps.{Ready, session-Ends}

-- The form sends the selected options of the second box: here all of them, and they are the
-- entries of `all` that the first box's cache does not hold.
pub record IsSubmitted (field : Text) (all : List Entry) (p : Page) : Type 0 where
  pub from_nodes : List Node
  posted : List OptionElement
  pub element : ℕ
  pub in_document : p.document (to_id field) ≡ some element
  pub shows : p.options element ≡ posted
  all_selected : All (λ o. o.selected ≡ true) posted
  left_over : p.cache (from_id field) ≡ some from_nodes
  pub same : Perm (entries from_nodes ++ option_entries posted) all

map-select_selected :
    (options : List OptionElement) → All (λ o. o.selected ≡ true) (map select options)
map-select_selected [] = tt
map-select_selected (o ∷ options) = (refl, map-select_selected options)

submit-IsSubmitted :
    (field : Text) {all : List Entry} (w : Widget)
    → Ready field all w.page
    → (w' : Widget) × (submit field w ≡ some w') × IsSubmitted field all w'.page
unfolding submit select_all
submit-IsSubmitted field w r =
    let v = r.consistent in
    let box = v.boxes.to_box in
    let posted = map select (w.page.options box.element) in
    (
      record w { page = touched box.element (map select) w.page },
      rw box.in_document refl,
      record {
        from_nodes = v.from_nodes;
        posted = posted;
        element = box.element;
        in_document = box.in_document;
        shows = rw (eq_at_self box.element) refl;
        all_selected = map-select_selected (w.page.options box.element);
        left_over = v.boxes.from_box.cached;
        same =
            rw
              (map-KeepsEntries select (λ _. refl) (w.page.options box.element)
                ∙ ap option_entries box.shows
                ∙ v.to_sync
                ∙ displayed_options-AllShown v.to_nodes r.shown)
              v.same;
      },
    )

-- On a page with the two boxes of a field as they are built, whose options have different values,
-- `init` followed by any events of the widget (clicks, double clicks, selections, keys and filter
-- texts) and a submit goes without an error. The form then sends every option of the second box, and
-- these with the entries that the first box's cache holds are a permutation of the options that the
-- first box had at the start.
pub session-submit :
    (lower : Text → Text) (field : Text) (options : List OptionElement) (events : List WidgetEvent)
    (w : Widget)
    → NoRepeat (option_entries options)
    → IsBuilt field options w.page
    → (w' : Widget) × ((init_boxes field w >>= session lower field events >>= submit field)
        ≡ some w')
      × IsSubmitted field (option_entries options) w'.page
session-submit lower field options events w unique b =
    let (w₀, e₀, r₀) = init_boxes-Ends field options w unique b in
    let (w₁, e₁, r₁) = session-Ends field lower events w₀ unique r₀ in
    let (w₂, e₂, s) = submit-IsSubmitted field w₁ r₁ in (w₂, rw (e₀, e₁) e₂, s)
