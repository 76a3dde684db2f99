-- ===== src/SelectFilter/Icons.antt =====
-- The links that are active, after the events of the mouse and after a key in the filter field.
use mathlib.Core.List.{nil≢cons}
use mathlib.Core.Option.{some_inj}
use bluetooth_autonomous_car.Prelude.{
  ℕ, zero, suc, Option, none, subst, ◌≢◌, ◌↔◌, ◌||◌, get_elem?, Bool-cases, inl, inr, Bool, ◌≡◌,
  refl, sym, ap, ◌∙◌, true, false, List, [], ◌∷◌, some, All, if◌then◌else◌,
}
use bluetooth_autonomous_car.Text.{Text}
use bluetooth_autonomous_car.SelectBox.{OptionElement, Page, ◌>>=◌, displayed_options}
use bluetooth_autonomous_car.SelectBox.Boxes.{displayed_options_unselected, eq_at_ne, ne_of_lt}
use bluetooth_autonomous_car.SelectBox.Filter.{filter-fresh}
use bluetooth_autonomous_car.SelectBox.Nodes.{Entry}
use bluetooth_autonomous_car.SelectBox.Session.{NoRepeat}
use bluetooth_autonomous_car.SelectFilter.{
  Widget, from_id, Key, choose_all, add, remove, clear_all, click_link, double_click,
  move_selection, refresh_icons, init_boxes, filter_key_up, any_selected, set_selected_index,
  selected_index, options_of, any_option, icons_of, ActiveLinks, to_id,
}
use bluetooth_autonomous_car.SelectFilter.Events.{
  WidgetEvent, clicked, selected, double_clicked, key_pressed, key_down, key_up, listen, session,
}
use bluetooth_autonomous_car.SelectFilter.Started.{
  IsBuilt, IsRefreshed, init_boxes-Ends, init_boxes-IsRefreshed,
}
use bluetooth_autonomous_car.SelectBox.Sync.{option_entries}
use bluetooth_autonomous_car.SelectFilter.Steps.{Ready, listen-Ends}

-- The events of the mouse.
abbrev IsMouse : WidgetEvent → Type 0
IsMouse (clicked link) = Unit
IsMouse (selected side by) = Unit
IsMouse (double_clicked side) = Unit
IsMouse _ = ⊥

none≢some : {A : Type 0} (a : A) → ◌≢◌ {A = Option A} none (some a)
none≢some a e = cc

module _ (field : Text) where
  mapped-IsRefreshed :
      (q : Option Page) (w w' : Widget)
      → (q >>= λ p. some (refresh_icons field (record w { page = p }))) ≡ some w'
      → IsRefreshed field w'
  unfolding refresh_icons
  mapped-IsRefreshed none w w' e = absurd (none≢some w' e)
  mapped-IsRefreshed (some p) w w' e =
      let same : refresh_icons field (record w { page = p }) ≡ w' = cc in
      subst (IsRefreshed field) same refl

  if_active-IsRefreshed :
      (act : Bool) (q : Option Page) (w w' : Widget)
      → IsRefreshed field w
      → (if act then (q >>= λ p. some (refresh_icons field (record w { page = p }))) else some w)
        ≡ some w'
      → IsRefreshed field w'
  if_active-IsRefreshed true q w w' h e = mapped-IsRefreshed q w w' e
  if_active-IsRefreshed false q w w' h e =
      let same : w ≡ w' = cc in subst (IsRefreshed field) same h

  listen-IsRefreshed :
      (lower : Text → Text) (e : WidgetEvent) (w w' : Widget)
      → IsMouse e
      → IsRefreshed field w
      → listen lower field e w ≡ some w'
      → IsRefreshed field w'
  unfolding listen click_link move_selection double_click
  listen-IsRefreshed lower (clicked choose_all) w w' m h e =
      if_active-IsRefreshed w.icons.add_all _ w w' h e
  listen-IsRefreshed lower (clicked add) w w' m h e = if_active-IsRefreshed w.icons.add _ w w' h e
  listen-IsRefreshed lower (clicked remove) w w' m h e =
      if_active-IsRefreshed w.icons.remove _ w w' h e
  listen-IsRefreshed lower (clicked clear_all) w w' m h e =
      if_active-IsRefreshed w.icons.remove_all _ w w' h e
  listen-IsRefreshed lower (selected side by) w w' m h e = mapped-IsRefreshed _ w w' e
  listen-IsRefreshed lower (double_clicked side) w w' m h e = mapped-IsRefreshed _ w w' e
  listen-IsRefreshed lower (key_pressed k) w w' m h e = elim m [ ]
  listen-IsRefreshed lower (key_down k) w w' m h e = elim m [ ]
  listen-IsRefreshed lower (key_up k text) w w' m h e = elim m [ ]

  mouse-IsRefreshed :
      (lower : Text → Text) (events : List WidgetEvent) (all : List Entry) (w : Widget)
      → All IsMouse events
      → NoRepeat all
      → Ready field all w.page
      → IsRefreshed field w
      → (w' : Widget) × (session lower field events w ≡ some w')
        × Ready field all w'.page
        × IsRefreshed field w'
  unfolding session
  mouse-IsRefreshed lower [] all w m unique r h = (w, refl, r, h)
  mouse-IsRefreshed lower (e ∷ events) all w m unique r h =
      let (w₁, e₁, r₁) = listen-Ends field lower e w unique r in
      let (w₂, e₂, r₂, h₂) =
        mouse-IsRefreshed lower events all w₁ m.1 unique r₁
          (listen-IsRefreshed lower e w w₁ m.0 h e₁) in
      (w₂, rw e₁ e₂, r₂, h₂)

-- Some option is selected.
abbrev pub SomeSelected : List OptionElement → Type 0
SomeSelected options =
    (i : ℕ) × (o : OptionElement) × (get_elem? options i ≡ some o) × (o.selected ≡ true)

-- Each link is active just when its box has something that it moves: an option that is selected, or,
-- for the links that move all, any option.
pub record LinksAgree (field : Text) (w : Widget) : Type 0 where
  pub from_box : ℕ
  pub to_box : ℕ
  pub from_named : w.page.document (from_id field) ≡ some from_box
  pub to_named : w.page.document (to_id field) ≡ some to_box
  pub add_agrees : (w.icons.add ≡ true) ↔ SomeSelected (w.page.options from_box)
  pub remove_agrees : (w.icons.remove ≡ true) ↔ SomeSelected (w.page.options to_box)
  pub add_all_agrees : (w.icons.add_all ≡ true) ↔ (w.page.options from_box ≢ [])
  pub remove_all_agrees : (w.icons.remove_all ≡ true) ↔ (w.page.options to_box ≢ [])

any_selected-some :
    (options : List OptionElement) → any_selected options ≡ true → SomeSelected options
unfolding any_selected
any_selected-some [] h = cc
any_selected-some (o ∷ options) h = elim (Bool-cases o.selected) [
  | inl yes' ↦ (0, o, refl, yes')
  | inr no' ↦
      let (i, p, there, sel) = any_selected-some options (rw no' at h) in (suc i, p, there, sel)
]

some-any_selected :
    (options : List OptionElement) → SomeSelected options → any_selected options ≡ true
unfolding any_selected
some-any_selected [] (i, o, there, sel) = cc
some-any_selected (p ∷ options) (zero, o, there, sel) =
    let e : p ≡ o = some_inj.0 there in rw (ap OptionElement.selected e ∙ sel) refl
some-any_selected (p ∷ options) (suc i, o, there, sel) =
    rw (some-any_selected options (i, o, there, sel)) (or_true p.selected)
  where
    or_true : (b : Bool) → (b || true) ≡ true
    or_true true = refl
    or_true false = refl

any_option_lem : (options : List OptionElement) → (any_option options ≡ true) ↔ (options ≢ [])
any_option_lem [] = (λ e. cc, λ h. absurd (h refl))
any_option_lem (o ∷ options) = (λ e h. nil≢cons (sym h), λ h. refl)

options_of_named :
    (id : Text) (p : Page) (box : ℕ) → p.document id ≡ some box → options_of id p ≡ p.options box
options_of_named id p box e = rw (e, options_of) refl

shown_selected :
    (b : Bool) (options : List OptionElement)
    → b ≡ any_selected options
    → (b ≡ true) ↔ SomeSelected options
shown_selected b options e =
    (λ h. any_selected-some options (sym e ∙ h), λ h. e ∙ some-any_selected options h)

shown_option :
    (b : Bool) (options : List OptionElement) → b ≡ any_option options → (b ≡ true) ↔ (options ≢ [])
shown_option b options e =
    (λ h. (any_option_lem options).0 (sym e ∙ h), λ h. e ∙ (any_option_lem options).1 h)

refreshed-LinksAgree :
    (field : Text) (all : List Entry) (w : Widget)
    → Ready field all w.page
    → IsRefreshed field w
    → LinksAgree field w
unfolding icons_of
refreshed-LinksAgree field all w r h =
    let from = r.consistent.boxes.from_box in
    let to = r.consistent.boxes.to_box in
    let from_options = options_of_named (from_id field) w.page from.element from.in_document in
    let to_options = options_of_named (to_id field) w.page to.element to.in_document in
    record {
      from_box = from.element;
      to_box = to.element;
      from_named = from.in_document;
      to_named = to.in_document;
      add_agrees =
          shown_selected w.icons.add (w.page.options from.element)
            (ap ActiveLinks.add h ∙ ap any_selected from_options);
      remove_agrees =
          shown_selected w.icons.remove (w.page.options to.element)
            (ap ActiveLinks.remove h ∙ ap any_selected to_options);
      add_all_agrees =
          shown_option w.icons.add_all (w.page.options from.element)
            (ap ActiveLinks.add_all h ∙ ap any_option from_options);
      remove_all_agrees =
          shown_option w.icons.remove_all (w.page.options to.element)
            (ap ActiveLinks.remove_all h ∙ ap any_option to_options);
    }

-- On a page with the two boxes of a field as they are built, whose options have different values,
-- `init` and any events of the mouse (clicks on links, selections and double clicks) go without an
-- error, and leave each link active just when it has something to move: an option that is selected
-- in its box, or, for the links that move all, any option.
pub mouse_session-LinksAgree :
    (lower : Text → Text) (field : Text) (options : List OptionElement) (events : List WidgetEvent)
    (w : Widget)
    → All IsMouse events
    → NoRepeat (option_entries options)
    → IsBuilt field options w.page
    → (w' : Widget) × ((init_boxes field w >>= session lower field events) ≡ some w')
      × LinksAgree field w'
mouse_session-LinksAgree lower field options events w m unique b =
    let (w₀, e₀, r₀) = init_boxes-Ends field options w unique b in
    let (w₁, e₁, r₁, h₁) =
      mouse-IsRefreshed field lower events (option_entries options) w₀ m unique r₀
        (init_boxes-IsRefreshed field options w unique b) in
    (w₁, rw e₀ e₁, refreshed-LinksAgree field (option_entries options) w₁ r₁ h₁)

none_selected :
    (options : List OptionElement)
    → All (λ o. o.selected ≡ false) options
    → any_selected options ≡ false
unfolding any_selected
none_selected [] h = refl
none_selected (o ∷ options) h = rw (h.0, none_selected options h.1) refl

-- The link that adds was active because an option is selected; a key in the filter field leaves it
-- active (`keyup` does not refresh the links), on a box in which no option is selected any more: the
-- index that the handler keeps is put on the element that `filter` has replaced.
pub key_up_stale :
    (lower : Text → Text) (field text : Text) (all : List Entry) (k : Key) (w : Widget)
    → Ready field all w.page
    → IsRefreshed field w
    → w.icons.add ≡ true
    → (w' : Widget) × (listen lower field (key_up k text) w ≡ some w')
      × (w'.icons.add ≡ true)
      × (any_selected (options_of (from_id field) w'.page) ≡ false)
unfolding listen filter_key_up set_selected_index
key_up_stale lower field text all k w r h active =
    let box = r.consistent.boxes.from_box in
    let (p', nodes', e, named, shows) = filter-fresh lower (from_id field) text box in
    let p'' = set_selected_index box.element (selected_index (w.page.options box.element)) p' in
    (
      record w { page = p'' },
      rw (box.in_document, e) refl,
      active,
      ap any_selected (
            options_of_named (from_id field) p'' w.page.fresh named
            ∙ rw (eq_at_ne w.page.fresh box.element (λ q. ne_of_lt box.allocated (sym q))) shows)
          ∙ none_selected (displayed_options nodes') (displayed_options_unselected nodes'),
    )
