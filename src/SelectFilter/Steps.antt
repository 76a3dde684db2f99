-- ===== src/SelectFilter/Steps.antt =====
-- Every event ends without an error, on a page whose boxes are consistent.
use bluetooth_autonomous_car.Prelude.{
  ℕ, ◌≡◌, ◌≢◌, refl, Bool, true, false, List, [], ◌∷◌, some, Option, map, if◌then◌else◌, Bool-cases,
  inl, inr, ℤ, pos,
}
use bluetooth_autonomous_car.Text.{Text}
use bluetooth_autonomous_car.Text.Same.{same_text_refl, same_text_ne}
use bluetooth_autonomous_car.SelectBox.{OptionElement, Page, ◌>>=◌}
use bluetooth_autonomous_car.SelectBox.Nodes.{Entry}
use bluetooth_autonomous_car.SelectBox.Session.{set_selected, select_by, NoRepeat}
use bluetooth_autonomous_car.SelectFilter.{
  Widget, from_id, to_id, Key, Link, choose_all, add, remove, clear_all, click_link, double_click,
  move_selection, refresh_icons, filter_key_press, filter_key_up, filter_key_down, enter_pressed,
  right_arrow, right_index, box_length, selected_index, ActiveLinks, set_selected_index, set_index,
  down_index, up_index, set_by, is_key,
}
use bluetooth_autonomous_car.SelectFilter.Events.{
  Side, available, chosen, WidgetEvent, clicked, selected, double_clicked, key_pressed, key_down,
  key_up, id_of, listen, session,
}
use bluetooth_autonomous_car.SelectFilter.Touched.{map-KeepsEntries, set_index-KeepsEntries}
use bluetooth_autonomous_car.SelectFilter.Moved.{
  IsReady, EndsReady, filter-EndsReady, touched-IsReady, move_to-EndsReady, move_all_to-EndsReady,
  move_back-EndsReady, move_all_back-EndsReady,
}

pub ids_apart : (field : Text) → from_id field ≢ to_id field
ids_apart [] = λ e. cc
ids_apart (c ∷ field) = λ e. ids_apart field (cc)

abbrev pub Ready : Text → List Entry → Page → Type 0
Ready field all p = IsReady (from_id field) (to_id field) all p

abbrev Pages : Text → List Entry → Option Page → Type 0
Pages field all q = EndsReady (from_id field) (to_id field) all q

-- The event ends without an error, with a widget whose page is ready.
abbrev pub Ends : Text → List Entry → Option Widget → Type 0
Ends field all r = (w' : Widget) × (r ≡ some w') × Ready field all w'.page

module _ (field : Text) {all : List Entry} where
  set-Ready :
      {p : Page} (element : ℕ) (i : ℤ)
      → Ready field all p
      → Ready field all (set_selected_index element i p)
  unfolding set_selected_index
  set-Ready element i r = touched-IsReady r element (set_index i) (set_index-KeepsEntries i)

  to_widget :
      {q : Option Page} (f : Page → Widget)
      → ((p : Page) → (f p).page ≡ p)
      → Pages field all q
      → Ends field all (q >>= λ p. some (f p))
  to_widget f same (p', e, r) = (f p', rw e refl, rw (same p') r)

module _ (field : Text) {all : List Entry} {p : Page} (r : Ready field all p) where
  select_by-EndsReady :
      (side : Side) (by : Text → Bool) → Pages field all (select_by (id_of field side) by p)
  unfolding select_by
  select_by-EndsReady available by =
      let box = r.consistent.boxes.from_box in
      (
        _,
        rw box.in_document refl,
        touched-IsReady r box.element (map (set_selected by)) (map-KeepsEntries _ (λ _. refl)),
      )
  select_by-EndsReady chosen by =
      let box = r.consistent.boxes.to_box in
      (
        _,
        rw box.in_document refl,
        touched-IsReady r box.element (map (set_selected by)) (map-KeepsEntries _ (λ _. refl)),
      )

  set_by-EndsReady : (index : List OptionElement → ℤ) → Pages field all (set_by field index p)
  set_by-EndsReady index =
      let box = r.consistent.boxes.from_box in
      (_, rw box.in_document refl, set-Ready field box.element (index (p.options box.element)) r)

  key_up-EndsReady :
      (lower : Text → Text) (text : Text) → Pages field all (filter_key_up lower field text p)
  unfolding filter_key_up
  key_up-EndsReady lower text =
      let box = r.consistent.boxes.from_box in
      let (p', e, r') = filter-EndsReady r lower text (ids_apart field) in
      let temp = selected_index (p.options box.element) in
      (_, rw (box.in_document, e) refl, set-Ready field box.element temp r')

  -- A link that is not active changes nothing.
  if_active :
      {q : Option Page} (icons : ActiveLinks) (act : Bool) (f : Page → Widget)
      → ((p' : Page) → (f p').page ≡ p')
      → Pages field all q
      → Ends field all
          (if act then (q >>= λ p'. some (f p')) else some (record { page = p; icons = icons }))
  if_active icons true f same e = to_widget field f same e
  if_active icons false f same e = (_, refl, r)

  module _ (unique : NoRepeat all) where
    enter-EndsReady : Pages field all (enter_pressed field p >>= λ q. some q.0)
    unfolding enter_pressed
    enter-EndsReady =
        let box = r.consistent.boxes.from_box in
        let (p', e, r') =
          move_to-EndsReady (set-Ready field box.element (pos 0) r) (ids_apart field) unique in
        (_, rw (box.in_document, e) refl, set-Ready field box.element (pos 0) r')

    right-EndsReady : Pages field all (right_arrow field p >>= λ q. some q.0)
    unfolding right_arrow
    right-EndsReady =
        let box = r.consistent.boxes.from_box in
        let (p', e, r') = move_to-EndsReady r (ids_apart field) unique in
        let index =
          right_index (selected_index (p.options box.element)) (box_length box.element p') in
        (_, rw (box.in_document, e) refl, set-Ready field box.element index r')

    click_link-Ends :
        (icons : ActiveLinks) (link : Link)
        → Ends field all (click_link field link (record { page = p; icons = icons }))
    unfolding click_link move_selection refresh_icons
    click_link-Ends icons choose_all =
        if_active icons icons.add_all
          (λ p'. refresh_icons field (record { page = p'; icons = icons })) (λ _. refl)
          (move_all_to-EndsReady r (ids_apart field) unique)
    click_link-Ends icons add =
        if_active icons icons.add (λ p'. refresh_icons field (record { page = p'; icons = icons }))
          (λ _. refl) (move_to-EndsReady r (ids_apart field) unique)
    click_link-Ends icons remove =
        if_active icons icons.remove
          (λ p'. refresh_icons field (record { page = p'; icons = icons })) (λ _. refl)
          (move_back-EndsReady r (ids_apart field) unique)
    click_link-Ends icons clear_all =
        if_active icons icons.remove_all
          (λ p'. refresh_icons field (record { page = p'; icons = icons })) (λ _. refl)
          (move_all_back-EndsReady r (ids_apart field) unique)

    key_press-EndsReady : (e : Key) → Pages field all (filter_key_press field e p >>= λ q. some q.0)
    unfolding filter_key_press
    key_press-EndsReady e = elim (Bool-cases (is_key 13 e)) [
      | inl enter ↦ rw enter enter-EndsReady
      | inr other ↦ rw other (p, refl, r)
    ]

    double_click-Ends :
        (icons : ActiveLinks) (side : Side)
        → Ends field all
            (double_click field (id_of field side) (record { page = p; icons = icons }))
    unfolding double_click refresh_icons
    double_click-Ends icons available =
        rw (same_text_ne (from_id field) (to_id field) (ids_apart field))
          (to_widget field _ (λ _. refl) (move_to-EndsReady r (ids_apart field) unique))
    double_click-Ends icons chosen =
        rw (same_text_refl (to_id field))
          (to_widget field _ (λ _. refl) (move_back-EndsReady r (ids_apart field) unique))

module _ (field : Text) {all : List Entry} where
  set_if-EndsReady :
      (b : Bool) (index : List OptionElement → ℤ) {p : Page}
      → Ready field all p
      → Pages field all (if b then set_by field index p else some p)
  set_if-EndsReady true index r = set_by-EndsReady field r index
  set_if-EndsReady false index r = (_, refl, r)

  key_down-EndsReady :
      (e : Key) {p : Page}
      → NoRepeat all
      → Ready field all p
      → Pages field all (filter_key_down field e p >>= λ q. some q.0)
  unfolding filter_key_down
  key_down-EndsReady e unique r = elim (Bool-cases (is_key 39 e)) [
    | inl right ↦ rw right (right-EndsReady field r unique)
    | inr other ↦
        let (p₁, e₁, r₁) = set_if-EndsReady (is_key 40 e) down_index r in
        let (p₂, e₂, r₂) = set_if-EndsReady (is_key 38 e) up_index r₁ in
        (p₂, rw (other, e₁, e₂) refl, r₂)
  ]

  pub listen-Ends :
      (lower : Text → Text) (e : WidgetEvent) (w : Widget)
      → NoRepeat all
      → Ready field all w.page
      → Ends field all (listen lower field e w)
  unfolding listen refresh_icons
  listen-Ends lower (clicked link) w unique r = click_link-Ends field r unique w.icons link
  listen-Ends lower (selected side by) w unique r =
      to_widget field _ (λ _. refl) (select_by-EndsReady field r side by)
  listen-Ends lower (double_clicked side) w unique r = double_click-Ends field r unique w.icons side
  listen-Ends lower (key_pressed e) w unique r =
      to_widget field _ (λ _. refl) (key_press-EndsReady field r unique e)
  listen-Ends lower (key_down e) w unique r =
      to_widget field _ (λ _. refl) (key_down-EndsReady e unique r)
  listen-Ends lower (key_up e text) w unique r =
      to_widget field _ (λ _. refl) (key_up-EndsReady field r lower text)

  pub session-Ends :
      (lower : Text → Text) (events : List WidgetEvent) (w : Widget)
      → NoRepeat all
      → Ready field all w.page
      → Ends field all (session lower field events w)
  unfolding session
  session-Ends lower [] w unique r = (w, refl, r)
  session-Ends lower (e ∷ events) w unique r =
      let (w₁, e₁, r₁) = listen-Ends lower e w unique r in
      let (w₂, e₂, r₂) = session-Ends lower events w₁ unique r₁ in (w₂, rw e₁ e₂, r₂)
