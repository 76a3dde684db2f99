-- ===== src/Explorer/Views.antt =====
-- Which view of a response a dialog shows, and which button is highlighted.
use bluetooth_autonomous_car.Prelude.{
  ℕ, ◌≡◌, ◌≢◌, refl, sym, subst, arith, true, false, not, List, [], ◌∷◌, ◌==◌, All, Bool-cases, inl,
  inr,
}
use bluetooth_autonomous_car.Text.{Text}
use bluetooth_autonomous_car.Explorer.Answers.{
  View, Panel, Address, Response, ApiPage, ApiEvent, requested, responded, settled, toggled, happen,
  is_data, set_panel, settle_panel, toggle_view, request_callback, response_callback,
}

pub run : (Text → Text) → List ApiEvent → ApiPage → ApiPage
run upper [] p = p
run upper (e ∷ events) p = run upper events (happen upper e p)

-- The button of the page's view is highlighted, and an answer that has come is shown in that view
-- and not in the other.
pub record Agrees (display : View) (panel : Panel) : Type 0 where
  pub highlighted : panel.button ≡ display
  pub data_shown : panel.awaiting_hidden ≡ true → panel.data_hidden ≡ not (is_data display)
  pub raw_shown : panel.awaiting_hidden ≡ true → panel.raw_hidden ≡ is_data display

-- The view is chosen in the dialog `i` alone.
abbrev TogglesOnly : ℕ → ApiEvent → Type 0
TogglesOnly i (toggled j view) = j ≡ i
TogglesOnly i _ = Unit

eq_at_self : (i : ℕ) → (i == i) ≡ true
eq_at_self i = ground arith

set_panel-Agrees :
    (display : View) (panels : ℕ → Panel) (i j : ℕ) (panel : Panel)
    → Agrees display (panels i)
    → (j ≡ i → Agrees display panel)
    → Agrees display (set_panel panels j panel i)
set_panel-Agrees display panels i j panel h new = elim (Bool-cases (i == j)) [
  | inl here ↦ let e : j ≡ i = ground arith in rw here (new e)
  | inr there ↦ rw there h
]

module _ (display : View) (panel : Panel) where
  settle_panel-Agrees :
      (json : Text) → panel.button ≡ display → Agrees display (settle_panel display json panel)
  unfolding settle_panel
  settle_panel-Agrees json h = record {
    highlighted = h;
    data_shown = λ _. refl;
    raw_shown = λ _. refl;
  }

  toggle_view-Agrees : Agrees display (toggle_view display panel).1
  unfolding toggle_view
  toggle_view-Agrees = record { highlighted = refl; data_shown = λ _. refl; raw_shown = λ _. refl }

  module _ (h : Agrees display panel) where
    request_callback-Agrees :
        (method : Text) (parser : Address) → Agrees display (request_callback method parser panel)
    unfolding request_callback
    request_callback-Agrees method parser = record {
      highlighted = h.highlighted;
      data_shown = h.data_shown;
      raw_shown = h.raw_shown;
    }

    response_callback-Agrees :
        (upper : Text → Text) (response : Response) (text : Text)
        → Agrees display (response_callback upper response text panel)
    unfolding response_callback
    response_callback-Agrees upper response text = record {
      highlighted = h.highlighted;
      data_shown = h.data_shown;
      raw_shown = h.raw_shown;
    }

set_panel_self : (panels : ℕ → Panel) (i : ℕ) (panel : Panel) → set_panel panels i panel i ≡ panel
set_panel_self panels i panel = rw (eq_at_self i) refl

set_panel_other :
    (panels : ℕ → Panel) (i j : ℕ) (panel : Panel) → i ≢ j → set_panel panels j panel i ≡ panels i
set_panel_other panels i j panel ne = let e : (i == j) ≡ false = ground arith in rw e refl

happen-Agrees :
    (upper : Text → Text) (i : ℕ) (e : ApiEvent) (p : ApiPage)
    → TogglesOnly i e
    → Agrees p.display (p.panels i)
    → Agrees (happen upper e p).display ((happen upper e p).panels i)
unfolding happen
happen-Agrees upper i (requested j method parser) p t h =
    set_panel-Agrees p.display p.panels i j _ h
      (λ e. rw e (request_callback-Agrees p.display (p.panels i) h method parser))
happen-Agrees upper i (responded j response text) p t h =
    set_panel-Agrees p.display p.panels i j _ h
      (λ e. rw e (response_callback-Agrees p.display (p.panels i) h upper response text))
happen-Agrees upper i (settled j json) p t h =
    set_panel-Agrees p.display p.panels i j _ h
      (λ e. rw e (settle_panel-Agrees p.display (p.panels i) json h.highlighted))
happen-Agrees upper i (toggled j view) p t h = rw t (
    subst (Agrees view) (sym (set_panel_self p.panels i (toggle_view view (p.panels i)).1))
      (toggle_view-Agrees view (p.panels i)))

-- While the view is chosen in one dialog alone, requests, responses and answers of any dialogs, and
-- choices of the view there, leave the button of the page's view highlighted in that dialog, and an
-- answer that has come there is shown in that view and not in the other.
pub run-Agrees :
    (upper : Text → Text) (i : ℕ) (events : List ApiEvent) (p : ApiPage)
    → All (TogglesOnly i) events
    → Agrees p.display (p.panels i)
    → Agrees (run upper events p).display ((run upper events p).panels i)
unfolding run
run-Agrees upper i [] p t h = h
run-Agrees upper i (e ∷ events) p t h =
    run-Agrees upper i events (happen upper e p) t.1 (happen-Agrees upper i e p t.0 h)

-- The view is one for the page, and its button is the dialog's own: after another dialog's choice of
-- a view that is not the highlighted one here, the next answer here is shown in the chosen view, and
-- the highlighted button is that of the other view.
pub settle_mismatch :
    (upper : Text → Text) (i j : ℕ) (view : View) (json : Text) (p : ApiPage)
    → i ≢ j
    → (p.panels i).button ≢ view
    → let panel = (run upper (toggled j view ∷ settled i json ∷ []) p).panels i in
      (panel.data_hidden ≡ not (is_data view))
      × (panel.raw_hidden ≡ is_data view)
      × (panel.button ≢ view)
unfolding run happen settle_panel toggle_view
settle_mismatch upper i j view json p ne other =
    rw (eq_at_self i) (refl, refl, rw (set_panel_other p.panels i j _ ne) other)
