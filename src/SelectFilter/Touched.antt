-- ===== src/SelectFilter/Touched.antt =====
-- A change of the selection in some element leaves the two boxes consistent: the element may show
-- one of the boxes, or be one that `redisplay` has replaced.
use bluetooth_autonomous_car.Prelude.{
  ℕ, zero, suc, ◌≡◌, refl, ap, ◌∙◌, arith, List, [], ◌∷◌, map, ◌==◌, ℤ, pos, negsuc, inl, inr,
  Bool-cases, true,
}
use bluetooth_autonomous_car.Text.{Text}
use bluetooth_autonomous_car.SelectBox.{OptionElement, Page, update_at}
use bluetooth_autonomous_car.SelectBox.Nodes.{Entry}
use bluetooth_autonomous_car.SelectBox.Sync.{option_entry, option_entries}
use bluetooth_autonomous_car.SelectBox.Session.{IsConsistent}
use bluetooth_autonomous_car.SelectFilter.{deselect, select_only, set_index}

-- A function of options that keeps their values and texts.
abbrev pub KeepsEntries : (List OptionElement → List OptionElement) → Type 0
KeepsEntries f =
    (options : List OptionElement) → option_entries (f options) ≡ option_entries options

pub map-KeepsEntries :
    (f : OptionElement → OptionElement)
    → ((o : OptionElement) → option_entry (f o) ≡ option_entry o)
    → KeepsEntries (map f)
map-KeepsEntries f same [] = refl
map-KeepsEntries f same (o ∷ options) =
    rw (same o) (ap (option_entry o ∷◌) (map-KeepsEntries f same options))

select_only-KeepsEntries : (i : ℕ) → KeepsEntries (select_only i)
unfolding select_only
select_only-KeepsEntries i [] = refl
select_only-KeepsEntries zero (o ∷ options) =
    ap (option_entry o ∷◌) (map-KeepsEntries deselect (λ _. refl) options)
select_only-KeepsEntries (suc i) (o ∷ options) =
    ap (option_entry o ∷◌) (select_only-KeepsEntries i options)

pub set_index-KeepsEntries : (i : ℤ) → KeepsEntries (set_index i)
unfolding set_index
set_index-KeepsEntries (pos i) options = select_only-KeepsEntries i options
set_index-KeepsEntries (negsuc i) options = map-KeepsEntries deselect (λ _. refl) options

abbrev pub touched : ℕ → (List OptionElement → List OptionElement) → Page → Page
touched element f p = record p { options = update_at p.options element (f (p.options element)) }

eq_of_eq_at : (a b : ℕ) → (a == b) ≡ true → a ≡ b
eq_of_eq_at a b h = ground arith

touched_entries :
    (element : ℕ) (f : List OptionElement → List OptionElement) (p : Page) (e : ℕ)
    → KeepsEntries f
    → option_entries ((touched element f p).options e) ≡ option_entries (p.options e)
touched_entries element f p e keeps = elim (Bool-cases (e == element)) [
  | inl here ↦ rw (here, eq_of_eq_at e element here) (keeps (p.options element))
  | inr there ↦ rw there
]

module _ {from to : Text} {all : List Entry} (element : ℕ)
    (f : List OptionElement → List OptionElement) (keeps : KeepsEntries f) where
  pub touched-IsConsistent :
      {p : Page} (v : IsConsistent from to all p)
      → (v' : IsConsistent from to all (touched element f p)) × (v'.to_nodes ≡ v.to_nodes)
  touched-IsConsistent {p} v =
      let first = v.boxes.from_box in
      let second = v.boxes.to_box in
      (
        record {
          from_options = (touched element f p).options first.element;
          from_nodes = v.from_nodes;
          to_options = (touched element f p).options second.element;
          to_nodes = v.to_nodes;
          boxes = record {
            from_box = record {
              element = first.element;
              in_document = first.in_document;
              allocated = first.allocated;
              shows = refl;
              cached = first.cached;
            };
            to_box = record {
              element = second.element;
              in_document = second.in_document;
              allocated = second.allocated;
              shows = refl;
              cached = second.cached;
            };
            two_elements = v.boxes.two_elements;
          };
          from_sync =
              touched_entries element f p first.element keeps
              ∙ ap option_entries first.shows
              ∙ v.from_sync;
          to_sync =
              touched_entries element f p second.element keeps
              ∙ ap option_entries second.shows
              ∙ v.to_sync;
          same = v.same;
        },
        refl,
      )
