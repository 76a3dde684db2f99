-- ===== src/SelectBox/Session/Steps.antt =====
-- One action on a pair of boxes keeps them consistent.
use mathlib.Core.List.Perm
use mathlib.Core.List.{perm_append_comm}
use bluetooth_autonomous_car.Prelude.{◌≡◌, ◌≢◌, refl, ap, sym, ◌∙◌, Bool, List, [], ◌∷◌, some, map}
use bluetooth_autonomous_car.Text.{Text}
use bluetooth_autonomous_car.SelectBox.{
  OptionElement, Page, update_at, displayed_options, filter, move, move_all,
}
use bluetooth_autonomous_car.SelectBox.Nodes.{Entry, entries}
use bluetooth_autonomous_car.SelectBox.Boxes.{eq_at_self, eq_at_ne}
use bluetooth_autonomous_car.SelectBox.Lists.{chosen_options}
use bluetooth_autonomous_car.SelectBox.Exchange.{IsExchange, move_lem, move_all_lem}
use bluetooth_autonomous_car.SelectBox.Filter.{filter-IsPair}
use bluetooth_autonomous_car.SelectBox.Sync.{
  EntriesApart, option_entries, InSync-Distinct, InSync-Listed,
}
use bluetooth_autonomous_car.SelectBox.Session.{set_selected, select_by, IsConsistent, NoRepeat}
use bluetooth_autonomous_car.SelectBox.Session.Apart.{EntriesApart-of_NoRepeat, EntriesApart-append}

option_entries-set_selected :
    (chosen : Text → Bool) (options : List OptionElement)
    → option_entries (map (set_selected chosen) options) ≡ option_entries options
option_entries-set_selected chosen [] = refl
option_entries-set_selected chosen (o ∷ options) =
    ap ((o.value, o.text) ∷◌) (option_entries-set_selected chosen options)

module _ {from to : Text} {all : List Entry} where
  unfoldable pub flip : {p : Page} → IsConsistent from to all p → IsConsistent to from all p
  flip v = record {
    from_options = v.to_options;
    from_nodes = v.to_nodes;
    to_options = v.from_options;
    to_nodes = v.from_nodes;
    boxes = record {
      from_box = v.boxes.to_box;
      to_box = v.boxes.from_box;
      two_elements = λ e. v.boxes.two_elements (sym e);
    };
    from_sync = v.to_sync;
    to_sync = v.from_sync;
    same = Perm.trans (perm_append_comm (entries v.to_nodes) _) v.same;
  }

  pub select_by-IsConsistent :
      (chosen : Text → Bool) {p : Page}
      → IsConsistent from to all p
      → (p' : Page) × (select_by from chosen p ≡ some p') × IsConsistent from to all p'
  unfolding select_by
  select_by-IsConsistent chosen {p} v =
      let box = v.boxes.from_box in
      let other = v.boxes.to_box in
      (
        record p {
          options =
              update_at p.options box.element (map (set_selected chosen) (p.options box.element));
        },
        rw box.in_document refl,
        record {
          from_options = map (set_selected chosen) v.from_options;
          from_nodes = v.from_nodes;
          to_options = v.to_options;
          to_nodes = v.to_nodes;
          boxes = record {
            from_box = record {
              element = box.element;
              in_document = box.in_document;
              allocated = box.allocated;
              shows = simp (eq_at_self box.element, box.shows);
              cached = box.cached;
            };
            to_box = record {
              element = other.element;
              in_document = other.in_document;
              allocated = other.allocated;
              shows = simp (
                eq_at_ne other.element box.element (λ e. v.boxes.two_elements (sym e)),
                other.shows,
              );
              cached = other.cached;
            };
            two_elements = v.boxes.two_elements;
          };
          from_sync = option_entries-set_selected chosen v.from_options ∙ v.from_sync;
          to_sync = v.to_sync;
          same = v.same;
        },
      )

  unfoldable pub filter-IsConsistent :
      (lower : Text → Text) (text : Text) {p : Page}
      → from ≢ to
      → IsConsistent from to all p
      → (p' : Page) × (filter lower from text p ≡ some p') × IsConsistent from to all p'
  filter-IsConsistent lower text apart v =
      let (p', nodes', e, pair, same) = filter-IsPair lower from to text apart v.boxes in
      (
        p',
        e,
        record {
          from_options = displayed_options nodes';
          from_nodes = nodes';
          to_options = v.to_options;
          to_nodes = v.to_nodes;
          boxes = pair;
          from_sync = refl;
          to_sync = v.to_sync;
          same = rw same v.same;
        },
      )

  -- What an exchange leaves.
  unfoldable pub IsExchange-IsConsistent :
      {chosen : List OptionElement} {p p' : Page} (v : IsConsistent from to all p)
      → IsExchange from to chosen v.from_nodes v.to_nodes p'
      → IsConsistent from to all p'
  IsExchange-IsConsistent v x = record {
    from_options = displayed_options x.left;
    from_nodes = x.left;
    to_options = displayed_options x.arrived;
    to_nodes = x.arrived;
    boxes = x.boxes;
    from_sync = refl;
    to_sync = refl;
    same = Perm.trans x.kept v.same;
  }

  nodes_apart :
      {p : Page}
      → NoRepeat all
      → (v : IsConsistent from to all p) → EntriesApart (entries v.from_nodes)
  nodes_apart unique v =
      (EntriesApart-append (entries v.from_nodes) (entries v.to_nodes)
        (EntriesApart-of_NoRepeat _ (Perm.nodup (Perm.symm (Perm.map (λ e. e.0) v.same)) unique))).0

  pub move-IsExchange :
      {p : Page}
      → from ≢ to
      → NoRepeat all
      → (v : IsConsistent from to all p)
      → (p' : Page) × (move from to p ≡ some p')
        × IsExchange from to
            (chosen_options (λ o. o.selected) v.from_options)
            v.from_nodes
            v.to_nodes
            p'
  move-IsExchange {p} apart unique v =
      move_lem from to v.from_options v.to_options v.from_nodes v.to_nodes p apart v.boxes
        (InSync-Distinct v.from_options v.from_nodes v.from_sync (nodes_apart unique v))
        (InSync-Listed v.from_options v.from_nodes v.from_sync (nodes_apart unique v))

  pub move-IsConsistent :
      {p : Page}
      → from ≢ to
      → NoRepeat all
      → IsConsistent from to all p
      → (p' : Page) × (move from to p ≡ some p') × IsConsistent from to all p'
  move-IsConsistent apart unique v =
      let (p', e, x) = move-IsExchange apart unique v in (p', e, IsExchange-IsConsistent v x)

  pub move_all-IsExchange :
      {p : Page}
      → from ≢ to
      → NoRepeat all
      → (v : IsConsistent from to all p)
      → (p' : Page) × (move_all from to p ≡ some p')
        × IsExchange from to v.from_options v.from_nodes v.to_nodes p'
  move_all-IsExchange {p} apart unique v =
      move_all_lem from to v.from_options v.to_options v.from_nodes v.to_nodes p apart v.boxes
        (InSync-Distinct v.from_options v.from_nodes v.from_sync (nodes_apart unique v))
        (InSync-Listed v.from_options v.from_nodes v.from_sync (nodes_apart unique v))

  pub move_all-IsConsistent :
      {p : Page}
      → from ≢ to
      → NoRepeat all
      → IsConsistent from to all p
      → (p' : Page) × (move_all from to p ≡ some p') × IsConsistent from to all p'
  move_all-IsConsistent apart unique v =
      let (p', e, x) = move_all-IsExchange apart unique v in (p', e, IsExchange-IsConsistent v x)
