-- ===== src/SelectFilter/Started.antt =====
-- The widget as `init` leaves it.
use mathlib.Core.List.{append-nil}
use mathlib.Core.List.Perm
use bluetooth_autonomous_car.Prelude.{ℕ, ◌≡◌, ◌≢◌, ◌<◌, refl, sym, ◌∙◌, List, [], some, map}
use bluetooth_autonomous_car.Text.{Text}
use bluetooth_autonomous_car.Text.Same.{same_text_refl, same_text_ne}
use bluetooth_autonomous_car.SelectBox.{
  OptionElement, Page, displayed_options, init, node_of, update,
}
use bluetooth_autonomous_car.SelectBox.Nodes.{entries}
use bluetooth_autonomous_car.SelectBox.Sync.{
  option_entries, displayed_options-AllShown, node_of-AllShown, entries-node_of,
}
use bluetooth_autonomous_car.SelectBox.Session.{NoRepeat}
use bluetooth_autonomous_car.SelectFilter.{
  Widget, from_id, to_id, init_boxes, refresh_icons, icons_of,
}
use bluetooth_autonomous_car.SelectFilter.Moved.{move_to-EndsReady}
use bluetooth_autonomous_car.SelectFilter.Steps.{Ready, Ends, ids_apart}

-- The boxes as the markup and `init` make them: the second has no options yet.
pub record IsBuilt (field : Text) (options : List OptionElement) (p : Page) : Type 0 where
  pub from_element : ℕ
  pub to_element : ℕ
  pub from_in : p.document (from_id field) ≡ some from_element
  pub to_in : p.document (to_id field) ≡ some to_element
  pub from_allocated : from_element < p.fresh
  pub to_allocated : to_element < p.fresh
  pub two_elements : from_element ≢ to_element
  pub from_shows : p.options from_element ≡ options
  pub to_shows : p.options to_element ≡ []

-- The links are as `refresh_icons` leaves them.
abbrev pub IsRefreshed : Text → Widget → Type 0
IsRefreshed field w = w.icons ≡ icons_of field w.page

module _ (field : Text) (options : List OptionElement) where
  -- The page with the caches of both boxes.
  abbrev pub cached : Page → Page
  cached p = record p {
    cache =
        update (update p.cache (from_id field) (some (map node_of options))) (to_id field)
          (some []);
  }

  nodes_sync : option_entries options ≡ option_entries (displayed_options (map node_of options))
  nodes_sync = sym (
      displayed_options-AllShown (map node_of options) (node_of-AllShown options)
      ∙ entries-node_of options)

  pub cached-Ready :
      {p : Page} → IsBuilt field options p → Ready field (option_entries options) (cached p)
  cached-Ready {p} b = record {
    consistent = record {
      from_options = options;
      from_nodes = map node_of options;
      to_options = [];
      to_nodes = [];
      boxes = record {
        from_box = record {
          element = b.from_element;
          in_document = b.from_in;
          allocated = b.from_allocated;
          shows = b.from_shows;
          cached = simp (
            same_text_ne (from_id field) (to_id field) (ids_apart field),
            same_text_refl (from_id field),
          );
        };
        to_box = record {
          element = b.to_element;
          in_document = b.to_in;
          allocated = b.to_allocated;
          shows = b.to_shows;
          cached = simp (same_text_refl (to_id field));
        };
        two_elements = b.two_elements;
      };
      from_sync = nodes_sync;
      to_sync = sym (displayed_options-AllShown [] tt);
      same = rw (append-nil (entries (map node_of options)), entries-node_of options) (Perm.refl _);
    };
    shown = tt;
  }

  -- The caches of a page whose boxes are built, the first options chosen.
  pub init_boxes-Ends :
      (w : Widget)
      → NoRepeat (option_entries options)
      → IsBuilt field options w.page
      → Ends field (option_entries options) (init_boxes field w)
  unfolding init_boxes init refresh_icons
  init_boxes-Ends w unique b =
      let (p', e, r) = move_to-EndsReady (cached-Ready b) (ids_apart field) unique in
      (
        refresh_icons field (record w { page = p' }),
        rw (b.from_in, b.to_in, b.from_shows, b.to_shows, e) refl,
        r,
      )

  pub init_boxes-IsRefreshed :
      (w : Widget) (unique : NoRepeat (option_entries options)) (b : IsBuilt field options w.page)
      → IsRefreshed field (init_boxes-Ends w unique b).0
  unfolding init_boxes-Ends refresh_icons
  init_boxes-IsRefreshed w unique b = refl
