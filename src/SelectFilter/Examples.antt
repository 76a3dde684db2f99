-- ===== src/SelectFilter/Examples.antt =====
-- The widget's theorems on a field `u` with the choices "ann" and "bob", of which "bob" is selected.
use bluetooth_autonomous_car.Prelude.{
  ◌<◌, ◌+◌, ◌-◌, ◌%◌, ◌≡◌, refl, arith, true, false, List, [], ◌∷◌, none, some, if◌then◌else◌, ◌==◌,
}
use bluetooth_autonomous_car.Text.{Text, codes, same_text}
use bluetooth_autonomous_car.Text.Same.{ne_of_same_text}
use bluetooth_autonomous_car.SelectBox.{OptionElement, Page, ◌>>=◌}
use bluetooth_autonomous_car.SelectBox.Session.{NoRepeat}
use bluetooth_autonomous_car.SelectBox.Session.Apart.{NoRepeat-of_EntriesApart}
use bluetooth_autonomous_car.SelectBox.Sync.{option_entries}
use bluetooth_autonomous_car.SelectFilter.{
  Widget, from_id, to_id, remove, clear_all, init_boxes, submit, icons_of, any_selected, options_of,
  filter_key_down, selected_index,
}
use bluetooth_autonomous_car.SelectFilter.Events.{
  WidgetEvent, available, chosen, clicked, selected, double_clicked, key_pressed, key_down, key_up,
  session, listen,
}
use bluetooth_autonomous_car.SelectFilter.Started.{IsBuilt, cached, cached-Ready}
use bluetooth_autonomous_car.SelectFilter.Submitted.{IsSubmitted, session-submit}
use bluetooth_autonomous_car.SelectFilter.Icons.{LinksAgree, mouse_session-LinksAgree, key_up_stale}
use bluetooth_autonomous_car.SelectFilter.Keys.{key, with_only, filter_key_down-wraps}

abbrev users_field : Text
users_field = codes "u"

abbrev users : List OptionElement
users =
    record { value = codes "1"; text = codes "ann"; selected = false }
    ∷ record { value = codes "2"; text = codes "bob"; selected = true }
    ∷ []

abbrev built : Page
built = record {
  document = λ id.
      if same_text id (from_id users_field)
      then some 0
      else if same_text id (to_id users_field)
      then some 1
      else none;
  options = λ e. if e == 0 then users else [];
  fresh = 2;
  cache = λ _. none;
}

abbrev widget : Widget
widget = record {
  page = built;
  icons = record { add = false; remove = false; add_all = false; remove_all = false };
}

built-IsBuilt : IsBuilt users_field users built
built-IsBuilt = record {
  from_element = 0;
  to_element = 1;
  from_in = refl;
  to_in = refl;
  from_allocated = omega arith;
  to_allocated = omega arith;
  two_elements = omega arith;
  from_shows = refl;
  to_shows = refl;
}

users-NoRepeat : NoRepeat (option_entries users)
users-NoRepeat =
    NoRepeat-of_EntriesApart (option_entries users) ((ne_of_same_text _ _ refl, tt), (tt, tt))

abbrev events : List WidgetEvent
events =
    key_up (key 97) (codes "a")
    ∷ key_pressed (key 13)
    ∷ double_clicked chosen
    ∷ key_down (key 39)
    ∷ clicked remove
    ∷ []

session-submit_example :
    (w' : Widget) × ((init_boxes users_field widget
        >>= session (λ s. s) users_field events
        >>= submit users_field)
      ≡ some w')
    × IsSubmitted users_field (option_entries users) w'.page
session-submit_example =
    session-submit (λ s. s) users_field users events widget users-NoRepeat built-IsBuilt

abbrev mouse_events : List WidgetEvent
mouse_events =
    selected chosen (λ _. true) ∷ clicked remove ∷ double_clicked available ∷ clicked clear_all ∷ []

mouse_session-LinksAgree_example :
    (w' : Widget) × ((init_boxes users_field widget >>= session (λ s. s) users_field mouse_events)
      ≡ some w')
    × LinksAgree users_field w'
mouse_session-LinksAgree_example =
    mouse_session-LinksAgree (λ s. s) users_field users mouse_events widget
      (tt, (tt, (tt, (tt, tt)))) users-NoRepeat built-IsBuilt

abbrev refreshed : Widget
refreshed = record {
  page = cached users_field users built;
  icons = icons_of users_field (cached users_field users built);
}

key_up_stale_example :
    (w' : Widget) × (listen (λ s. s) users_field (key_up (key 98) (codes "b")) refreshed ≡ some w')
    × (w'.icons.add ≡ true)
    × (any_selected (options_of (from_id users_field) w'.page) ≡ false)
unfolding icons_of any_selected
key_up_stale_example =
    key_up_stale (λ s. s) users_field (codes "b") (option_entries users) (key 98) refreshed
      (cached-Ready users_field users built-IsBuilt) refl refl

filter_key_down-wraps_example :
    (filter_key_down users_field (key 40) built ≡ some (with_only 0 ((1 + 1) % 2) built, true))
    × ((1 + 1) % 2 < 2)
    × (filter_key_down users_field (key 38) built
        ≡ some (with_only 0 ((1 + 2 - 1) % 2) built, true))
    × ((1 + 2 - 1) % 2 < 2)
unfolding selected_index
filter_key_down-wraps_example = filter_key_down-wraps users_field built 0 1 2 refl refl refl
