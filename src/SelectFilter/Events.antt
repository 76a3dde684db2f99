-- ===== src/SelectFilter/Events.antt =====
-- What the user can do with the widget, and the listeners that `init` adds.
use bluetooth_autonomous_car.Prelude.{Bool, List, [], ◌∷◌, some, Option}
use bluetooth_autonomous_car.Text.{Text}
use bluetooth_autonomous_car.SelectBox.{Page, ◌>>=◌}
use bluetooth_autonomous_car.SelectBox.Session.{select_by}
use bluetooth_autonomous_car.SelectFilter.{
  Widget, from_id, to_id, Key, Link, click_link, double_click, refresh_icons, filter_key_press,
  filter_key_up, filter_key_down,
}

-- The events that the widget's listeners hear. A selection that the user makes in a box (which the
-- browser carries out) is followed by a `change` event.
pub data Side : Type 0 where
  available chosen : Side

pub data WidgetEvent : Type 0 where
  clicked : Link → WidgetEvent
  selected : Side → (Text → Bool) → WidgetEvent
  double_clicked : Side → WidgetEvent
  key_pressed key_down : Key → WidgetEvent
  key_up : Key → Text → WidgetEvent

abbrev pub id_of : Text → Side → Text
id_of field available = from_id field
id_of field chosen = to_id field

abbrev on_page : Widget → Option Page → Option Widget
on_page w r = r >>= λ p. some (record w { page = p })

unfoldable pub listen : (Text → Text) → Text → WidgetEvent → Widget → Option Widget
listen lower field (clicked link) w = click_link field link w
listen lower field (selected side by) w = select_by (id_of field side) by w.page >>= λ p.
    some (refresh_icons field (record w { page = p }))
listen lower field (double_clicked side) w = double_click field (id_of field side) w
listen lower field (key_pressed e) w = on_page w (filter_key_press field e w.page >>= λ r. some r.0)
listen lower field (key_down e) w = on_page w (filter_key_down field e w.page >>= λ r. some r.0)
listen lower field (key_up e text) w = on_page w (filter_key_up lower field text w.page)

unfoldable pub session : (Text → Text) → Text → List WidgetEvent → Widget → Option Widget
session lower field [] w = some w
session lower field (e ∷ events) w = listen lower field e w >>= session lower field events
