-- ===== src/SelectFilter/Moved.antt =====
-- The operations of SelectBox on the widget's two boxes: the second is never filtered, so it shows
-- all that it holds.
use bluetooth_autonomous_car.Prelude.{ℕ, ◌≡◌, ◌≢◌, sym, true, List, some, Option, map, All-append}
use bluetooth_autonomous_car.Text.{Text}
use bluetooth_autonomous_car.SelectBox.{OptionElement, Page, Node, node_of, move, move_all, filter}
use bluetooth_autonomous_car.SelectBox.Nodes.{Entry}
use bluetooth_autonomous_car.SelectBox.Lists.{AllShown}
use bluetooth_autonomous_car.SelectBox.Exchange.{IsExchange}
use bluetooth_autonomous_car.SelectBox.Sync.{node_of-AllShown}
use bluetooth_autonomous_car.SelectBox.Session.{IsConsistent, NoRepeat}
use bluetooth_autonomous_car.SelectBox.Session.Steps.{
  flip, filter-IsConsistent, move-IsExchange, move_all-IsExchange, IsExchange-IsConsistent,
}
use bluetooth_autonomous_car.SelectFilter.Touched.{KeepsEntries, touched, touched-IsConsistent}

pub record IsReady (from to : Text) (all : List Entry) (p : Page) : Type 0 where
  pub consistent : IsConsistent from to all p
  pub shown : AllShown consistent.to_nodes

-- The operation ends without an error, on a page that is ready again.
abbrev pub EndsReady : Text → Text → List Entry → Option Page → Type 0
EndsReady from to all r = (p' : Page) × (r ≡ some p') × IsReady from to all p'

arrived_shown :
    {from to : Text} {chosen : List OptionElement} {f t : List Node} {p' : Page}
    → AllShown t
    → (x : IsExchange from to chosen f t p') → AllShown x.arrived
arrived_shown {chosen = chosen} {t = t} h x =
    rw x.at_end
      (All-append (λ n. n.displayed ≡ true) t (map node_of chosen) h (node_of-AllShown chosen))

module _ {from to : Text} {all : List Entry} {p : Page} (r : IsReady from to all p) where
  -- An exchange into the second box, and one out of it.
  moved_to :
      {chosen : List OptionElement} {q : Option Page}
      → ((p' : Page) × (q ≡ some p')
          × IsExchange from to chosen r.consistent.from_nodes r.consistent.to_nodes p')
      → EndsReady from to all q
  unfolding IsExchange-IsConsistent
  moved_to (p', e, x) = (
    p',
    e,
    record { consistent = IsExchange-IsConsistent r.consistent x; shown = arrived_shown r.shown x },
  )

  moved_back :
      {chosen : List OptionElement} {q : Option Page}
      → ((p' : Page) × (q ≡ some p')
          × IsExchange to from chosen r.consistent.to_nodes r.consistent.from_nodes p')
      → EndsReady from to all q
  unfolding IsExchange-IsConsistent flip
  moved_back (p', e, x) = (
    p',
    e,
    record {
      consistent = flip (IsExchange-IsConsistent (flip r.consistent) x);
      shown = x.unhidden r.shown;
    },
  )

  pub filter-EndsReady :
      (lower : Text → Text) (text : Text)
      → from ≢ to
      → EndsReady from to all (filter lower from text p)
  unfolding filter-IsConsistent
  filter-EndsReady lower text apart =
      let (p', e, v') = filter-IsConsistent lower text apart r.consistent in
      (p', e, record { consistent = v'; shown = r.shown })

  pub touched-IsReady :
      (element : ℕ) (f : List OptionElement → List OptionElement)
      → KeepsEntries f
      → IsReady from to all (touched element f p)
  touched-IsReady element f keeps =
      let (v', same) = touched-IsConsistent element f keeps r.consistent in
      record { consistent = v'; shown = rw same r.shown }

  module _ (apart : from ≢ to) (unique : NoRepeat all) where
    pub move_to-EndsReady : EndsReady from to all (move from to p)
    move_to-EndsReady = moved_to (move-IsExchange apart unique r.consistent)

    pub move_all_to-EndsReady : EndsReady from to all (move_all from to p)
    move_all_to-EndsReady = moved_to (move_all-IsExchange apart unique r.consistent)

    pub move_back-EndsReady : EndsReady from to all (move to from p)
    unfolding flip
    move_back-EndsReady =
        moved_back (move-IsExchange (λ e. apart (sym e)) unique (flip r.consistent))

    pub move_all_back-EndsReady : EndsReady from to all (move_all to from p)
    unfolding flip
    move_all_back-EndsReady =
        moved_back (move_all-IsExchange (λ e. apart (sym e)) unique (flip r.consistent))
