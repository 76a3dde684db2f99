-- ===== src/SelectBox/Session/Invariant.antt =====
-- Any sequence of actions keeps a pair of boxes consistent.
use bluetooth_autonomous_car.Prelude.{◌≡◌, ◌≢◌, refl, sym, List, [], ◌∷◌, Option, some}
use bluetooth_autonomous_car.Text.{Text}
use bluetooth_autonomous_car.SelectBox.{Page}
use bluetooth_autonomous_car.SelectBox.Nodes.{Entry}
use bluetooth_autonomous_car.SelectBox.Session.{
  Action, select_from, select_to, filter_text, choose, remove, choose_all, remove_all, perform, run,
  IsConsistent, NoRepeat,
}
use bluetooth_autonomous_car.SelectBox.Session.Steps.{
  flip, select_by-IsConsistent, filter-IsConsistent, move-IsConsistent, move_all-IsConsistent,
}

-- The outcome of an action in the other direction.
flipped :
    {from to : Text} {all : List Entry} {r : Option Page}
    → ((p' : Page) × (r ≡ some p') × IsConsistent to from all p')
    → (p' : Page) × (r ≡ some p') × IsConsistent from to all p'
flipped (p', e, v) = (p', e, flip v)

perform-IsConsistent :
    (lower : Text → Text) (from to : Text) (all : List Entry) (a : Action) {p : Page}
    → from ≢ to
    → NoRepeat all
    → IsConsistent from to all p
    → (p' : Page) × (perform lower from to a p ≡ some p') × IsConsistent from to all p'
unfolding perform
perform-IsConsistent lower from to all (select_from chosen) apart unique v =
    select_by-IsConsistent chosen v
perform-IsConsistent lower from to all (select_to chosen) apart unique v =
    flipped (select_by-IsConsistent chosen (flip v))
perform-IsConsistent lower from to all (filter_text text) apart unique v =
    filter-IsConsistent lower text apart v
perform-IsConsistent lower from to all choose apart unique v = move-IsConsistent apart unique v
perform-IsConsistent lower from to all remove apart unique v =
    flipped (move-IsConsistent (λ e. apart (sym e)) unique (flip v))
perform-IsConsistent lower from to all choose_all apart unique v =
    move_all-IsConsistent apart unique v
perform-IsConsistent lower from to all remove_all apart unique v =
    flipped (move_all-IsConsistent (λ e. apart (sym e)) unique (flip v))

-- Any session of selections, filter texts and moves on two boxes whose entries have different
-- values ends without an error, both boxes show the displayed nodes of their caches, and the two
-- caches together hold a permutation of the entries that they held at the start.
pub run-IsConsistent :
    (lower : Text → Text) (from to : Text) (all : List Entry) (actions : List Action) (p : Page)
    → from ≢ to
    → NoRepeat all
    → IsConsistent from to all p
    → (p' : Page) × (run lower from to actions p ≡ some p') × IsConsistent from to all p'
unfolding run
run-IsConsistent lower from to all [] p apart unique v = (p, refl, v)
run-IsConsistent lower from to all (a ∷ actions) p apart unique v =
    let (p₁, e₁, v₁) = perform-IsConsistent lower from to all a apart unique v in
    let (p₂, e₂, v₂) = run-IsConsistent lower from to all actions p₁ apart unique v₁ in
    (p₂, rw e₁ e₂, v₂)
