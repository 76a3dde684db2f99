-- ===== src/SelectBox/Examples.antt =====
-- The select boxes' theorems on a page with two boxes: "ann" and "bob" to choose from, "cid" chosen.
use mathlib.Core.List.{Perm}
use mathlib.Core.List.Perm
use bluetooth_autonomous_car.Prelude.{
  ◌≡◌, ◌≢◌, refl, arith, true, false, List, [], ◌∷◌, none, some, if◌then◌else◌, ◌==◌,
}
use bluetooth_autonomous_car.Text.{Text, codes, same_text, is_space, split_runs}
use bluetooth_autonomous_car.Text.Same.{ne_of_same_text}
use bluetooth_autonomous_car.SelectBox.Session.Apart.{NoRepeat-of_EntriesApart}
use bluetooth_autonomous_car.SelectBox.{
  OptionElement, Node, Page, displayed_options, filter, move, move_all, sort,
}
use bluetooth_autonomous_car.SelectBox.Boxes.{IsBox, IsPair}
use bluetooth_autonomous_car.SelectBox.Nodes.{text_of, Entry}
use bluetooth_autonomous_car.SelectBox.Lists.{chosen_options}
use bluetooth_autonomous_car.SelectBox.Exchange.{IsExchange, move_lem, move_all_lem}
use bluetooth_autonomous_car.SelectBox.Filter.{Filtered, filter_lem}
use bluetooth_autonomous_car.SelectBox.Sort.{IsOrdered, with_text, sort_lem}
use bluetooth_autonomous_car.SelectBox.Session.{
  Action, filter_text, select_from, choose, remove_all, run, IsConsistent, NoRepeat,
}
use bluetooth_autonomous_car.SelectBox.Session.Invariant.{run-IsConsistent}

abbrev left_id : Text
left_id = codes "l"

abbrev right_id : Text
right_id = codes "r"

abbrev ann : OptionElement
ann = record { value = codes "1"; text = codes "ann"; selected = false }

abbrev bob : OptionElement
bob = record { value = codes "2"; text = codes "bob"; selected = true }

abbrev cid : OptionElement
cid = record { value = codes "3"; text = codes "cid"; selected = false }

abbrev node : Text → Text → Node
node v t = record { value = v; text = t; displayed = true }

abbrev left_nodes : List Node
left_nodes = node (codes "1") (codes "ann") ∷ node (codes "2") (codes "bob") ∷ []

abbrev right_nodes : List Node
right_nodes = node (codes "3") (codes "cid") ∷ []

abbrev page : Page
page = record {
  document =
      λ id. if same_text id left_id then some 0 else if same_text id right_id then some 1 else none;
  options = λ e. if e == 0 then ann ∷ bob ∷ [] else if e == 1 then cid ∷ [] else [];
  fresh = 2;
  cache = λ id.
      if same_text id left_id
      then some left_nodes
      else if same_text id right_id
      then some right_nodes
      else none;
}

apart : left_id ≢ right_id
apart = ne_of_same_text _ _ refl

page_box : IsBox left_id (ann ∷ bob ∷ []) left_nodes page
page_box = record {
  element = 0;
  in_document = refl;
  allocated = omega arith;
  shows = refl;
  cached = refl;
}

page-IsPair : IsPair left_id right_id (ann ∷ bob ∷ []) left_nodes (cid ∷ []) right_nodes page
unfolding page_box
page-IsPair = record {
  from_box = page_box;
  to_box = record {
    element = 1;
    in_document = refl;
    allocated = omega arith;
    shows = refl;
    cached = refl;
  };
  two_elements = omega arith;
}

move_lem_example :
    (p' : Page) × (move left_id right_id page ≡ some p')
    × IsExchange left_id right_id
        (chosen_options (λ o. o.selected) (ann ∷ bob ∷ []))
        left_nodes
        right_nodes
        p'
unfolding text_of
move_lem_example =
    move_lem left_id right_id (ann ∷ bob ∷ []) (cid ∷ []) left_nodes right_nodes page apart
      page-IsPair ((ne_of_same_text _ _ refl, tt), (tt, tt)) (refl, (refl, tt))

move_all_lem_example :
    (p' : Page) × (move_all left_id right_id page ≡ some p')
    × IsExchange left_id right_id (ann ∷ bob ∷ []) left_nodes right_nodes p'
unfolding text_of
move_all_lem_example =
    move_all_lem left_id right_id (ann ∷ bob ∷ []) (cid ∷ []) left_nodes right_nodes page apart
      page-IsPair ((ne_of_same_text _ _ refl, tt), (tt, tt)) (refl, (refl, tt))

filter_lem_example :
    (p' : Page) × (nodes' : List Node) × (filter (λ s. s) left_id (codes "n b") page ≡ some p')
    × IsBox left_id (displayed_options nodes') nodes' p'
    × Filtered (λ s. s) (split_runs is_space (codes "n b")) left_nodes nodes'
filter_lem_example =
    filter_lem (λ s. s) left_id (codes "n b") (ann ∷ bob ∷ []) left_nodes page page_box

abbrev page_entries : List Entry
page_entries = (codes "1", codes "ann") ∷ (codes "2", codes "bob") ∷ (codes "3", codes "cid") ∷ []

abbrev session : List Action
session =
    filter_text (codes "bo") ∷ select_from (λ v. same_text v (codes "2")) ∷ choose ∷ remove_all ∷ []

page-IsConsistent : IsConsistent left_id right_id page_entries page
unfolding displayed_options
page-IsConsistent = record {
  from_options = ann ∷ bob ∷ [];
  from_nodes = left_nodes;
  to_options = cid ∷ [];
  to_nodes = right_nodes;
  boxes = page-IsPair;
  from_sync = refl;
  to_sync = refl;
  same = Perm.refl _;
}

page-NoRepeat : NoRepeat page_entries
page-NoRepeat = NoRepeat-of_EntriesApart page_entries (
  (ne_of_same_text _ _ refl, (ne_of_same_text _ _ refl, tt)),
  ((ne_of_same_text _ _ refl, tt), (tt, tt)),
)

run-IsConsistent_example :
    (p' : Page) × (run (λ s. s) left_id right_id session page ≡ some p')
    × IsConsistent left_id right_id page_entries p'
run-IsConsistent_example =
    run-IsConsistent (λ s. s) left_id right_id page_entries session page apart page-NoRepeat
      page-IsConsistent

sort_lem_example :
    (p' : Page) × (nodes' : List Node) × (sort (λ s. s) left_id page ≡ some p')
    × (p'.cache left_id ≡ some nodes')
    × Perm nodes' left_nodes
    × IsOrdered (λ s. s) nodes'
    × ((s : Text) → with_text (λ s. s) s nodes' ≡ with_text (λ s. s) s left_nodes)
sort_lem_example = sort_lem (λ s. s) left_id page left_nodes refl
