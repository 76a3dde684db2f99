-- ===== src/SelectBox/Session.antt =====
-- Sessions on a pair of boxes: whatever the user selects, types and moves.
pub mod Apart
pub mod Steps
pub mod Invariant
use mathlib.Core.List.{Perm, Nodup, Mem, Nodup-cons, mem-cons, map-append}
use mathlib.Core.List.Perm
use mathlib.Core.Logic.Or
use mathlib.Core.List.{perm_append_comm}
use bluetooth_autonomous_car.Prelude.{
  ℕ, ◌≡◌, ◌≢◌, refl, ap, sym, ◌∙◌, arith, Bool, true, false, List, [], ◌∷◌, ◌++◌, Option, some, All,
  if◌then◌else◌, map, Bool-cases, inl, inr, ◌⊎◌, ◌==◌,
}
use bluetooth_autonomous_car.Text.{Text, same_text, is_space, split_runs}
use bluetooth_autonomous_car.Text.Same.{same_text_refl, same_text_ne}
use bluetooth_autonomous_car.SelectBox.{
  OptionElement, Node, Page, ◌>>=◌, update, update_at, displayed_options, filter_nodes, filter,
  redisplay, move, move_all, new_option,
}
use bluetooth_autonomous_car.SelectBox.Nodes.{Entry, entry, entries, text_of}
use bluetooth_autonomous_car.SelectBox.Boxes.{IsBox, IsPair, eq_at_self, eq_at_ne}
use bluetooth_autonomous_car.SelectBox.Exchange.{IsExchange, move_lem, move_all_lem}
use bluetooth_autonomous_car.SelectBox.Filter.{filter-IsPair}
use bluetooth_autonomous_car.SelectBox.Sync.{
  InSync, EntriesApart, option_entries, InSync-Distinct, InSync-Listed,
}

-- The user selects and deselects options of a box, by their values. (The browser does this.)
abbrev pub set_selected : (Text → Bool) → OptionElement → OptionElement
set_selected chosen o = record o { selected = chosen o.value }

unfoldable pub select_by : Text → (Text → Bool) → Page → Option Page
select_by id chosen p = p.document id >>= λ box.
    some
      (record p { options = update_at p.options box (map (set_selected chosen) (p.options box)) })

-- What can happen to the pair of boxes: a selection in either, text in the filter field of the
-- first, and the four links.
pub data Action : Type 0 where
  select_from select_to : (Text → Bool) → Action
  filter_text : Text → Action
  choose remove choose_all remove_all : Action

pub perform : (Text → Text) → Text → Text → Action → Page → Option Page
unfolding select_by
perform lower from to (select_from chosen) p = select_by from chosen p
perform lower from to (select_to chosen) p = select_by to chosen p
perform lower from to (filter_text text) p = filter lower from text p
perform lower from to choose p = move from to p
perform lower from to remove p = move to from p
perform lower from to choose_all p = move_all from to p
perform lower from to remove_all p = move_all to from p

pub run : (Text → Text) → Text → Text → List Action → Page → Option Page
unfolding perform
run lower from to [] p = some p
run lower from to (a ∷ actions) p = perform lower from to a p >>= run lower from to actions

-- Both boxes show the displayed nodes of their caches, which together hold `all`.
pub record IsConsistent (from to : Text) (all : List Entry) (p : Page) : Type 0 where
  pub from_options : List OptionElement
  pub from_nodes : List Node
  pub to_options : List OptionElement
  pub to_nodes : List Node
  pub boxes : IsPair from to from_options from_nodes to_options to_nodes p
  pub from_sync : InSync from_options from_nodes
  pub to_sync : InSync to_options to_nodes
  pub same : Perm (entries from_nodes ++ entries to_nodes) all

-- The values of the entries are all different.
abbrev pub NoRepeat : List Entry → Type 0
NoRepeat all = Nodup (map (λ e. e.0) all)
