-- ===== src/SelectBox/Exchange.antt =====
-- `move` and `move_all`, whole: the loop and the two calls of `redisplay`.
use mathlib.Core.List.{Perm}
use bluetooth_autonomous_car.Prelude.{
  ◌≡◌, ◌≢◌, refl, ap, sym, ◌∙◌, Bool, true, false, List, [], ◌∷◌, ◌++◌, Option, some, map,
}
use bluetooth_autonomous_car.Text.{Text}
use bluetooth_autonomous_car.SelectBox.{
  OptionElement, Node, Page, ◌>>=◌, node_of, move_present, move_option, move_options, move,
  move_all, redisplay, displayed_options,
}
use bluetooth_autonomous_car.SelectBox.Nodes.{entries}
use bluetooth_autonomous_car.SelectBox.Lists.{
  loop_lists, chosen_options, Distinct, Listed, AllShown, loop_lists-AllShown, loop_lists-perm,
  loop_lists-arrive,
}
use bluetooth_autonomous_car.SelectBox.Moves.{HasCaches, move_options-HasCaches}
use bluetooth_autonomous_car.SelectBox.Boxes.{
  IsBox, IsPair, redisplay_lem, redisplayed-IsBox, redisplayed-IsBox_other, ne_of_lt,
}

-- The outcome of an exchange of the chosen options: both boxes show the displayed nodes of
-- their new caches, the entries of the two caches together are those of before, the chosen options
-- stand at the end of the target's cache, in their order, and no node that is left gets hidden.
pub record IsExchange (from to : Text) (chosen : List OptionElement) (f t : List Node) (p' : Page)
    : Type 0 where
  pub left : List Node
  pub arrived : List Node
  pub boxes : IsPair from to (displayed_options left) left (displayed_options arrived) arrived p'
  pub kept : Perm (entries left ++ entries arrived) (entries f ++ entries t)
  pub at_end : arrived ≡ t ++ map node_of chosen
  pub unhidden : AllShown f → AllShown left

-- New caches leave the elements alone.
IsBox-HasCaches :
    {id : Text} {options : List OptionElement} {nodes : List Node} {from to : Text}
    {f t : List Node} {p p' : Page} (nodes' : List Node)
    → HasCaches from to f t p p'
    → (b : IsBox id options nodes p) → p'.cache id ≡ some nodes'
    → IsBox id options nodes' p'
IsBox-HasCaches {id} {options} nodes' h b cached = record {
  element = b.element;
  in_document = ap (λ d. d id) h.same_document ∙ b.in_document;
  allocated = rw h.same_fresh b.allocated;
  shows = ap (λ o. o b.element) h.same_options ∙ b.shows;
  cached = cached;
}

-- The two calls of `redisplay` at the end.
redisplay_both :
    (from to : Text) {fo to_options : List OptionElement} {f t : List Node} {p : Page}
    → from ≢ to
    → IsPair from to fo f to_options t p
    → (p' : Page) × ((redisplay from p >>= redisplay to) ≡ some p')
      × IsPair from to (displayed_options f) f (displayed_options t) t p'
unfolding redisplayed-IsBox redisplayed-IsBox_other
redisplay_both from to apart pair =
    let first = redisplayed-IsBox from pair.from_box in
    let second =
      redisplayed-IsBox_other from pair.from_box to (λ e. apart (sym e)) pair.to_box
        (λ e. pair.two_elements (sym e)) in
    (
      _,
      rw (redisplay_lem from pair.from_box) (redisplay_lem to second),
      record {
        from_box =
            redisplayed-IsBox_other to second from apart first
              (λ e. ne_of_lt pair.to_box.allocated (sym e));
        to_box = redisplayed-IsBox to second;
        two_elements = ne_of_lt first.allocated;
      },
    )

module _ (from to : Text) (apart : from ≢ to) (chosen : OptionElement → Bool)
    (body : OptionElement → Page → Option Page)
    (moves : (o : OptionElement) (p : Page) → chosen o ≡ true → body o p ≡ move_present from to o p)
    (stays : (o : OptionElement) (p : Page) → chosen o ≡ false → body o p ≡ some p) where
  exchange :
      (fo : List OptionElement) {to_options : List OptionElement} {f t : List Node} {p : Page}
      → IsPair from to fo f to_options t p
      → Distinct fo
      → Listed f fo
      → (p' : Page) × ((move_options body fo p >>= λ moved. redisplay from moved >>= redisplay to)
          ≡ some p')
        × IsExchange from to (chosen_options chosen fo) f t p'
  unfolding IsBox-HasCaches
  exchange fo {to_options} {f} {t} {p} pair d h =
      let (p₁, e₁, k) =
        move_options-HasCaches from to apart chosen body moves stays fo f t p pair.from_box.cached
          pair.to_box.cached in
      let (p₂, e₂, shown) = redisplay_both from to apart (moved_pair p₁ k) in
      (
        p₂,
        rw e₁ e₂,
        record {
          left = (loop_lists chosen fo f t).0;
          arrived = (loop_lists chosen fo f t).1;
          boxes = shown;
          kept = loop_lists-perm chosen fo f t d h;
          at_end = loop_lists-arrive chosen fo f t d h;
          unhidden = loop_lists-AllShown chosen fo f t;
        },
      )
    where
      moved_pair :
          (p₁ : Page)
          → HasCaches from to (loop_lists chosen fo f t).0 (loop_lists chosen fo f t).1 p p₁
          → IsPair from to fo
              (loop_lists chosen fo f t).0
              to_options
              (loop_lists chosen fo f t).1
              p₁
      moved_pair p₁ k = record {
        from_box = IsBox-HasCaches _ k pair.from_box k.from_is;
        to_box = IsBox-HasCaches _ k pair.to_box k.to_is;
        two_elements = pair.two_elements;
      }

-- For two boxes with different ids and elements, where the first one's options have distinct
-- values and are in its cache with their texts, `move` ends without an error: the selected options,
-- in their order, are put at the end of the second cache, the two caches together keep a permutation
-- of their entries, and each box shows the displayed nodes of its cache.
pub move_lem :
    (from to : Text) (fo to_options : List OptionElement) (f t : List Node) (p : Page)
    → from ≢ to
    → IsPair from to fo f to_options t p
    → Distinct fo
    → Listed f fo
    → (p' : Page) × (move from to p ≡ some p')
      × IsExchange from to (chosen_options (λ o. o.selected) fo) f t p'
unfolding move move_option
move_lem from to fo to_options f t p apart pair d h =
    rw (pair.from_box.in_document, pair.from_box.shows)
      (exchange from to apart (λ o. o.selected) (move_option from to) (λ o p e. rw e)
        (λ o p e. rw e) fo pair d h)

chosen_all : (fo : List OptionElement) → chosen_options (λ _. true) fo ≡ fo
unfolding chosen_options
chosen_all [] = refl
chosen_all (o ∷ fo) = ap (o ∷◌) (chosen_all fo)

-- For two boxes with different ids and elements, where the first one's options have distinct
-- values and are in its cache with their texts, `move_all` ends without an error: the options that the
-- first box shows, in their order, are put at the end of the second cache, the two caches together
-- keep a permutation of their entries, and each box shows the displayed nodes of its cache.
pub move_all_lem :
    (from to : Text) (fo to_options : List OptionElement) (f t : List Node) (p : Page)
    → from ≢ to
    → IsPair from to fo f to_options t p
    → Distinct fo
    → Listed f fo
    → (p' : Page) × (move_all from to p ≡ some p') × IsExchange from to fo f t p'
unfolding move_all
move_all_lem from to fo to_options f t p apart pair d h =
    rw (pair.from_box.in_document, pair.from_box.shows)
      (simp (chosen_all fo) at (
        exchange from to apart (λ _. true) (move_present from to) (λ o p e. refl) (λ o p e. cc) fo
          pair d h))
