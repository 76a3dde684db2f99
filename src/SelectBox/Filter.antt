-- ===== src/SelectBox/Filter.antt =====
-- `filter`: what the box shows after the user has typed into the filter field.
use bluetooth_autonomous_car.Prelude.{
  ◌≡◌, ◌≢◌, sym, refl, ap, ◌∙◌, arith, Bool, true, ◌&&◌, List, [], ◌∷◌, Option, some, All, ◌↔◌,
}
use bluetooth_autonomous_car.Text.{Text, is_space, split_runs}
use bluetooth_autonomous_car.Text.Occurs.{Occurs, includes-Occurs}
use bluetooth_autonomous_car.Text.Same.{same_text_refl, same_text_ne}
use bluetooth_autonomous_car.SelectBox.{
  OptionElement, Node, Page, ◌>>=◌, update, contains_all, filter_nodes, filter, redisplay,
  displayed_options,
}
use bluetooth_autonomous_car.SelectBox.Boxes.{
  IsBox, redisplay_lem, redisplayed-IsBox, redisplayed-IsBox_other, IsPair, ne_of_lt, eq_at_self,
}
use bluetooth_autonomous_car.SelectBox.Nodes.{entry, entries}

-- Every one of the words occurs in the text.
abbrev HasWords : List Text → Text → Type 0
HasWords words s = All (λ w. Occurs w s) words

-- The nodes as before, displayed just when their text has the words.
abbrev pub Filtered : (Text → Text) → List Text → List Node → List Node → Type 0
Filtered lower words [] [] = Unit
Filtered lower words (n ∷ nodes) (n' ∷ nodes') =
    (n'.value ≡ n.value)
    × (n'.text ≡ n.text)
    × ((n'.displayed ≡ true) ↔ HasWords words (lower n.text))
    × Filtered lower words nodes nodes'
Filtered lower words _ _ = ⊥

contains_all-HasWords :
    (words : List Text) (s : Text) → (contains_all words s ≡ true) ↔ HasWords words s
unfolding contains_all
contains_all-HasWords [] s = (λ _. tt, λ _. refl)
contains_all-HasWords (w ∷ words) s = (
  (λ h.
      let (p, q) = and_true _ _ h in
      ((includes-Occurs w s).0 p, (contains_all-HasWords words s).0 q)),
  (λ h. rw ((includes-Occurs w s).1 h.0, (contains_all-HasWords words s).1 h.1) refl),
)
  where
    and_true : (a b : Bool) → (a && b) ≡ true → (a ≡ true) × (b ≡ true)
    and_true a b h = ground arith

filter_nodes-Filtered :
    (lower : Text → Text) (words : List Text) (nodes : List Node)
    → Filtered lower words nodes (filter_nodes lower words nodes)
unfolding filter_nodes
filter_nodes-Filtered lower words [] = tt
filter_nodes-Filtered lower words (n ∷ nodes) = (
  refl,
  refl,
  contains_all-HasWords words (lower n.text),
  filter_nodes-Filtered lower words nodes,
)

-- A box of a page with a new cache for some id.
abbrev with_cache : Text → List Node → Page → Page
with_cache id nodes p = record p { cache = update p.cache id (some nodes) }

filtered_box :
    {id : Text} {options : List OptionElement} {nodes : List Node} (nodes' : List Node) {p : Page}
    → IsBox id options nodes p
    → IsBox id options nodes' (with_cache id nodes' p)
filtered_box {id} nodes' box = record {
  element = box.element;
  in_document = box.in_document;
  allocated = box.allocated;
  shows = box.shows;
  cached = simp (same_text_refl id);
}

other_box :
    (id : Text) {other : Text} {options : List OptionElement} {nodes : List Node}
    (nodes' : List Node) {p : Page}
    → other ≢ id
    → IsBox other options nodes p
    → IsBox other options nodes (with_cache id nodes' p)
other_box id {other} nodes' ne box = record {
  element = box.element;
  in_document = box.in_document;
  allocated = box.allocated;
  shows = box.shows;
  cached = simp (same_text_ne other id ne, box.cached);
}

filter-redisplay :
    (lower : Text → Text) (id text : Text) {nodes : List Node} (p : Page)
    → p.cache id ≡ some nodes
    → filter lower id text p
      ≡ redisplay id (with_cache id (filter_nodes lower (split_runs is_space (lower text)) nodes) p)
unfolding filter
filter-redisplay lower id text p cached = ap (λ (c : Option (List Node)). c >>= show) cached
  where
    show : List Node → Option Page
    show ns =
        redisplay id (with_cache id (filter_nodes lower (split_runs is_space (lower text)) ns) p)

-- On a box of the page `filter` ends without an error. The cache then holds the same nodes in the same order, each displayed just when all
-- the words of the typed text (its runs without white space, in lower case) occur in the node's
-- text in lower case, and the box shows the displayed nodes, none of them selected.
pub filter_lem :
    (lower : Text → Text) (id text : Text) (options : List OptionElement) (nodes : List Node)
    (p : Page)
    → IsBox id options nodes p
    → (p' : Page) × (nodes' : List Node) × (filter lower id text p ≡ some p')
      × IsBox id (displayed_options nodes') nodes' p'
      × Filtered lower (split_runs is_space (lower text)) nodes nodes'
filter_lem lower id text options nodes p box =
    let words = split_runs is_space (lower text) in
    let box' = filtered_box (filter_nodes lower words nodes) box in
    (
      _,
      filter_nodes lower words nodes,
      filter-redisplay lower id text p box.cached ∙ redisplay_lem id box',
      redisplayed-IsBox id box',
      filter_nodes-Filtered lower words nodes,
    )

entries-filter_nodes :
    (lower : Text → Text) (words : List Text) (nodes : List Node)
    → entries (filter_nodes lower words nodes) ≡ entries nodes
unfolding filter_nodes
entries-filter_nodes lower words [] = refl
entries-filter_nodes lower words (n ∷ nodes) =
    ap (entry n ∷◌) (entries-filter_nodes lower words nodes)

-- `filter` on a box of a pair.
pub filter-IsPair :
    (lower : Text → Text) (from to text : Text) {fo to_options : List OptionElement}
    {f t : List Node} {p : Page}
    → from ≢ to
    → IsPair from to fo f to_options t p
    → (p' : Page) × (nodes' : List Node) × (filter lower from text p ≡ some p')
      × IsPair from to (displayed_options nodes') nodes' to_options t p'
      × (entries nodes' ≡ entries f)
unfolding redisplayed-IsBox redisplayed-IsBox_other filtered_box other_box
filter-IsPair lower from to text {f = f} {p = p} apart pair =
    let words = split_runs is_space (lower text) in
    let nodes' = filter_nodes lower words f in
    let box = filtered_box nodes' pair.from_box in
    let other = other_box from nodes' (λ e. apart (sym e)) pair.to_box in
    (
      _,
      nodes',
      filter-redisplay lower from text p pair.from_box.cached ∙ redisplay_lem from box,
      record {
        from_box = redisplayed-IsBox from box;
        to_box =
            redisplayed-IsBox_other from box to (λ e. apart (sym e)) other
              (λ e. pair.two_elements (sym e));
        two_elements = λ e. ne_of_lt pair.to_box.allocated (sym e);
      },
      entries-filter_nodes lower words f,
    )

-- The element that the id names after `filter` is a new one, and no option of it is selected.
pub filter-fresh :
    (lower : Text → Text) (id text : Text) {options : List OptionElement} {nodes : List Node}
    {p : Page}
    → IsBox id options nodes p
    → (p' : Page) × (nodes' : List Node) × (filter lower id text p ≡ some p')
      × (p'.document id ≡ some p.fresh)
      × (p'.options p.fresh ≡ displayed_options nodes')
filter-fresh lower id text {nodes = nodes} {p} box =
    let nodes' = filter_nodes lower (split_runs is_space (lower text)) nodes in
    (
      _,
      nodes',
      filter-redisplay lower id text p box.cached ∙ redisplay_lem id (filtered_box nodes' box),
      rw (same_text_refl id) refl,
      rw (eq_at_self p.fresh) refl,
    )
