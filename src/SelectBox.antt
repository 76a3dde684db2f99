-- ===== src/SelectBox.antt =====
-- static/admin/js/SelectBox.js: the object `SelectBox` over the select boxes of a page. An element
-- has an identity of its own (a number): `redisplay` replaces the element that has an id by a new
-- one, and a variable that holds the old element goes on naming that. `none` is a TypeError, where
-- an id has no element or no cache. `lower` is `toLowerCase`, whose tables belong to the browser.
-- The boxes allow several selections, so a new one has none. An option's text is taken as its
-- `text` property gives it (white space collapsed).
pub mod Examples
pub mod Nodes
pub mod Lists
pub mod Moves
pub mod Boxes
pub mod Exchange
pub mod Filter
pub mod Sync
pub mod Sort
pub mod Session
use bluetooth_autonomous_car.Prelude.{
  ℕ, zero, suc, ◌+◌, Bool, true, false, ◌&&◌, ◌||◌, ltb, List, [], ◌∷◌, ◌++◌, Option, none, some,
  ◌==◌, if◌then◌else◌, map, ℤ, pos, negsuc,
}
use bluetooth_autonomous_car.Text.{Text, same_text, is_space, split_runs, includes}

pub record OptionElement : Type 0 where
  pub value : Text
  pub text : Text
  pub selected : Bool

-- An entry of a box's cache.
pub record Node : Type 0 where
  pub value : Text
  pub text : Text
  pub displayed : Bool

pub record Page : Type 0 where
  pub document : Text → Option ℕ
  pub options : ℕ → List OptionElement
  pub fresh : ℕ
  pub cache : Text → Option (List Node)

infixl 5 ◌>>=◌
abbrev pub ◌>>=◌ {ℓ κ} : {A : Type ℓ} {B : Type κ} → Option A → (A → Option B) → Option B
none >>= f = none
some a >>= f = f a

abbrev pub update {ℓ} : {A : Type ℓ} → (Text → A) → Text → A → Text → A
update f k v j = if same_text j k then v else f j

abbrev pub update_at {ℓ} : {A : Type ℓ} → (ℕ → A) → ℕ → A → ℕ → A
update_at f k v j = if j == k then v else f j

abbrev pub node_of : OptionElement → Node
node_of o = record { value = o.value; text = o.text; displayed = true }

unfoldable pub init : Text → Page → Option Page
init id p = do
  box ← p.document id
  some (record p { cache = update p.cache id (some (map node_of (p.options box))) })

-- The options that `redisplay` writes, one for each displayed node.
abbrev pub new_option : Node → OptionElement
new_option n = record { value = n.value; text = n.text; selected = false }

pub displayed_options : List Node → List OptionElement
displayed_options [] = []
displayed_options (n ∷ nodes) =
    if n.displayed then new_option n ∷ displayed_options nodes else displayed_options nodes

-- The old element is emptied, and a new one takes its place.
pub redisplay : Text → Page → Option Page
unfolding displayed_options
redisplay id p = do
  box ← p.document id
  nodes ← p.cache id
  some (record p {
    document = update p.document id (some p.fresh);
    options = update_at (update_at p.options box []) p.fresh (displayed_options nodes);
    fresh = p.fresh + 1;
  })

-- The inner loop of `filter`: every token is found, or it stops at the first that is not.
pub contains_all : List Text → Text → Bool
contains_all [] s = true
contains_all (token ∷ tokens) s = includes token s && contains_all tokens s

pub filter_nodes : (Text → Text) → List Text → List Node → List Node
unfolding contains_all
filter_nodes lower tokens [] = []
filter_nodes lower tokens (n ∷ nodes) =
    record n { displayed = contains_all tokens (lower n.text) } ∷ filter_nodes lower tokens nodes

pub filter : (Text → Text) → Text → Text → Page → Option Page
unfolding filter_nodes redisplay
filter lower id text p = do
  nodes ← p.cache id
  let tokens = split_runs is_space (lower text)
  redisplay id (record p { cache = update p.cache id (some (filter_nodes lower tokens nodes)) })

-- `delete_index`, `none` for null.
pub node_index : Text → List Node → Option ℕ
node_index value [] = none
node_index value (n ∷ nodes) =
    let later = node_index value nodes in
    if same_text n.value value then some 0 else (later >>= λ i. some (suc i))

-- `cache.splice(index, 1)`.
pub splice_one : ℕ → List Node → List Node
splice_one i [] = []
splice_one zero (n ∷ nodes) = nodes
splice_one (suc i) (n ∷ nodes) = n ∷ splice_one i nodes

-- A null index is taken for 0.
pub delete_node : Text → List Node → List Node
unfolding node_index splice_one
delete_node value nodes = elim (node_index value nodes) [
  | none ↦ splice_one 0 nodes
  | some i ↦ splice_one i nodes
]

delete_from_cache : Text → Text → Page → Option Page
unfolding delete_node
delete_from_cache id value p = do
  nodes ← p.cache id
  some (record p { cache = update p.cache id (some (delete_node value nodes)) })

unfoldable pub add_to_cache : Text → OptionElement → Page → Option Page
add_to_cache id option p = do
  nodes ← p.cache id
  some (record p { cache = update p.cache id (some (nodes ++ (node_of option ∷ []))) })

pub contains_node : Text → List Node → Bool
contains_node value [] = false
contains_node value (n ∷ nodes) =
    if same_text n.value value then true else contains_node value nodes

cache_contains : Text → Text → Page → Option Bool
unfolding contains_node
cache_contains id value p = do nodes ← p.cache id; some (contains_node value nodes)

-- The move of one option that is in the cache.
pub move_present : Text → Text → OptionElement → Page → Option Page
unfolding cache_contains add_to_cache delete_from_cache
move_present from to o p = do
  present ← cache_contains from o.value p
  if present then (add_to_cache to o p >>= delete_from_cache from o.value) else some p

-- The bodies of the loops of `move` and of `move_all`.
pub move_option : Text → Text → OptionElement → Page → Option Page
unfolding move_present
move_option from to o p = if o.selected then move_present from to o p else some p

pub move_options : (OptionElement → Page → Option Page) → List OptionElement → Page → Option Page
move_options body [] p = some p
move_options body (o ∷ options) p = do p' ← body o p; move_options body options p'

pub move : Text → Text → Page → Option Page
unfolding move_option move_options redisplay
move from to p = do
  box ← p.document from
  moved ← move_options (move_option from to) (p.options box) p
  shown ← redisplay from moved
  redisplay to shown

pub move_all : Text → Text → Page → Option Page
unfolding move_present move_options redisplay
move_all from to p = do
  box ← p.document from
  moved ← move_options (move_present from to) (p.options box) p
  shown ← redisplay from moved
  redisplay to shown

abbrev pub select : OptionElement → OptionElement
select o = record o { selected = true }

unfoldable pub select_all : Text → Page → Option Page
select_all id p = do
  box ← p.document id
  some (record p { options = update_at p.options box (map select (p.options box)) })

-- `<` of two strings, by their code units.
pub text_lt : Text → Text → Bool
text_lt s [] = false
text_lt [] (b ∷ t) = true
text_lt (a ∷ s) (b ∷ t) = ltb a b || (a == b) && text_lt s t

-- The comparison of `sort`: 1, -1 or 0.
pub compare_nodes : (Text → Text) → Node → Node → ℤ
unfolding text_lt
compare_nodes lower a b =
    let a' = lower a.text in
    let b' = lower b.text in
    if text_lt b' a' then pos 1 else if text_lt a' b' then negsuc 0 else pos 0

-- The method `sort` of the language's arrays, which is stable: an insertion sort by the sign of a
-- comparison.
abbrev pub is_positive : ℤ → Bool
is_positive (pos zero) = false
is_positive (pos (suc n)) = true
is_positive (negsuc n) = false

pub insert_by : (Node → Node → ℤ) → Node → List Node → List Node
insert_by compare n [] = n ∷ []
insert_by compare n (m ∷ nodes) =
    if is_positive (compare n m) then m ∷ insert_by compare n nodes else n ∷ m ∷ nodes

pub sort_by : (Node → Node → ℤ) → List Node → List Node
unfolding insert_by
sort_by compare [] = []
sort_by compare (n ∷ nodes) = insert_by compare n (sort_by compare nodes)

pub sort : (Text → Text) → Text → Page → Option Page
unfolding sort_by compare_nodes
sort lower id p = do
  nodes ← p.cache id
  some (record p { cache = update p.cache id (some (sort_by (compare_nodes lower) nodes)) })
