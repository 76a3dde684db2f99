-- ===== src/SelectBox/Sort.antt =====
-- `sort`: the cache of a box in the order of its texts.
pub mod Order
use mathlib.Core.List.{Perm, perm_middle}
use mathlib.Core.List.Perm
use mathlib.Core.Bool.{true≢false}
use bluetooth_autonomous_car.Prelude.{
  ℕ, ◌<◌, ◌≡◌, refl, sym, ap, ap₂, ◌∙◌, arith, Bool, ◌==◌, ◌++◌, true, false, List, [], ◌∷◌, some,
  All, if◌then◌else◌, Bool-cases, inl, inr,
}
use bluetooth_autonomous_car.Text.{Text, same_text}
use bluetooth_autonomous_car.Text.Same.{same_text_refl, eq_of_same_text}
use bluetooth_autonomous_car.SelectBox.Sort.Order.{
  LexLe, text_lt_irrefl, not_lt_trans, lt_not_gt, not_lt-LexLe,
}
use bluetooth_autonomous_car.SelectBox.{
  Node, Page, text_lt, compare_nodes, is_positive, insert_by, sort_by, sort, update,
}

module _ (lower : Text → Text) where
  -- No text stands after a later one.
  abbrev pub IsOrdered : List Node → Type 0
  IsOrdered [] = Unit
  IsOrdered (n ∷ nodes) = All (λ m. LexLe (lower n.text) (lower m.text)) nodes × IsOrdered nodes

  abbrev node_gt : Node → Node → Bool
  node_gt a b = text_lt (lower b.text) (lower a.text)

  positive_gt : (a b : Node) → is_positive (compare_nodes lower a b) ≡ node_gt a b
  unfolding compare_nodes
  positive_gt a b = elim (Bool-cases (text_lt (lower b.text) (lower a.text))) [
    | inl greater ↦ rw greater refl
    | inr not_greater ↦ elim (Bool-cases (text_lt (lower a.text) (lower b.text))) [
      | inl less ↦ rw (not_greater, less) refl
      | inr equal ↦ rw (not_greater, equal) refl
    ]
  ]

  -- No node is before one that compares as smaller.
  abbrev IsSorted : List Node → Type 0
  IsSorted [] = Unit
  IsSorted (n ∷ nodes) = All (λ m. node_gt n m ≡ false) nodes × IsSorted nodes

  -- The nodes whose texts compare as equal to `s`, in their order.
  abbrev pub with_text : Text → List Node → List Node
  with_text s [] = []
  with_text s (n ∷ nodes) =
      let later = with_text s nodes in if same_text (lower n.text) s then n ∷ later else later

  insert_by-All :
      (P : Node → Type 0) (n : Node) (nodes : List Node)
      → P n
      → All P nodes
      → All P (insert_by (compare_nodes lower) n nodes)
  unfolding insert_by
  insert_by-All P n [] p h = (p, tt)
  insert_by-All P n (m ∷ nodes) p h = elim (Bool-cases (node_gt n m)) [
    | inl after ↦ rw (positive_gt n m ∙ after) (h.0, insert_by-All P n nodes p h.1)
    | inr here ↦ rw (positive_gt n m ∙ here) (p, h)
  ]

  not_gt-All :
      (n m : Node) (nodes : List Node)
      → node_gt n m ≡ false
      → All (λ x. node_gt m x ≡ false) nodes
      → All (λ x. node_gt n x ≡ false) nodes
  not_gt-All n m [] p h = tt
  not_gt-All n m (x ∷ nodes) p h =
      (not_lt_trans (lower n.text) (lower m.text) (lower x.text) p h.0, not_gt-All n m nodes p h.1)

  insert_by-IsSorted :
      (n : Node) (nodes : List Node)
      → IsSorted nodes
      → IsSorted (insert_by (compare_nodes lower) n nodes)
  unfolding insert_by
  insert_by-IsSorted n [] h = (tt, tt)
  insert_by-IsSorted n (m ∷ nodes) h = elim (Bool-cases (node_gt n m)) [
    | inl after ↦ rw (positive_gt n m ∙ after) (
      insert_by-All (λ x. node_gt m x ≡ false) n nodes
          (lt_not_gt (lower m.text) (lower n.text) after) h.0,
      insert_by-IsSorted n nodes h.1,
    )
    | inr here ↦ rw (positive_gt n m ∙ here) ((here, not_gt-All n m nodes here h.0), h)
  ]

  insert_by-perm :
      (n : Node) (nodes : List Node) → Perm (insert_by (compare_nodes lower) n nodes) (n ∷ nodes)
  unfolding insert_by
  insert_by-perm n [] = Perm.refl _
  insert_by-perm n (m ∷ nodes) = elim (Bool-cases (node_gt n m)) [
    | inl after ↦
        rw (positive_gt n m ∙ after)
          (Perm.trans (Perm.cons m (insert_by-perm n nodes)) (perm_middle (m ∷ []) nodes))
    | inr here ↦ rw (positive_gt n m ∙ here) (Perm.refl _)
  ]

  -- A greater node has another text.
  apart :
      (n m : Node) (s : Text)
      → node_gt n m ≡ true
      → same_text (lower n.text) s ≡ true
      → same_text (lower m.text) s ≡ false
  apart n m s gt same = elim (Bool-cases (same_text (lower m.text) s)) [
    | inl too ↦
        let e : lower m.text ≡ lower n.text =
          eq_of_same_text (lower m.text) s too ∙ sym (eq_of_same_text (lower n.text) s same) in
        absurd (true≢false (sym gt ∙ rw e (text_lt_irrefl (lower n.text))))
    | inr other ↦ other
  ]

  insert_by-with_text :
      (s : Text) (n : Node) (nodes : List Node)
      → with_text s (insert_by (compare_nodes lower) n nodes) ≡ with_text s (n ∷ nodes)
  unfolding insert_by
  insert_by-with_text s n [] = refl
  insert_by-with_text s n (m ∷ nodes) = elim (Bool-cases (node_gt n m)) [
    | inl after ↦ rw (positive_gt n m ∙ after) (elim (Bool-cases (same_text (lower n.text) s)) [
      | inl same ↦ rw (apart n m s after same, insert_by-with_text s n nodes, same) refl
      | inr other ↦ rw (insert_by-with_text s n nodes, other) refl
    ])
    | inr here ↦ rw (positive_gt n m ∙ here) refl
  ]

  sort_by-IsSorted : (nodes : List Node) → IsSorted (sort_by (compare_nodes lower) nodes)
  unfolding sort_by
  sort_by-IsSorted [] = tt
  sort_by-IsSorted (n ∷ nodes) =
      insert_by-IsSorted n (sort_by (compare_nodes lower) nodes) (sort_by-IsSorted nodes)

  sort_by-perm : (nodes : List Node) → Perm (sort_by (compare_nodes lower) nodes) nodes
  unfolding sort_by
  sort_by-perm [] = Perm.refl _
  sort_by-perm (n ∷ nodes) =
      Perm.trans (insert_by-perm n (sort_by (compare_nodes lower) nodes))
        (Perm.cons n (sort_by-perm nodes))

  sort_by-with_text :
      (s : Text) (nodes : List Node)
      → with_text s (sort_by (compare_nodes lower) nodes) ≡ with_text s nodes
  unfolding sort_by
  sort_by-with_text s [] = refl
  sort_by-with_text s (n ∷ nodes) =
      insert_by-with_text s n (sort_by (compare_nodes lower) nodes)
      ∙ ap (λ later. if same_text (lower n.text) s then n ∷ later else later)
          (sort_by-with_text s nodes)

  each-LexLe :
      (n : Node) (nodes : List Node)
      → All (λ m. node_gt n m ≡ false) nodes
      → All (λ m. LexLe (lower n.text) (lower m.text)) nodes
  each-LexLe n [] h = tt
  each-LexLe n (m ∷ nodes) h =
      (not_lt-LexLe (lower n.text) (lower m.text) h.0, each-LexLe n nodes h.1)

  IsSorted-IsOrdered : (nodes : List Node) → IsSorted nodes → IsOrdered nodes
  IsSorted-IsOrdered [] h = tt
  IsSorted-IsOrdered (n ∷ nodes) h = (each-LexLe n nodes h.0, IsSorted-IsOrdered nodes h.1)

-- `sort` of an id that has a cache ends without an error. The new cache is a permutation of the old
-- one; each text in it, in lower case, is the front of every later one or has the smaller code unit at
-- the first place where they differ; and the nodes of any one text in lower case keep their order.
pub sort_lem :
    (lower : Text → Text) (id : Text) (p : Page) (nodes : List Node)
    → p.cache id ≡ some nodes
    → (p' : Page) × (nodes' : List Node) × (sort lower id p ≡ some p')
      × (p'.cache id ≡ some nodes')
      × Perm nodes' nodes
      × IsOrdered lower nodes'
      × ((s : Text) → with_text lower s nodes' ≡ with_text lower s nodes)
unfolding sort
sort_lem lower id p nodes cached = (
  record p { cache = update p.cache id (some (sort_by (compare_nodes lower) nodes)) },
  sort_by (compare_nodes lower) nodes,
  rw cached refl,
  rw (same_text_refl id) refl,
  sort_by-perm lower nodes,
  IsSorted-IsOrdered lower (sort_by (compare_nodes lower) nodes) (sort_by-IsSorted lower nodes),
  λ s. sort_by-with_text lower s nodes,
)
