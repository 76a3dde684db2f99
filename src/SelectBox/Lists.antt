-- ===== src/SelectBox/Lists.antt =====
-- The two lists of nodes behind `move` and `move_all`, through their loop.
use mathlib.Core.List.{Perm, perm_middle, perm_append_comm}
use mathlib.Core.List.Perm
use bluetooth_autonomous_car.Prelude.{
  ℕ, zero, suc, Option, none, ◌≡◌, ◌≢◌, refl, ap, sym, ◌∙◌, Bool, true, List, [], ◌∷◌, ◌++◌, some,
  if◌then◌else◌, map, Bool-cases, inl, inr, append_assoc, append-nil, All, ◌&&◌,
}
use bluetooth_autonomous_car.Text.{Text}
use bluetooth_autonomous_car.SelectBox.{
  OptionElement, Node, node_of, delete_node, contains_node, splice_one, node_index,
}
use bluetooth_autonomous_car.SelectBox.Nodes.{
  entry, entries, text_of, entries-delete_node, text_of-delete_node, text_of-contains_node,
}

-- The two lists of nodes through a loop over options, `chosen` those that the loop moves.
unfoldable pub loop_lists :
    (OptionElement → Bool) → List OptionElement → List Node → List Node → List Node × List Node
loop_lists chosen [] f t = (f, t)
loop_lists chosen (o ∷ options) f t =
    if chosen o && contains_node o.value f
    then loop_lists chosen options (delete_node o.value f) (t ++ (node_of o ∷ []))
    else loop_lists chosen options f t

unfoldable pub chosen_options : (OptionElement → Bool) → List OptionElement → List OptionElement
chosen_options chosen [] = []
chosen_options chosen (o ∷ options) =
    if chosen o then o ∷ chosen_options chosen options else chosen_options chosen options

-- The options have values of their own, and the cache has each of them.
abbrev pub Distinct : List OptionElement → Type 0
Distinct [] = Unit
Distinct (o ∷ options) = All (λ o'. o.value ≢ o'.value) options × Distinct options

abbrev pub Listed : List Node → List OptionElement → Type 0
Listed nodes options = All (λ o. text_of o.value nodes ≡ some o.text) options

Listed-delete_node :
    (value : Text) (nodes : List Node) (options : List OptionElement)
    → contains_node value nodes ≡ true
    → All (λ o'. value ≢ o'.value) options
    → Listed nodes options
    → Listed (delete_node value nodes) options
Listed-delete_node value nodes [] c ne h = tt
Listed-delete_node value nodes (o ∷ options) c ne h = (
  text_of-delete_node value o.value nodes ne.0 c ∙ h.0,
  Listed-delete_node value nodes options c ne.1 h.1,
)

entries-append : (xs ys : List Node) → entries (xs ++ ys) ≡ entries xs ++ entries ys
entries-append [] ys = refl
entries-append (x ∷ xs) ys = ap (entry x ∷◌) (entries-append xs ys)

one_moved :
    (o : OptionElement) (f t : List Node)
    → contains_node o.value f ≡ true
    → text_of o.value f ≡ some o.text
    → Perm
        (entries (delete_node o.value f) ++ entries (t ++ (node_of o ∷ [])))
        (entries f ++ entries t)
one_moved o f t c h = rw (entries-append t (node_of o ∷ [])) (
    Perm.trans (Perm.append_left (entries (delete_node o.value f)) (perm_append_comm (entries t) _))
      (Perm.trans (perm_middle (entries (delete_node o.value f)) _)
        (Perm.append_right (entries t) (entries-delete_node o.value o.text f c h))))

-- Every node of the list is displayed.
abbrev pub AllShown : List Node → Type 0
AllShown nodes = All (λ n. n.displayed ≡ true) nodes

splice_one-AllShown : (i : ℕ) (nodes : List Node) → AllShown nodes → AllShown (splice_one i nodes)
unfolding splice_one
splice_one-AllShown i [] h = tt
splice_one-AllShown zero (n ∷ nodes) h = h.1
splice_one-AllShown (suc i) (n ∷ nodes) h = (h.0, splice_one-AllShown i nodes h.1)

delete_node-AllShown :
    (value : Text) (nodes : List Node) → AllShown nodes → AllShown (delete_node value nodes)
unfolding delete_node
delete_node-AllShown value nodes h = at (node_index value nodes)
  where
    at :
        (r : Option ℕ)
        → AllShown (elim r [ none ↦ splice_one 0 nodes | some i ↦ splice_one i nodes ])
    at none = splice_one-AllShown 0 nodes h
    at (some i) = splice_one-AllShown i nodes h

module _ (chosen : OptionElement → Bool) where
  -- The loop hides no node that it leaves.
  pub loop_lists-AllShown :
      (options : List OptionElement) (f t : List Node)
      → AllShown f
      → AllShown (loop_lists chosen options f t).0
  unfolding loop_lists
  loop_lists-AllShown [] f t h = h
  loop_lists-AllShown (o ∷ options) f t h =
      elim (Bool-cases (chosen o && contains_node o.value f)) [
        | inl moves ↦ rw moves (
            loop_lists-AllShown options (delete_node o.value f) _
              (delete_node-AllShown o.value f h))
        | inr stays ↦ rw stays (loop_lists-AllShown options f t h)
      ]

  -- Nothing is lost and nothing is doubled.
  pub loop_lists-perm :
      (options : List OptionElement) (f t : List Node)
      → Distinct options
      → Listed f options
      → Perm
          (entries (loop_lists chosen options f t).0 ++ entries (loop_lists chosen options f t).1)
          (entries f ++ entries t)
  unfolding loop_lists
  loop_lists-perm [] f t d h = Perm.refl _
  loop_lists-perm (o ∷ options) f t d h = elim (Bool-cases (chosen o)) [
    | inl moves ↦
        let c = text_of-contains_node o.value f h.0 in
        rw (moves, c)
          (Perm.trans
            (loop_lists-perm options (delete_node o.value f) _ d.1
              (Listed-delete_node o.value f options c d.0 h.1))
            (one_moved o f t c h.0))
    | inr stays ↦ rw stays (loop_lists-perm options f t d.1 h.1)
  ]

  -- The moved options arrive at the end, in their order.
  pub loop_lists-arrive :
      (options : List OptionElement) (f t : List Node)
      → Distinct options
      → Listed f options
      → (loop_lists chosen options f t).1 ≡ t ++ map node_of (chosen_options chosen options)
  unfolding loop_lists chosen_options
  loop_lists-arrive [] f t d h = sym (append-nil t)
  loop_lists-arrive (o ∷ options) f t d h = elim (Bool-cases (chosen o)) [
    | inl moves ↦
        let c = text_of-contains_node o.value f h.0 in
        rw (moves, c)
          (loop_lists-arrive options (delete_node o.value f) _ d.1
              (Listed-delete_node o.value f options c d.0 h.1)
            ∙ append_assoc t (node_of o ∷ []) _)
    | inr stays ↦ rw stays (loop_lists-arrive options f t d.1 h.1)
  ]
