-- ===== src/SelectBox/Nodes.antt =====
-- One list of nodes: a value's text, and the deletion of a value that is there.
use mathlib.Core.List.{Perm}
use mathlib.Core.List.Perm
use bluetooth_autonomous_car.Prelude.{
  ℕ, suc, ◌≡◌, ◌≢◌, ap₂, sym, ◌∙◌, true, false, List, [], ◌∷◌, Option, none, some, if◌then◌else◌,
  Bool-cases, inl, inr,
}
use bluetooth_autonomous_car.Text.{Text, same_text}
use bluetooth_autonomous_car.Text.Same.{eq_of_same_text, same_text_ne}
use bluetooth_autonomous_car.SelectBox.{Node, node_index, delete_node, contains_node}

-- What a node is, apart from its being displayed.
abbrev pub Entry : Type 0
Entry = Text × Text

abbrev pub entry : Node → Entry
entry n = (n.value, n.text)

abbrev pub entries : List Node → List Entry
entries [] = []
entries (n ∷ nodes) = entry n ∷ entries nodes

-- The text under a value, in the first node that has it.
unfoldable pub text_of : Text → List Node → Option Text
text_of value [] = none
text_of value (n ∷ nodes) = if same_text n.value value then some n.text else text_of value nodes

contains_node-node_index :
    (value : Text) (nodes : List Node)
    → contains_node value nodes ≡ true
    → (i : ℕ) × (node_index value nodes ≡ some i)
unfolding contains_node node_index
contains_node-node_index value [] h = cc
contains_node-node_index value (n ∷ nodes) h = elim (Bool-cases (same_text n.value value)) [
  | inl here ↦ (0, rw here)
  | inr there ↦
      let (i, found) = contains_node-node_index value nodes (rw there at h) in
      (suc i, rw (there, found))
]

-- Deletion of a value that is there takes its first node away, by recursion on the nodes.
delete_node_here :
    (value : Text) (n : Node) (nodes : List Node)
    → same_text n.value value ≡ true
    → delete_node value (n ∷ nodes) ≡ nodes
unfolding delete_node
delete_node_here value n nodes here = rw (here, delete_node)

delete_node_there :
    (value : Text) (n : Node) (nodes : List Node)
    → same_text n.value value ≡ false
    → contains_node value nodes ≡ true
    → delete_node value (n ∷ nodes) ≡ n ∷ delete_node value nodes
unfolding delete_node
delete_node_there value n nodes there h =
    let (i, found) = contains_node-node_index value nodes h in rw (there, found, delete_node)

contains_node-cons :
    (value : Text) (n : Node) (nodes : List Node)
    → same_text n.value value ≡ false
    → contains_node value (n ∷ nodes) ≡ contains_node value nodes
unfolding contains_node
contains_node-cons value n nodes there = rw there

contains_node-nil : (value : Text) → ¬ (contains_node value [] ≡ true)
unfolding contains_node
contains_node-nil value h = cc

contains_node-text_of :
    (value : Text) (nodes : List Node)
    → contains_node value nodes ≡ true
    → (text : Text) × (text_of value nodes ≡ some text)
unfolding contains_node text_of
contains_node-text_of value [] h = cc
contains_node-text_of value (n ∷ nodes) h = elim (Bool-cases (same_text n.value value)) [
  | inl here ↦ (n.text, rw here)
  | inr there ↦ rw there (contains_node-text_of value nodes (rw there at h))
]

some_text : {s t : Text} → some s ≡ some t → t ≡ s
some_text e = cc

pub entries-delete_node :
    (value text : Text) (nodes : List Node)
    → contains_node value nodes ≡ true
    → text_of value nodes ≡ some text
    → Perm ((value, text) ∷ entries (delete_node value nodes)) (entries nodes)
unfolding text_of
entries-delete_node value text [] c h = absurd (contains_node-nil value c)
entries-delete_node value text (n ∷ nodes) c h = elim (Bool-cases (same_text n.value value)) [
  | inl here ↦ rw (delete_node_here value n nodes here) (
      Perm.cons' (ap₂ (λ v t. (v, t)) (sym (eq_of_same_text _ _ here)) (some_text (rw here at h)))
        (Perm.refl _))
  | inr there ↦
      let c' = sym (contains_node-cons value n nodes there) ∙ c in
      rw (delete_node_there value n nodes there c') (
        Perm.trans (Perm.swap _ _ _)
          (Perm.cons (entry n) (entries-delete_node value text nodes c' (rw there at h))))
]

-- Other values are left.
pub text_of-delete_node :
    (value other : Text) (nodes : List Node)
    → value ≢ other
    → contains_node value nodes ≡ true
    → text_of other (delete_node value nodes) ≡ text_of other nodes
unfolding text_of
text_of-delete_node value other [] ne c = absurd (contains_node-nil value c)
text_of-delete_node value other (n ∷ nodes) ne c = elim (Bool-cases (same_text n.value value)) [
  | inl here ↦ rw (
    delete_node_here value n nodes here,
    same_text_ne n.value other (λ e. ne (sym (eq_of_same_text _ _ here) ∙ e)),
  )
  | inr there ↦
      let c' = sym (contains_node-cons value n nodes there) ∙ c in
      rw (delete_node_there value n nodes there c', text_of-delete_node value other nodes ne c')
]

pub text_of-contains_node :
    (value : Text) {text : Text} (nodes : List Node)
    → text_of value nodes ≡ some text
    → contains_node value nodes ≡ true
unfolding text_of contains_node
text_of-contains_node value [] h = cc
text_of-contains_node value (n ∷ nodes) h = elim (Bool-cases (same_text n.value value)) [
  | inl here ↦ rw here
  | inr there ↦ rw there (text_of-contains_node value nodes (rw there at h))
]
