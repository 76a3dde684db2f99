-- ===== src/SelectBox/Sync.antt =====
-- A box that shows the displayed nodes of its cache meets the hypotheses of an exchange.
use bluetooth_autonomous_car.Prelude.{
  map, ap, refl, ◌≡◌, ◌≢◌, ◌∙◌, List, [], ◌∷◌, some, All, Bool-cases, inl, inr,
}
use bluetooth_autonomous_car.Text.{Text}
use bluetooth_autonomous_car.Text.Same.{same_text_refl, same_text_ne}
use bluetooth_autonomous_car.SelectBox.{OptionElement, Node, displayed_options, node_of}
use bluetooth_autonomous_car.SelectBox.Nodes.{Entry, entry, entries, text_of}
use bluetooth_autonomous_car.SelectBox.Lists.{Distinct, Listed, AllShown}

abbrev pub option_entry : OptionElement → Entry
option_entry o = (o.value, o.text)

abbrev pub option_entries : List OptionElement → List Entry
option_entries [] = []
option_entries (o ∷ options) = option_entry o ∷ option_entries options

-- The options are those of the displayed nodes, with any of them selected.
abbrev pub InSync : List OptionElement → List Node → Type 0
InSync options nodes = option_entries options ≡ option_entries (displayed_options nodes)

-- Entries with values of their own.
abbrev pub EntriesApart : List Entry → Type 0
EntriesApart [] = Unit
EntriesApart (e ∷ es) = All (λ e'. e.0 ≢ e'.0) es × EntriesApart es

-- The entry is that of a node in the list, and its value has that text.
text_of_self : (n : Node) (nodes : List Node) → text_of n.value (n ∷ nodes) ≡ some n.text
unfolding text_of
text_of_self n nodes = rw (same_text_refl n.value)

text_of-cons_ne :
    (n : Node) (nodes : List Node) (value : Text)
    → n.value ≢ value
    → text_of value (n ∷ nodes) ≡ text_of value nodes
unfolding text_of
text_of-cons_ne n nodes value ne = rw (same_text_ne n.value value ne)

-- A statement about entries, for each displayed node.
All-displayed {ℓ} :
    (P : Entry → Type ℓ) (nodes : List Node)
    → All (λ n. P (entry n)) nodes
    → All P (option_entries (displayed_options nodes))
unfolding displayed_options
All-displayed P [] h = tt
All-displayed P (n ∷ nodes) h = elim (Bool-cases n.displayed) [
  | inl shown ↦ rw shown (h.0, All-displayed P nodes h.1)
  | inr hidden ↦ rw hidden (All-displayed P nodes h.1)
]

All-entries {ℓ} :
    (P : Entry → Type ℓ) (nodes : List Node) → All P (entries nodes) → All (λ n. P (entry n)) nodes
All-entries P [] h = tt
All-entries P (n ∷ nodes) h = (h.0, All-entries P nodes h.1)

All-options {ℓ} :
    (P : Entry → Type ℓ) (options : List OptionElement)
    → All P (option_entries options)
    → All (λ o. P (option_entry o)) options
All-options P [] h = tt
All-options P (o ∷ options) h = (h.0, All-options P options h.1)

EntriesApart-displayed :
    (nodes : List Node)
    → EntriesApart (entries nodes)
    → EntriesApart (option_entries (displayed_options nodes))
unfolding displayed_options
EntriesApart-displayed [] h = tt
EntriesApart-displayed (n ∷ nodes) h = elim (Bool-cases n.displayed) [
  | inl shown ↦ rw shown (
    All-displayed (λ e. n.value ≢ e.0) nodes (All-entries (λ e. n.value ≢ e.0) nodes h.0),
    EntriesApart-displayed nodes h.1,
  )
  | inr hidden ↦ rw hidden (EntriesApart-displayed nodes h.1)
]

-- Each node's text is found under its value.
nodes_listed :
    (nodes : List Node)
    → EntriesApart (entries nodes)
    → All (λ n. text_of n.value nodes ≡ some n.text) nodes
nodes_listed [] h = tt
nodes_listed (n ∷ nodes) h = (
  text_of_self n nodes,
  below nodes (All-entries (λ e. n.value ≢ e.0) nodes h.0) (nodes_listed nodes h.1),
)
  where
    below :
        (rest : List Node)
        → All (λ n'. n.value ≢ n'.value) rest
        → All (λ n'. text_of n'.value nodes ≡ some n'.text) rest
        → All (λ n'. text_of n'.value (n ∷ nodes) ≡ some n'.text) rest
    below [] ne h = tt
    below (n' ∷ rest) ne h = (text_of-cons_ne n nodes n'.value ne.0 ∙ h.0, below rest ne.1 h.1)

-- The hypotheses of an exchange, from those on the nodes.
Distinct-options :
    (options : List OptionElement) → EntriesApart (option_entries options) → Distinct options
Distinct-options [] h = tt
Distinct-options (o ∷ options) h =
    (All-options (λ e. o.value ≢ e.0) options h.0, Distinct-options options h.1)

pub InSync-Distinct :
    (options : List OptionElement) (nodes : List Node)
    → InSync options nodes
    → EntriesApart (entries nodes)
    → Distinct options
InSync-Distinct options nodes sync apart =
    Distinct-options options (rw sync (EntriesApart-displayed nodes apart))

pub InSync-Listed :
    (options : List OptionElement) (nodes : List Node)
    → InSync options nodes
    → EntriesApart (entries nodes)
    → Listed nodes options
InSync-Listed options nodes sync apart =
    All-options (λ e. text_of e.0 nodes ≡ some e.1) options
      (rw sync (All-displayed (λ e. text_of e.0 nodes ≡ some e.1) nodes (nodes_listed nodes apart)))

-- A box that hides nothing shows all the entries.
pub displayed_options-AllShown :
    (nodes : List Node) → AllShown nodes → option_entries (displayed_options nodes) ≡ entries nodes
unfolding displayed_options
displayed_options-AllShown [] h = refl
displayed_options-AllShown (n ∷ nodes) h =
    rw h.0 (ap (entry n ∷◌) (displayed_options-AllShown nodes h.1))

pub node_of-AllShown : (options : List OptionElement) → AllShown (map node_of options)
node_of-AllShown [] = tt
node_of-AllShown (o ∷ options) = (refl, node_of-AllShown options)

pub entries-node_of :
    (options : List OptionElement) → entries (map node_of options) ≡ option_entries options
entries-node_of [] = refl
entries-node_of (o ∷ options) = ap (option_entry o ∷◌) (entries-node_of options)
