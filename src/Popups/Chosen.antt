-- ===== src/Popups/Chosen.antt =====
-- What the popups leave in the fields that they were opened for.
use mathlib.Core.List.{nil≢cons}
use bluetooth_autonomous_car.Prelude.{
  ℕ, ◌≡◌, ◌≢◌, refl, ap, sym, ◌∙◌, Bool, true, false, List, [], ◌∷◌, ◌++◌, Option, none, some, ◌==◌,
  All, append_assoc, append-nil,
}
use bluetooth_autonomous_car.Text.{Text, codes, split}
use bluetooth_autonomous_car.Text.Same.{same_text_refl}
use bluetooth_autonomous_car.Text.Split.{split_one, split-append_both}
use bluetooth_autonomous_car.SelectBox.{
  OptionElement, Node, ◌>>=◌, Page, displayed_options, add_to_cache, update,
}
use bluetooth_autonomous_car.SelectBox.Boxes.{IsBox, redisplay_lem, redisplayed-IsBox}
use bluetooth_autonomous_car.Popups.{
  Input, chosen_value, choose_id, dismiss_related_lookup, dismiss_add, id_to_windowname,
}
use bluetooth_autonomous_car.Popups.Names.{
  Lacks, dot_word, dash_word, windowname_to_id-id_to_windowname,
}

abbrev pub comma : ℕ → Bool
comma c = c == b','

-- Lookups, one after the other.
pub dismiss_lookups : List Text → Option Input → Option Input
dismiss_lookups [] input = input
dismiss_lookups (id ∷ ids) input = dismiss_lookups ids (dismiss_related_lookup input id)

-- An id is not empty and has no comma in it.
abbrev pub IsId : Text → Type 0
IsId s = (s ≢ []) × All (λ c. comma c ≡ false) s

not_nil : (s : Text) (c : ℕ) (t : Text) → s ++ (c ∷ t) ≢ []
not_nil [] c t e = nil≢cons (sym e)
not_nil (a ∷ s) c t e = nil≢cons (sym e)

chosen_value-some :
    (value id : Text) → value ≢ [] → chosen_value true value id ≡ value ++ (b',' ∷ id)
unfolding chosen_value
chosen_value-some [] id h = absurd (h refl)
chosen_value-some (c ∷ value) id h = refl

abbrev many : Text → Option Input
many value = some (record { multiple = true; value = value })

dismiss_lookups-from :
    (ids : List Text) (value : Text)
    → value ≢ []
    → All IsId ids
    → (value' : Text) × (dismiss_lookups ids (many value) ≡ many value')
      × (split comma value' ≡ split comma value ++ ids)
unfolding dismiss_lookups dismiss_related_lookup choose_id
dismiss_lookups-from [] value some' h = (value, refl, sym (append-nil _))
dismiss_lookups-from (id ∷ ids) value some' h =
    let next = value ++ (b',' ∷ id) in
    let (value', e, s) = dismiss_lookups-from ids next (not_nil value b',' id) h.1 in
    (
      value',
      ap (λ v. dismiss_lookups ids (many v)) (chosen_value-some value id some') ∙ e,
      s
          ∙ ap (◌++ ids) (
              split-append_both comma value b',' id refl
              ∙ ap (split comma value ++◌) (split_one comma id h.0.1))
          ∙ append_assoc (split comma value) (id ∷ []) ids,
    )

-- Lookups in an empty field for many ids, one at least, leave the ids between commas, in the order of
-- the lookups. (No id is empty or has a comma in it.)
pub dismiss_lookups_lem :
    (id : Text) (ids : List Text)
    → All IsId (id ∷ ids)
    → (value : Text) × (dismiss_lookups (id ∷ ids) (some (record { multiple = true; value = [] }))
        ≡ some (record { multiple = true; value = value }))
      × (split comma value ≡ id ∷ ids)
unfolding dismiss_lookups dismiss_related_lookup choose_id chosen_value
dismiss_lookups_lem id ids h =
    let (value, e, s) = dismiss_lookups-from ids id h.0.0 h.1 in
    (value, e, s ∙ ap (◌++ ids) (split_one comma id h.0.1))

abbrev new_node : Text → Text → Node
new_node id repr = record { value = id; text = repr; displayed = true }

-- The dismissal of a popup that added an object to a two-box selector, whose name has neither `dot` nor
-- `dash` in it: the object is the last of the chosen box's cache, and the box shows the displayed ones.
pub dismiss_add-IsBox :
    (name id repr : Text) (options : List OptionElement) (nodes : List Node) (p : Page)
    → Lacks dot_word name
    → Lacks dash_word name
    → IsBox (name ++ codes "_to") options nodes p
    → (p' : Page) × (dismiss_add none (id_to_windowname name) id repr p ≡ some (none, p'))
      × IsBox
          (name ++ codes "_to")
          (displayed_options (nodes ++ (new_node id repr ∷ [])))
          (nodes ++ (new_node id repr ∷ []))
          p'
unfolding dismiss_add add_to_cache
dismiss_add-IsBox name id repr options nodes p h h' box =
    let to_id = name ++ codes "_to" in
    let nodes' = nodes ++ (new_node id repr ∷ []) in
    let cached = record p { cache = update p.cache to_id (some nodes') } in
    let box' : IsBox to_id options nodes' cached = record {
      element = box.element;
      in_document = box.in_document;
      allocated = box.allocated;
      shows = box.shows;
      cached = simp (same_text_refl to_id);
    } in
    (
      _,
      rw (windowname_to_id-id_to_windowname name h h', box.cached)
          (ap (λ r. r >>= λ p'. some (none, p')) (redisplay_lem to_id box')),
      redisplayed-IsBox to_id box',
    )
