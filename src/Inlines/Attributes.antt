-- ===== src/Inlines/Attributes.antt =====
-- Forms whose attributes have an index are families, and their templates' copies too.
use bluetooth_autonomous_car.Prelude.{
  ℕ, ◌≡◌, refl, ap, sym, Bool, true, false, List, [], ◌∷◌, ◌++◌, some, append-nil, map, All, ap₂,
}
use bluetooth_autonomous_car.Text.{Text, codes, dec, is_digit, starts_with_one}
use bluetooth_autonomous_car.Text.Decimal.{dec-IsNumeral, dec-some}
use bluetooth_autonomous_car.Inlines.{
  after_index, replace_index, Element, update_element, Form, update_form, new_form,
}
use bluetooth_autonomous_car.Inlines.Families.{IsFamily}
use bluetooth_autonomous_car.Inlines.Sequence.{IsTemplate}
use bluetooth_autonomous_car.Inlines.Index.{
  after_index-numeral, after_index-template, Misses, replace_index-lead,
}

-- An attribute: none, or one with the index of its form after a lead and before the rest.
pub data Attribute : Type 0 where
  absent : Attribute
  indexed : Text → Text → Attribute

abbrev pub attribute_at : Text → Attribute → Text → Text
attribute_at prefix absent x = []
attribute_at prefix (indexed lead rest) x = lead ++ (prefix ++ (b'-' ∷ (x ++ rest)))

abbrev pub IsAttribute : Text → Attribute → Type 0
IsAttribute prefix absent = Unit
IsAttribute prefix (indexed lead rest) =
    Misses prefix lead × (starts_with_one is_digit rest ≡ false)

-- The three attributes of an element.
pub record Attributes : Type 0 where
  pub label_for : Attribute
  pub id : Attribute
  pub name : Attribute

abbrev pub element_at : Text → Attributes → Text → Element
element_at prefix a x = record {
  label_for = attribute_at prefix a.label_for x;
  id = attribute_at prefix a.id x;
  name = attribute_at prefix a.name x;
}

abbrev pub IsAttributes : Text → Attributes → Type 0
IsAttributes prefix a =
    IsAttribute prefix a.label_for × IsAttribute prefix a.id × IsAttribute prefix a.name

module _ (prefix : Text) where
  replace_index-attribute :
      (n : ℕ) (a : Attribute) (x : Text)
      → IsAttribute prefix a
      → ((rest : Text)
          → starts_with_one is_digit rest ≡ false
          → after_index (x ++ rest) ≡ some rest)
      → replace_index prefix n (attribute_at prefix a x) ≡ attribute_at prefix a (dec n)
  unfolding replace_index
  replace_index-attribute n absent x h f = refl
  replace_index-attribute n (indexed lead rest) x h f =
      replace_index-lead prefix n lead (x ++ rest) rest h.0 (f rest h.1)

  -- The index of a form, and the placeholder of the template.
  IsIndex : Text → Type 0
  IsIndex x =
      (rest : Text) → starts_with_one is_digit rest ≡ false → after_index (x ++ rest) ≡ some rest

  dec-IsIndex : (j : ℕ) → IsIndex (dec j)
  unfolding IsIndex
  dec-IsIndex j rest h = after_index-numeral (dec j) rest (dec-IsNumeral j) (dec-some j) h

  template-IsIndex : IsIndex (codes "__prefix__")
  unfolding IsIndex
  template-IsIndex rest h = after_index-template rest

  update_element-element_at :
      (n : ℕ) (a : Attributes) (x : Text)
      → IsAttributes prefix a
      → IsIndex x
      → update_element prefix n (element_at prefix a x) ≡ element_at prefix a (dec n)
  unfolding update_element IsIndex
  update_element-element_at n a x h f = λ i. record {
    label_for = replace_index-attribute n a.label_for x h.0 f i;
    id = replace_index-attribute n a.id x h.1 f i;
    name = replace_index-attribute n a.name x h.2 f i;
  }

  update_elements :
      (n : ℕ) (attrs : List Attributes) (x : Text)
      → All (IsAttributes prefix) attrs
      → IsIndex x
      → map (update_element prefix n) (map (λ a. element_at prefix a x) attrs)
        ≡ map (λ a. element_at prefix a (dec n)) attrs
  update_elements n [] x h f = refl
  update_elements n (a ∷ attrs) x h f =
      ap₂ ◌∷◌ (update_element-element_at n a x h.0 f) (update_elements n attrs x h.1 f)

-- A form whose row is `prefix-x`, with these elements.
abbrev pub row_attributes : Attributes
row_attributes = record { label_for = absent; id = indexed [] []; name = absent }

abbrev pub form_of : Text → List Attributes → Bool → Text → Form
form_of prefix attrs deletable x = record {
  row = element_at prefix row_attributes x;
  elements = map (λ a. element_at prefix a x) attrs;
  deletable = deletable;
}

-- The forms with these elements are a family.
pub form_of-IsFamily :
    (prefix : Text) (attrs : List Attributes) (deletable : Bool)
    → All (IsAttributes prefix) attrs
    → IsFamily prefix (λ n. form_of prefix attrs deletable (dec n))
unfolding update_form
form_of-IsFamily prefix attrs deletable h j n = λ i. record {
  row =
      update_element-element_at prefix n row_attributes (dec j) (tt, (tt, refl), tt)
        (dec-IsIndex prefix j) i;
  elements = update_elements prefix n attrs (dec j) h (dec-IsIndex prefix j) i;
  deletable = deletable;
}

-- The copies of a template with these elements, `__prefix__` for the index, are a family.
pub form_of-IsTemplate :
    (prefix : Text) (attrs : List Attributes) (row : Element)
    → row.label_for ≡ []
    → row.name ≡ []
    → All (IsAttributes prefix) attrs
    → IsTemplate prefix
        (record {
          row = row;
          elements = map (λ a. element_at prefix a (codes "__prefix__")) attrs;
          deletable = false;
        })
        (λ n. form_of prefix attrs true (dec n))
unfolding new_form
form_of-IsTemplate prefix attrs row el en h = record {
  copies = λ n i. record {
    row = record { label_for = el i; id = no_rest n i; name = en i };
    elements = update_elements prefix n attrs (codes "__prefix__") h (template-IsIndex prefix) i;
    deletable = true;
  };
  renumbered = form_of-IsFamily prefix attrs true h;
}
  where
    no_rest : (n : ℕ) → prefix ++ (b'-' ∷ dec n) ≡ prefix ++ (b'-' ∷ (dec n ++ []))
    no_rest n = ap (λ x. prefix ++ (b'-' ∷ x)) (sym (append-nil (dec n)))
