-- ===== src/Popups/Links/Followed.antt =====
-- Where the links beside a select lead after its value has changed.
use mathlib.Core.List.{nil≢cons, head-eq_of_cons-eq, tail-eq_of_cons-eq}
use bluetooth_autonomous_car.Prelude.{
  ℕ, ◌≡◌, ◌≤◌, length, length-append, arith, Bool-cases, inl, inr, refl, ap, ap₂, sym, ◌∙◌, Bool,
  true, false, ◌||◌, List, [], ◌∷◌, ◌++◌, Option, none, some, ◌==◌, All, map, append_assoc,
  if◌then◌else◌,
}
use bluetooth_autonomous_car.Text.{Text, codes, is_empty, includes, starts_with}
use bluetooth_autonomous_car.Popups.Links.{
  expand, after_lead, replace_first, RelatedLink, update_link, update_related_object_links,
}

abbrev pub placeholder : Text
placeholder = codes "__fk__"

-- The placeholder stands after this text, and not before.
abbrev pub IsFirst : Text → Type 0
IsFirst before = includes placeholder (before ++ codes "__fk_") ≡ false

-- The address that a link has for a value; none has an address where nothing is selected.
abbrev pub address : Text → Text → Text → Option Text
address before after value = if is_empty value then none else some (before ++ (value ++ after))

expand_plain :
    (matched before after s : Text)
    → All (λ c. (c == b'$') ≡ false) s
    → expand matched before after s ≡ s
unfolding expand
expand_plain matched before after [] h = refl
expand_plain matched before after (a ∷ []) h = refl
expand_plain matched before after (a ∷ b ∷ s) h =
    rw h.0 (ap (a ∷◌) (expand_plain matched before after (b ∷ s) h.1))

after_lead-none :
    (t s rest : Text)
    → length t ≤ length s
    → starts_with t s ≡ false
    → after_lead t (s ++ rest) ≡ none
unfolding starts_with after_lead
after_lead-none [] s rest long h = cc
after_lead-none (a ∷ t) [] rest long h = absurd (omega arith)
after_lead-none (a ∷ t) (c ∷ s) rest long h = elim (Bool-cases (a == c)) [
  | inl same ↦
      let h' : starts_with t s ≡ false = cc in rw same (after_lead-none t s rest (omega arith) h')
  | inr other ↦ rw other refl
]

includes-parts :
    (t : Text) (c : ℕ) (s : Text)
    → includes t (c ∷ s) ≡ false
    → (starts_with t (c ∷ s) ≡ false) × (includes t s ≡ false)
unfolding includes
includes-parts t c s h = both_false (starts_with t (c ∷ s)) (includes t s) h
  where
    both_false : (x y : Bool) → (x || y) ≡ false → (x ≡ false) × (y ≡ false)
    both_false false y h = (refl, h)
    both_false true y h = cc

-- Where the pattern does not begin, the search goes on.
replace_first-later :
    (t r passed : Text) (c : ℕ) (s : Text)
    → after_lead t (c ∷ s) ≡ none
    → replace_first t r passed (c ∷ s) ≡ replace_first t r (passed ++ (c ∷ [])) s
unfolding replace_first
replace_first-later t r passed c s h = rw (replace_first, h) refl

replace_first_lem :
    (r after before passed : Text)
    → All (λ c. (c == b'$') ≡ false) r
    → IsFirst before
    → replace_first placeholder r passed (before ++ (placeholder ++ after))
      ≡ passed ++ (before ++ (r ++ after))
unfolding replace_first after_lead
replace_first_lem r after [] passed plain h =
    ap (λ s. passed ++ (s ++ after)) (expand_plain placeholder passed after r plain)
replace_first_lem r after (c ∷ before) passed plain h =
    let parts = includes-parts placeholder c (before ++ codes "__fk_") h in
    let read = (c ∷ before) ++ codes "__fk_" in
    let joined = append_assoc (c ∷ before) (codes "__fk_") (b'_' ∷ after) in
    let long : 6 ≤ length read = omega (arith, length-append (c ∷ before) (codes "__fk_")) in
    replace_first-later placeholder r passed c (before ++ (placeholder ++ after)) (
      ap (after_lead placeholder) (sym joined)
      ∙ after_lead-none placeholder read (b'_' ∷ after) long parts.0)
    ∙ replace_first_lem r after before (passed ++ (c ∷ [])) plain parts.1
    ∙ append_assoc passed (c ∷ []) (before ++ (r ++ after))

-- The links with their addresses for a value.
abbrev pub Leads : Text → List (Text × Text) → List RelatedLink → Type 0
Leads value parts links = map RelatedLink.href links ≡ map (λ p. address p.0 p.1 value) parts

abbrev pub template_of : Text × Text → Text
template_of p = p.0 ++ (placeholder ++ p.1)

pub change_values : List Text → List RelatedLink → List RelatedLink
change_values [] links = links
change_values (value ∷ values) links =
    change_values values (update_related_object_links value links)

change_values-append :
    (values : List Text) (value : Text) (links : List RelatedLink)
    → change_values (values ++ (value ∷ [])) links
      ≡ update_related_object_links value (change_values values links)
unfolding change_values
change_values-append [] value links = refl
change_values-append (v ∷ values) value links =
    change_values-append values value (update_related_object_links v links)

templates_kept :
    (value : Text) (links : List RelatedLink)
    → map RelatedLink.href_template (update_related_object_links value links)
      ≡ map RelatedLink.href_template links
unfolding update_related_object_links update_link
templates_kept value [] = refl
templates_kept [] (link ∷ links) = ap (link.href_template ∷◌) (templates_kept [] links)
templates_kept (c ∷ value) (link ∷ links) =
    ap (link.href_template ∷◌) (templates_kept (c ∷ value) links)

changed_templates :
    (values : List Text) (links : List RelatedLink)
    → map RelatedLink.href_template (change_values values links)
      ≡ map RelatedLink.href_template links
unfolding change_values
changed_templates [] links = refl
changed_templates (v ∷ values) links =
    changed_templates values (update_related_object_links v links) ∙ templates_kept v links

update_link_lem :
    (value before after : Text) (link : RelatedLink)
    → All (λ c. (c == b'$') ≡ false) value
    → IsFirst before
    → link.href_template ≡ before ++ (placeholder ++ after)
    → RelatedLink.href (update_link value link) ≡ address before after value
unfolding update_link
update_link_lem [] before after link plain first e = refl
update_link_lem (c ∷ value) before after link plain first e = ap some (
    ap (replace_first placeholder (c ∷ value) []) e
    ∙ replace_first_lem (c ∷ value) after before [] plain first)

update_links_lem :
    (value : Text) (parts : List (Text × Text)) (links : List RelatedLink)
    → All (λ c. (c == b'$') ≡ false) value
    → All (λ p. IsFirst p.0) parts
    → map RelatedLink.href_template links ≡ map template_of parts
    → Leads value parts (update_related_object_links value links)
unfolding update_related_object_links
update_links_lem value [] [] plain first e = refl
update_links_lem value [] (link ∷ links) plain first e = absurd (nil≢cons (sym e))
update_links_lem value (p ∷ parts) [] plain first e = absurd (nil≢cons e)
update_links_lem value (p ∷ parts) (link ∷ links) plain first e =
    ap₂ ◌∷◌ (update_link_lem value p.0 p.1 link plain first.0 (head-eq_of_cons-eq e))
      (update_links_lem value parts links plain first.1 (tail-eq_of_cons-eq e))

-- After any changes of a select's value, each link beside it leads to the address of its template with
-- the last value in the place of the first `__fk__`, and has no address if that value is empty. (The value has
-- no dollar sign, which `replace` takes for a pattern; the text after the placeholder is any.)
pub change_values_lem :
    (values : List Text) (value : Text) (parts : List (Text × Text)) (links : List RelatedLink)
    → All (λ c. (c == b'$') ≡ false) value
    → All (λ p. IsFirst p.0) parts
    → map RelatedLink.href_template links ≡ map template_of parts
    → Leads value parts (change_values (values ++ (value ∷ [])) links)
change_values_lem values value parts links plain first e =
    rw (change_values-append values value links) (
      update_links_lem value parts (change_values values links) plain first
        (changed_templates values links ∙ e))
