-- ===== src/Popups/Links.antt =====
-- static/admin/js/admin/RelatedObjectLookups.js, the links beside a select.
pub mod Followed
pub mod Examples
use bluetooth_autonomous_car.Prelude.{
  ℕ, Bool, true, false, List, [], ◌∷◌, ◌++◌, Option, none, some, ◌==◌, if◌then◌else◌, map,
}
use bluetooth_autonomous_car.Text.{Text, codes, is_empty}

-- What `replace` puts in: `$$`, `$&`, `` $` `` and `$'` stand for a dollar sign, the match and the text
-- before and after it.
pub expand : Text → Text → Text → Text → Text
expand matched before after [] = []
expand matched before after (a ∷ []) = a ∷ []
expand matched before after (a ∷ b ∷ s) =
    let rest = expand matched before after s in
    let one = expand matched before after (b ∷ s) in
    if a == b'$'
    then (if b == b'$'
        then b'$' ∷ rest
        else if b == b'&'
        then matched ++ rest
        else if b == b'`'
        then before ++ rest
        else if b == 39
        then after ++ rest
        else a ∷ one)
    else a ∷ one

-- Whether a text begins with another, and what follows it then.
pub after_lead : Text → Text → Option Text
after_lead [] s = some s
after_lead (a ∷ t) [] = none
after_lead (a ∷ t) (c ∷ s) = if a == c then after_lead t s else none

-- `replace` with a text for a pattern: its first occurrence. `passed` is the text before.
pub replace_first : Text → Text → Text → Text → Text
unfolding expand after_lead
replace_first t r passed [] = passed
replace_first t r passed (c ∷ s) =
    let later = replace_first t r (passed ++ (c ∷ [])) s in
    elim (after_lead t (c ∷ s)) [
      | none ↦ later
      | some after ↦ passed ++ (expand t passed after r ++ after)
    ]

-- A link beside a select, to view, change or delete what is selected.
pub record RelatedLink : Type 0 where
  pub href : Option Text
  pub href_template : Text

pub update_link : Text → RelatedLink → RelatedLink
unfolding replace_first
update_link value link =
    if is_empty value
    then record link { href = none }
    else record link { href = some (replace_first (codes "__fk__") value [] link.href_template) }

pub update_related_object_links : Text → List RelatedLink → List RelatedLink
unfolding update_link
update_related_object_links value links = map (update_link value) links
