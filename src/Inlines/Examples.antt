-- ===== src/Inlines/Examples.antt =====
-- The formset's theorems on an empty formset of prefix "f", at most two forms of one field.
use bluetooth_autonomous_car.Prelude.{refl, true, false, List, [], ◌∷◌, ◌++◌, some}
use bluetooth_autonomous_car.Text.{codes, dec, starts_with}
use bluetooth_autonomous_car.Inlines.{
  Element, Form, start, below_max, FormsetEvent, add, delete, formset_session,
}
use bluetooth_autonomous_car.Inlines.Families.{Family}
use bluetooth_autonomous_car.Inlines.Sequence.{IsTemplate, IsSequence, formset_session-IsSequence}
use bluetooth_autonomous_car.Inlines.Layouts.{Stacked, stacked_session}
use bluetooth_autonomous_car.Inlines.Layouts.Labels.{Label, IsLabel}
use bluetooth_autonomous_car.Inlines.Layouts.Counted.{IsCounted, stacked_session-IsCounted}
use bluetooth_autonomous_car.Inlines.Attributes.{
  Attributes, absent, indexed, element_at, form_of, form_of-IsTemplate,
}

abbrev name_field : Attributes
name_field = record {
  label_for = absent;
  id = indexed (codes "id_") (codes "-n");
  name = indexed [] (codes "-n");
}

abbrev empty_row : Element
empty_row = record { label_for = []; id = codes "f-empty"; name = [] }

abbrev template : Form
template = record {
  row = empty_row;
  elements = element_at (codes "f") name_field (codes "__prefix__") ∷ [];
  deletable = false;
}

abbrev family : Family
family n = form_of (codes "f") (name_field ∷ []) true (dec n)

template-IsTemplate : IsTemplate (codes "f") template family
unfolding starts_with
template-IsTemplate =
    form_of-IsTemplate (codes "f") (name_field ∷ []) empty_row refl refl
      ((tt, ((refl, (refl, (refl, tt))), refl), (tt, refl)), tt)

started : IsSequence (codes "f") (some 2) (start (some 2) [] 0)
unfolding start below_max
started = record {
  families = [];
  are_families = tt;
  in_order = refl;
  total = refl;
  next = refl;
  room = refl;
}

abbrev clicks : List FormsetEvent
clicks = add ∷ add ∷ delete 0 ∷ add ∷ []

formset_session-IsSequence_example :
    IsSequence
      (codes "f")
      (some 2)
      (formset_session (codes "f") (some 2) template clicks (start (some 2) [] 0))
formset_session-IsSequence_example =
    formset_session-IsSequence (codes "f") (some 2) template family template-IsTemplate clicks
      (start (some 2) [] 0) started

abbrev person : Label
person = record { before = codes "Person: "; after = codes " (new)" }

person-IsLabel : IsLabel person
person-IsLabel = record {
  plain_before = (refl, (refl, (refl, (refl, (refl, (refl, (refl, (refl, tt))))))));
  plain_after = (refl, (refl, (refl, (refl, (refl, (refl, tt))))));
  no_digit = refl;
}

abbrev stacked : Stacked
stacked = record {
  formset = start (some 2) [] 0;
  labels = (codes "Person: #" ++ (dec 1 ++ codes " (new)")) ∷ [];
}

stacked-IsCounted : IsCounted stacked
unfolding start
stacked-IsCounted = record {
  names = person ∷ [];
  each = (person-IsLabel, tt);
  texts = refl;
  one_more = refl;
}

stacked_session-IsCounted_example :
    IsCounted (stacked_session (codes "f") (some 2) template clicks stacked)
stacked_session-IsCounted_example =
    stacked_session-IsCounted (codes "f") (some 2) template clicks stacked stacked-IsCounted
