-- ===== src/Inlines/Layouts/Counted.antt =====
-- Through any clicks the labels of stacked forms are numbered from 1 in sequence.
use bluetooth_autonomous_car.Prelude.{
  ℕ, ◌+◌, ◌≡◌, sym, ap, ◌∙◌, subst, arith, true, List, [], ◌∷◌, Option, length, length-append, All,
  get_elem?, if◌then◌else◌, Bool-cases, inl, inr,
}
use bluetooth_autonomous_car.Text.{Text}
use bluetooth_autonomous_car.Inlines.{
  Form, Formset, FormsetEvent, add, delete, formset_event, add_form, delete_form, is_deletable,
  remove_at, new_form,
}
use bluetooth_autonomous_car.Inlines.Families.{All-remove_at, length-remove_at}
use bluetooth_autonomous_car.Inlines.Sequence.{length-renumber, deletable_inside}
use bluetooth_autonomous_car.Inlines.Layouts.{
  update_labels, copy_label, Stacked, stacked_event, stacked_session,
}
use bluetooth_autonomous_car.Inlines.Layouts.Labels.{
  Label, IsLabel, labelled, update_labels-labelled, labelled-AreLabels, copied, copied-AllLabels,
  length-copied, copy_label-AreLabels, remove_at-AreLabels,
}

-- There is a label for each form and, after those, the template's; they are numbered from 1.
pub record IsCounted (s : Stacked) : Type 0 where
  pub names : List Label
  pub each : All IsLabel names
  pub texts : s.labels ≡ labelled 0 names
  pub one_more : length names ≡ length s.formset.forms + 1

module _ (prefix : Text) (max : Option ℕ) (template : Form) where
  length_added :
      (s : Formset)
      → s.button ≡ true
      → length (Formset.forms (formset_event prefix max template add s)) ≡ length s.forms + 1
  unfolding formset_event add_form
  length_added s shown =
      rw shown (length-append s.forms (new_form prefix template s.next_index s.total_forms ∷ []))

  length_deleted :
      (i : ℕ) (s : Formset)
      → is_deletable (get_elem? s.forms i) ≡ true
      → length (Formset.forms (formset_event prefix max template (delete i) s)) + 1 ≡ length s.forms
  unfolding formset_event delete_form
  length_deleted i s link = rw link (
      omega (
        arith,
        length-renumber prefix 0 (remove_at i s.forms),
        length-remove_at i s.forms (deletable_inside i s.forms link),
      ))

  stacked_event-IsCounted :
      (e : FormsetEvent) (s : Stacked)
      → IsCounted s
      → IsCounted (stacked_event prefix max template e s)
  unfolding stacked_event
  stacked_event-IsCounted add s v = elim (Bool-cases s.formset.button) [
    | inl shown ↦
        subst (λ b. IsCounted (if b then added else s)) (sym shown)
          (record {
            names = copied v.names;
            each = copied-AllLabels v.names v.each;
            texts =
                ap (λ ts. update_labels 0 (copy_label ts)) v.texts
                ∙ update_labels-labelled (copied v.names) (copy_label (labelled 0 v.names)) 0 (
                    copy_label-AreLabels v.names (labelled 0 v.names)
                      (labelled-AreLabels v.names 0 v.each));
            one_more = omega (
              arith,
              v.one_more,
              length-copied v.names (omega (arith, v.one_more)),
              length_added s.formset shown,
            );
          })
    | inr hidden ↦ subst (λ b. IsCounted (if b then added else s)) (sym hidden) v
  ]
    where
      added : Stacked
      added = record {
        formset = formset_event prefix max template add s.formset;
        labels = update_labels 0 (copy_label s.labels);
      }
  stacked_event-IsCounted (delete i) s v =
      elim (Bool-cases (is_deletable (get_elem? s.formset.forms i))) [
        | inl link ↦
            subst (λ b. IsCounted (if b then deleted else s)) (sym link)
              (record {
                names = remove_at i v.names;
                each = All-remove_at IsLabel i v.names v.each;
                texts =
                    ap (λ ts. update_labels 0 (remove_at i ts)) v.texts
                    ∙ update_labels-labelled (remove_at i v.names)
                        (remove_at i (labelled 0 v.names)) 0
                        (remove_at-AreLabels i v.names (labelled 0 v.names)
                          (labelled-AreLabels v.names 0 v.each));
                one_more = omega (
                  arith,
                  v.one_more,
                  length-remove_at i v.names
                      (omega (arith, v.one_more, deletable_inside i s.formset.forms link)),
                  length_deleted i s.formset link,
                );
              })
        | inr none' ↦ subst (λ b. IsCounted (if b then deleted else s)) (sym none') v
      ]
    where
      deleted : Stacked
      deleted = record {
        formset = formset_event prefix max template (delete i) s.formset;
        labels = update_labels 0 (remove_at i s.labels);
      }

  -- From stacked forms and a template whose labels are numbered from 1, one label each, with no other
  -- `#`, any clicks on the add button and the links that delete leave labels numbered from 1 in
  -- sequence, one for each form and the template's last.
  pub stacked_session-IsCounted :
      (events : List FormsetEvent) (s : Stacked)
      → IsCounted s
      → IsCounted (stacked_session prefix max template events s)
  unfolding stacked_session
  stacked_session-IsCounted [] s v = v
  stacked_session-IsCounted (e ∷ events) s v =
      stacked_session-IsCounted events (stacked_event prefix max template e s)
        (stacked_event-IsCounted e s v)
