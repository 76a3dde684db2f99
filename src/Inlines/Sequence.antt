-- ===== src/Inlines/Sequence.antt =====
-- Through any clicks the forms of a formset are numbered in sequence, and the counts agree.
use bluetooth_autonomous_car.Prelude.{
  ℕ, zero, suc, ◌+◌, ◌<◌, ◌≡◌, refl, ap, ap₂, sym, ◌∙◌, arith, Bool, true, false, ◌&&◌, List, [],
  ◌∷◌, ◌++◌, subst, Option, none, some, if◌then◌else◌, length, get_elem?, All, All-append,
  length-append, Bool-cases, inl, inr,
}
use bluetooth_autonomous_car.Text.{Text}
use bluetooth_autonomous_car.Inlines.{
  Form, Formset, new_form, below_max, add_form, renumber, remove_at, delete_form, is_deletable,
  FormsetEvent, add, delete, formset_event, formset_session,
}
use bluetooth_autonomous_car.Inlines.Families.{
  Family, IsFamily, OfFamilies, numbered, OfFamilies-numbered, OfFamilies-remove_at,
  renumber-numbered, All-remove_at, length-numbered, numbered-append, length-remove_at,
}

-- The template's copies: the copy that is added as the n-th form is the family's.
pub record IsTemplate (prefix : Text) (template : Form) (T : Family) : Type 0 where
  pub copies : (n : ℕ) → new_form prefix template n n ≡ T n
  pub renumbered : IsFamily prefix T

-- The forms are numbered from 0, the counts are theirs, and the button shows while there is room.
pub record IsSequence (prefix : Text) (max : Option ℕ) (s : Formset) : Type 0 where
  pub families : List Family
  pub are_families : All (IsFamily prefix) families
  pub in_order : s.forms ≡ numbered families 0
  pub total : s.total_forms ≡ length s.forms
  pub next : s.next_index ≡ length s.forms
  pub room : s.button ≡ below_max max (length s.forms)

pub length-renumber :
    (prefix : Text) (i : ℕ) (fs : List Form) → length (renumber prefix i fs) ≡ length fs
unfolding renumber
length-renumber prefix i [] = refl
length-renumber prefix i (f ∷ fs) = ap suc (length-renumber prefix (i + 1) fs)

full_after : (max : Option ℕ) (n : ℕ) → below_max max n ≡ false → below_max max (n + 1) ≡ false
unfolding below_max
full_after none n h = h
full_after (some m) n h = ground arith

pub deletable_inside :
    (i : ℕ) (fs : List Form) → is_deletable (get_elem? fs i) ≡ true → i < length fs
unfolding is_deletable
deletable_inside i [] h = cc
deletable_inside zero (f ∷ fs) h = omega arith
deletable_inside (suc i) (f ∷ fs) h = omega (arith, deletable_inside i fs h)

module _ (prefix : Text) (max : Option ℕ) (template : Form) (T : Family)
    (copies : IsTemplate prefix template T) where
  add_form-IsSequence :
      (s : Formset)
      → s.button ≡ true
      → IsSequence prefix max s
      → IsSequence prefix max (add_form prefix max template s)
  unfolding add_form
  add_form-IsSequence s shown v =
      let count = ap length v.in_order ∙ length-numbered v.families 0 in
      record {
        families = v.families ++ (T ∷ []);
        are_families =
            All-append (IsFamily prefix) v.families (T ∷ []) v.are_families (copies.renumbered, tt);
        in_order =
            ap₂ (λ fs f. fs ++ (f ∷ [])) v.in_order
              (ap₂ (new_form prefix template) (v.next ∙ count) (v.total ∙ count)
                ∙ copies.copies (length v.families)
                ∙ ap T (omega arith))
            ∙ numbered-append v.families T 0;
        total = omega (
          arith,
          v.total,
          length-append s.forms (new_form prefix template s.next_index s.total_forms ∷ []),
        );
        next = omega (
          arith,
          v.next,
          length-append s.forms (new_form prefix template s.next_index s.total_forms ∷ []),
        );
        room =
            ap₂ (λ b n. b && below_max max n) shown
              (omega (
                arith,
                v.total,
                length-append s.forms (new_form prefix template s.next_index s.total_forms ∷ []),
              ));
      }

  room_after :
      (n : ℕ) (b : Bool)
      → b ≡ below_max max (n + 1)
      → (if below_max max n then true else b) ≡ below_max max n
  room_after n b h = elim (Bool-cases (below_max max n)) [
    | inl below ↦ rw below refl
    | inr full ↦ rw full (h ∙ full_after max n full)
  ]

  delete_form-IsSequence :
      (i : ℕ) (s : Formset)
      → i < length s.forms
      → IsSequence prefix max s
      → IsSequence prefix max (delete_form prefix max i s)
  unfolding delete_form
  delete_form-IsSequence i s inside v =
      let Fs = remove_at i v.families in
      let order =
        renumber-numbered prefix 0 (remove_at i s.forms) Fs
          (OfFamilies-remove_at i s.forms v.families (
            subst (λ fs. OfFamilies fs v.families) (sym v.in_order)
              (OfFamilies-numbered v.families 0)))
          (All-remove_at (IsFamily prefix) i v.families v.are_families) in
      let kept = length-renumber prefix 0 (remove_at i s.forms) in
      let fewer = length-remove_at i s.forms inside in
      record {
        families = Fs;
        are_families = All-remove_at (IsFamily prefix) i v.families v.are_families;
        in_order = order;
        total = sym kept;
        next = omega (arith, v.next, kept, fewer);
        room =
            room_after (length (remove_at i s.forms)) s.button
              (v.room ∙ ap (below_max max) (sym fewer))
            ∙ ap (below_max max) (sym kept);
      }

  formset_event-IsSequence :
      (e : FormsetEvent) (s : Formset)
      → IsSequence prefix max s
      → IsSequence prefix max (formset_event prefix max template e s)
  unfolding formset_event
  formset_event-IsSequence add s v = elim (Bool-cases s.button) [
    | inl shown ↦
        subst (λ b. IsSequence prefix max (if b then add_form prefix max template s else s))
          (sym shown) (add_form-IsSequence s shown v)
    | inr hidden ↦
        subst (λ b. IsSequence prefix max (if b then add_form prefix max template s else s))
          (sym hidden) v
  ]
  formset_event-IsSequence (delete i) s v = elim (Bool-cases (is_deletable (get_elem? s.forms i))) [
    | inl link ↦
        subst (λ b. IsSequence prefix max (if b then delete_form prefix max i s else s)) (sym link)
          (delete_form-IsSequence i s (deletable_inside i s.forms link) v)
    | inr none' ↦
        subst (λ b. IsSequence prefix max (if b then delete_form prefix max i s else s)) (sym none')
          v
  ]

  -- From forms that are numbered in sequence, with TOTAL_FORMS as many, any clicks on the add button and
  -- the links that delete leave forms numbered from 0 in sequence, TOTAL_FORMS and the next index their
  -- number, and the button visible just while MAX_NUM_FORMS is blank or greater. (Numbering a form anew
  -- replaces its index, and the copies of the template are forms of that kind.)
  pub formset_session-IsSequence :
      (events : List FormsetEvent) (s : Formset)
      → IsSequence prefix max s
      → IsSequence prefix max (formset_session prefix max template events s)
  unfolding formset_session
  formset_session-IsSequence [] s v = v
  formset_session-IsSequence (e ∷ events) s v =
      formset_session-IsSequence events (formset_event prefix max template e s)
        (formset_event-IsSequence e s v)
