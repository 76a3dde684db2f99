-- ===== src/Actions/Ready.antt =====
-- The set-up of the page: from the server's page, and from one that the browser restored.
use mathlib.Core.List.{nil≢cons}
use bluetooth_autonomous_car.Prelude.{
  ℕ, ◌+◌, ◌≤◌, ◌≡◌, ◌⊎◌, refl, ap, sym, ◌∙◌, arith, Bool, true, false, List, [], ◌∷◌, ◌++◌,
  if◌then◌else◌, length, map, All, Bool-cases, inl, inr, append_assoc, ap₂, subst, none, length-map,
  length-append,
}
use bluetooth_autonomous_car.Text.{Text, codes}
use bluetooth_autonomous_car.Actions.{
  Row, State, all_checked, update_counter, show_question, clear_across, reset, update_row,
  flip_highlighted, visit, visit_all, checked_from, ready,
}
use bluetooth_autonomous_car.Actions.Rows.{Matches, not-all_checked}
use bluetooth_autonomous_car.Actions.Consistent.{IsConsistent, IsPart, IsWhole, Mode}
use bluetooth_autonomous_car.Actions.Visits.{visit_lem, flip_all, rows-visit_all}

abbrev settle : Row → Row
settle r = if r.checked then flip_highlighted r else r

update_row-middle :
    (f : Row → Row) (front : List Row) (r : Row) (rest : List Row)
    → update_row (length front) f (front ++ (r ∷ rest)) ≡ front ++ (f r ∷ rest)
unfolding update_row
update_row-middle f [] r rest = refl
update_row-middle f (x ∷ front) r rest = ap (x ∷◌) (update_row-middle f front r rest)

length-snoc : (front : List Row) (r : Row) → length (front ++ (r ∷ [])) ≡ length front + 1
length-snoc front r = length-append front (r ∷ [])

next_place :
    (front rest : List Row) (x : Row)
    → (flip_all (checked_from (length (front ++ (x ∷ []))) rest) ((front ++ (x ∷ [])) ++ rest)
        ≡ (front ++ (x ∷ [])) ++ map settle rest)
    → flip_all (checked_from (length front + 1) rest) (front ++ (x ∷ rest))
      ≡ front ++ (x ∷ map settle rest)
next_place front rest x h =
    ap (λ n. flip_all (checked_from n rest) (front ++ (x ∷ rest))) (sym (length-snoc front x))
    ∙ ap (flip_all (checked_from (length (front ++ (x ∷ []))) rest))
        (sym (append_assoc front (x ∷ []) rest))
    ∙ h
    ∙ append_assoc front (x ∷ []) (map settle rest)

abbrev at_head : List Row → Row → List Row → Bool → List Row
at_head front r rest b =
    flip_all
      (if b
        then length front ∷ checked_from (length front + 1) rest
        else checked_from (length front + 1) rest)
      (front ++ (r ∷ rest))

flip_all-checked_from :
    (front rest : List Row)
    → flip_all (checked_from (length front) rest) (front ++ rest) ≡ front ++ map settle rest
unfolding checked_from
flip_all-checked_from front [] = refl
flip_all-checked_from front (r ∷ rest) = elim (Bool-cases r.checked) [
  | inl on ↦
      ap (at_head front r rest) on
      ∙ ap (flip_all (checked_from (length front + 1) rest))
          (update_row-middle flip_highlighted front r rest)
      ∙ next_place front rest (flip_highlighted r)
          (flip_all-checked_from (front ++ (flip_highlighted r ∷ [])) rest)
      ∙ ap (λ b. front ++ ((if b then flip_highlighted r else r) ∷ map settle rest)) (sym on)
  | inr off ↦
      ap (at_head front r rest) off
      ∙ next_place front rest r (flip_all-checked_from (front ++ (r ∷ [])) rest)
      ∙ ap (λ b. front ++ ((if b then flip_highlighted r else r) ∷ map settle rest)) (sym off)
]

Matches-settle :
    (rows : List Row) → All (λ r. r.highlighted ≡ false) rows → Matches (map settle rows)
Matches-settle [] h = tt
Matches-settle (r ∷ rows) h = (one (r.checked) refl, Matches-settle rows h.1)
  where
    one : (b : Bool) → r.checked ≡ b → (settle r).highlighted ≡ (settle r).checked
    one true e = rw (e, h.0) refl
    one false e = rw e h.0

-- What each visit leaves to show.
record IsSettled (s : State) : Type 0 where
  toggle_is : s.toggle ≡ all_checked s.rows
  mode : IsPart s ⊎ IsWhole s
  across_is : s.across ≡ codes "0"

update_counter-IsSettled :
    (label_of : ℕ → Text) (s : State) → s.across ≡ codes "0" → IsSettled (update_counter label_of s)
unfolding update_counter show_question clear_across reset
update_counter-IsSettled label_of s h = elim (Bool-cases (all_checked s.rows)) [
  | inl all ↦ rw all (record {
    toggle_is = sym all;
    mode = inr (record {
      rows_whole = all;
      across_whole = h;
      clears_whole = refl;
      questions_whole = refl;
    });
    across_is = h;
  })
  | inr part ↦ rw part (record {
    toggle_is = sym part;
    mode = inl (record {
      rows_part = part;
      across_part = refl;
      clears_part = refl;
      questions_part = refl;
    });
    across_is = refl;
  })
]

visit_all-IsSettled :
    (label_of : ℕ → Text) (is : List ℕ) (s : State)
    → s.across ≡ codes "0"
    → (is ≡ [] → IsSettled s)
    → IsSettled (visit_all label_of is s)
unfolding visit_all
visit_all-IsSettled label_of [] s h start = start refl
visit_all-IsSettled label_of (i ∷ is) s h start =
    let counted = record s { rows = update_row i flip_highlighted s.rows } in
    let settled =
      subst IsSettled (sym (visit_lem label_of i s))
        (update_counter-IsSettled label_of counted h) in
    visit_all-IsSettled label_of is (visit label_of i s) settled.across_is (λ e. settled)

checked_from-none :
    (i : ℕ) (rows : List Row)
    → 1 ≤ length rows
    → checked_from i rows ≡ []
    → all_checked rows ≡ false
unfolding checked_from
checked_from-none i [] n e = absurd (omega arith)
checked_from-none i (r ∷ rows) n e = elim (Bool-cases r.checked) [
  | inl on ↦ absurd (nil≢cons (sym (rw on at e)))
  | inr off ↦ not-all_checked (r ∷ rows) 0 r refl off
]

-- The page as the server sends it: no row has the class, the value is 0, the box that toggles all is
-- not checked and no link is visible.
pub record IsServed (s : State) : Type 0 where
  pub some_box : 1 ≤ length s.rows
  pub plain : All (λ r. r.highlighted ≡ false) s.rows
  pub not_toggled : s.toggle ≡ false
  pub one_page : s.across ≡ codes "0"
  pub no_clears : s.clears ≡ false
  pub no_questions : s.questions ≡ false

abbrev finished : State → State
finished s = record s { toggle_shown = true; last_checked = none }

Mode-after : (s : State) → IsPart s ⊎ IsWhole s → Mode (finished s)
Mode-after s (inl p) = inl (record {
  rows_part = p.rows_part;
  across_part = p.across_part;
  clears_part = p.clears_part;
  questions_part = p.questions_part;
})
Mode-after s (inr w) = inr (
    inl (record {
      rows_whole = w.rows_whole;
      across_whole = w.across_whole;
      clears_whole = w.clears_whole;
      questions_whole = w.questions_whole;
    }))

checked-settle :
    (rows : List Row) → map (λ r. r.checked) (map settle rows) ≡ map (λ r. r.checked) rows
checked-settle [] = refl
checked-settle (r ∷ rows) = ap₂ ◌∷◌ (one r.checked) (checked-settle rows)
  where
    one : (b : Bool) → (if b then flip_highlighted r else r).checked ≡ r.checked
    one true = refl
    one false = refl

-- The set-up of a page that the server sends, with at least one box and any of them checked, leaves a
-- consistent page with the same boxes.
pub ready-IsConsistent :
    (label_of : ℕ → Text) (s : State)
    → IsServed s
    → IsConsistent (ready label_of s)
      × (map (λ r. r.checked) (ready label_of s).rows ≡ map (λ r. r.checked) s.rows)
unfolding ready
ready-IsConsistent label_of s h =
    let shown = record s { counter = true } in
    let settled = visit_all-IsSettled label_of (checked_from 0 s.rows) shown h.one_page (λ e.
      record {
        toggle_is = h.not_toggled ∙ sym (checked_from-none 0 s.rows h.some_box e);
        mode = inl (record {
          rows_part = checked_from-none 0 s.rows h.some_box e;
          across_part = h.one_page;
          clears_part = h.no_clears;
          questions_part = h.no_questions;
        });
        across_is = h.one_page;
      }) in
    let rows_are =
      rows-visit_all label_of (checked_from 0 s.rows) shown ∙ flip_all-checked_from [] s.rows in
    (
      record {
        inhabited = omega (arith, ap length rows_are, length-map settle s.rows, h.some_box);
        matching = subst Matches (sym rows_are) (Matches-settle s.rows h.plain);
        toggle_is = settled.toggle_is;
        mode = Mode-after (visit_all label_of (checked_from 0 s.rows) shown) settled.mode;
      },
      ap (map (λ r. r.checked)) rows_are ∙ checked-settle s.rows,
    )
