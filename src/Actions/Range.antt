-- ===== src/Actions/Range.antt =====
-- A click with the shift key sets every box between the box clicked before and this one.
use bluetooth_autonomous_car.Prelude.{
  ℕ, zero, suc, ◌+◌, ◌≤◌, ◌<◌, ◌≡◌, ◌≢◌, refl, ap, sym, ◌∙◌, arith, Bool, true, false, not, ◌&&◌,
  ◌||◌, List, [], ◌∷◌, some, ◌==◌, ltb, leb, if◌then◌else◌, get_elem?, Bool-cases, inl, inr, dec_lt,
  ℕ_discrete,
}
use bluetooth_autonomous_car.Text.{Text}
use bluetooth_autonomous_car.Actions.{
  Row, State, all_checked, update_counter, update_row, set_row, set_range, shift_rows, is_checked,
  flip_checked, highlight, clicked_rows, box_click, show_question, clear_across,
}
use bluetooth_autonomous_car.Actions.Rows.{get_elem?-update_row, get_elem?-update_row_ne}

-- Whether the loop is within the range after the place `k`, and before it.
abbrev after_at : ℕ → ℕ → ℕ → Bool
after_at lo hi k = leb lo k && ltb k hi

abbrev before_at : ℕ → ℕ → ℕ → Bool
before_at lo hi k = ltb lo k && leb k hi

ne_eq : (l t : ℕ) → l ≢ t → (l == t) ≡ false
ne_eq l t h = ground arith

crossing :
    (lo hi k : ℕ) (ends : Bool)
    → lo < hi
    → ends ≡ ((k == lo) || (k == hi))
    → (if ends then not (before_at lo hi k) else before_at lo hi k) ≡ after_at lo hi k
crossing lo hi k ends h e = ground arith

after_before : (lo hi k : ℕ) → after_at lo hi k ≡ before_at lo hi (k + 1)
after_before lo hi k = ground arith

start_outside : (lo hi : ℕ) → false ≡ before_at lo hi 0
start_outside lo hi = ground arith

-- The box that is clicked, and the box clicked before.
set_at_t :
    (within : Bool) (rt r : Row) (v after : Bool)
    → v ≡ not rt.checked
    → within ≡ true
    → highlight v (if after then set_row v (flip_checked rt) else flip_checked rt)
      ≡ (if within then set_row v r else r)
set_at_t within rt r v true ev e = rw e refl
set_at_t within rt r v false ev e = rw e (λ i. record { checked = sym ev i; highlighted = v })

set_at_l :
    (within : Bool) (r : Row) (v after : Bool)
    → within ≡ true
    → (if after then set_row v (set_row v r) else set_row v r) ≡ (if within then set_row v r else r)
set_at_l within r v true e = rw e refl
set_at_l within r v false e = rw e refl

module _ (l t : ℕ) (v : Bool) (lo hi : ℕ) (order : lo < hi)
    (ends : (j : ℕ) → ((j == l) || (j == t)) ≡ ((j == lo) || (j == hi))) where
  get_elem?-set_range :
      (k : ℕ) (b : Bool) (rows : List Row)
      → b ≡ before_at lo hi k
      → (i : ℕ) (r : Row) → get_elem? rows i ≡ some r
      → get_elem? (set_range l t v k b rows) i
        ≡ some (if after_at lo hi (k + i) then set_row v r else r)
  unfolding set_range
  get_elem?-set_range k b [] eb i r e = cc
  get_elem?-set_range k b (r' ∷ rows) eb zero r e =
      rw (eb, crossing lo hi k ((k == l) || (k == t)) order (ends k), at_k)
        (ap (λ x. some (if after_at lo hi k then set_row v x else x)) same)
    where
      at_k : k + 0 ≡ k
      at_k = omega arith

      same : r' ≡ r
      same = cc e
  get_elem?-set_range k b (r' ∷ rows) eb (suc i) r e =
      get_elem?-set_range (k + 1) _ rows
        (rw eb (crossing lo hi k _ order (ends k) ∙ after_before lo hi k)) i r e
      ∙ ap (λ n. some (if after_at lo hi n then set_row v r else r)) next
    where
      next : k + 1 + i ≡ k + suc i
      next = omega arith

  module _ (low_l : lo ≤ l) (high_l : l ≤ hi) (low_t : lo ≤ t) (high_t : t ≤ hi)
      (apart : l ≢ t) where
    range_at :
        (rows : List Row) (rt : Row) (j : ℕ) (r : Row)
        → v ≡ not rt.checked
        → get_elem? rows t ≡ some rt
        → get_elem? rows j ≡ some r
        → get_elem?
            (update_row t
              (highlight v)
              (set_range l t v 0 false (update_row l (set_row v) (update_row t flip_checked rows))))
            j
          ≡ some (if leb lo j && leb j hi then set_row v r else r)
    range_at rows rt j r ev et ej = elim (ℕ_discrete j t) [
      | yes at_t ↦
          let r₀ = get_elem?-update_row t flip_checked rows rt et in
          let r₁ = get_elem?-update_row_ne l t (set_row v) _ (λ e. apart (sym e)) ∙ r₀ in
          let r₂ = get_elem?-set_range 0 false _ (start_outside lo hi) t _ r₁ in
          ap (get_elem? _) at_t
          ∙ get_elem?-update_row t (highlight v) _ _ r₂
          ∙ ap some
              (set_at_t (leb lo j && leb j hi) rt r v (after_at lo hi (0 + t)) ev (ground arith))
      | no not_t ↦ elim (ℕ_discrete j l) [
        | yes at_l ↦
            let r₀ = get_elem?-update_row_ne t j flip_checked rows not_t ∙ ej in
            let r₁ =
              ap (get_elem? _) at_l
              ∙ get_elem?-update_row l (set_row v) _ r (ap (get_elem? _) (sym at_l) ∙ r₀) in
            let r₂ = get_elem?-set_range 0 false _ (start_outside lo hi) j _ r₁ in
            get_elem?-update_row_ne t j (highlight v) _ not_t
            ∙ r₂
            ∙ ap some (set_at_l (leb lo j && leb j hi) r v (after_at lo hi (0 + j)) (ground arith))
        | no not_l ↦
            let r₀ = get_elem?-update_row_ne t j flip_checked rows not_t ∙ ej in
            let r₁ = get_elem?-update_row_ne l j (set_row v) _ not_l ∙ r₀ in
            let r₂ = get_elem?-set_range 0 false _ (start_outside lo hi) j _ r₁ in
            get_elem?-update_row_ne t j (highlight v) _ not_t
            ∙ r₂
            ∙ ap (λ b. some (if b then set_row v r else r)) (inside j not_t not_l)
      ]
    ]
      where
        inside : (j : ℕ) → j ≢ t → j ≢ l → after_at lo hi (0 + j) ≡ (leb lo j && leb j hi)
        inside j not_t not_l = ground (arith, ends hi)

pub rows-update_counter :
    (label_of : ℕ → Text) (s : State) → (update_counter label_of s).rows ≡ s.rows
unfolding update_counter show_question clear_across
rows-update_counter label_of s = elim (Bool-cases (all_checked s.rows)) [
  | inl all ↦ rw all refl
  | inr part ↦ rw part refl
]

pub rows-box_click :
    (label_of : ℕ → Text) (s : State) (t : ℕ) (shift : Bool)
    → (box_click label_of t shift s).rows ≡ clicked_rows s.last_checked t shift s.rows
unfolding box_click
rows-box_click label_of s t shift =
    rows-update_counter label_of
      (record s { rows = clicked_rows s.last_checked t shift s.rows; last_checked = some t })

clicked_rows-range :
    (rows : List Row) (l t : ℕ) (rt : Row) (j : ℕ) (r : Row)
    → l ≢ t
    → get_elem? rows t ≡ some rt
    → get_elem? rows j ≡ some r
    → get_elem? (clicked_rows (some l) t true rows) j
      ≡ some (if leb l j && leb j t || leb t j && leb j l then set_row (not rt.checked) r else r)
unfolding clicked_rows shift_rows is_checked
clicked_rows-range rows l t rt j r apart et ej =
    rw (ne_eq l t apart, get_elem?-update_row t flip_checked rows rt et)
      (elim (dec_lt l t) [
        | yes h ↦
            range_at l t (not rt.checked) l t h (λ k. refl) (omega arith) (omega arith)
              (omega arith) (omega arith) apart rows rt j r refl et ej
            ∙ ap (λ b. some (if b then set_row (not rt.checked) r else r)) (ground arith)
        | no h ↦
            range_at l t (not rt.checked) t l (omega arith) (λ k. ground arith) (omega arith)
              (omega arith) (omega arith) (omega arith) apart rows rt j r refl et ej
            ∙ ap (λ b. some (if b then set_row (not rt.checked) r else r)) (ground arith)
      ])

-- After a click with the shift key on the box `t`, where another box `l` was clicked before, every
-- box from the one to the other, both included, has the new state of `t` and its row is highlighted
-- accordingly, and every other row is as it was.
pub box_click-range :
    (label_of : ℕ → Text) (s : State) (l t : ℕ) (rt : Row) (j : ℕ) (r : Row)
    → s.last_checked ≡ some l
    → l ≢ t
    → get_elem? s.rows t ≡ some rt
    → get_elem? s.rows j ≡ some r
    → get_elem? (box_click label_of t true s).rows j
      ≡ some (if leb l j && leb j t || leb t j && leb j l then set_row (not rt.checked) r else r)
box_click-range label_of s l t rt j r last apart et ej =
    ap (λ rows. get_elem? rows j) (rows-box_click label_of s t true)
    ∙ ap (λ x. get_elem? (clicked_rows x t true s.rows) j) last
    ∙ clicked_rows-range s.rows l t rt j r apart et ej
