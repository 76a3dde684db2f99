-- ===== src/Actions/Clicked.antt =====
-- The rows after a click on a box, each traced back to the row that stood at its place.
use bluetooth_autonomous_car.Prelude.{
  ℕ, zero, suc, ◌+◌, ◌<◌, ◌≡◌, ◌≢◌, refl, ap, sym, ◌∙◌, arith, Bool, true, false, not, ◌&&◌, ◌||◌,
  List, [], ◌∷◌, Option, none, some, ◌==◌, if◌then◌else◌, length, get_elem?, Bool-cases, inl, inr,
  ◌⊎◌,
}
use bluetooth_autonomous_car.Actions.{
  Row, update_row, clicked_rows, shift_rows, is_checked, flip_checked, highlight, set_range,
  set_row, all_checked,
}
use bluetooth_autonomous_car.Actions.Rows.{
  Matches, Matches-of_at, Matches-at, some_row, length-update_row, all_checked-at, not-all_checked,
}

-- The row that stood at the place, and what became of it.
abbrev From : List Row → ℕ → (Row → Type 0) → Type 0
From rows i P = (r : Row) × (get_elem? rows i ≡ some r) × P r

abbrev KeptOrSet : Bool → Row → Row → Type 0
KeptOrSet v r' r = (r' ≡ r) ⊎ (r' ≡ set_row v r)

some-injective : {a b : Row} → some a ≡ some b → a ≡ b
some-injective e = cc

update_row-back :
    (t : ℕ) (f : Row → Row) (rows : List Row) (i : ℕ) (r' : Row)
    → get_elem? (update_row t f rows) i ≡ some r'
    → From rows i (λ r. ((i ≢ t) × (r' ≡ r)) ⊎ ((i ≡ t) × (r' ≡ f r)))
unfolding update_row
update_row-back t f [] i r' e = cc
update_row-back zero f (r ∷ rows) zero r' e = (r, refl, inr (refl, sym (some-injective e)))
update_row-back zero f (r ∷ rows) (suc i) r' e = (r', e, inl (omega arith, refl))
update_row-back (suc t) f (r ∷ rows) zero r' e =
    (r, refl, inl (omega arith, sym (some-injective e)))
update_row-back (suc t) f (r ∷ rows) (suc i) r' e =
    let (r₀, e₀, c) = update_row-back t f rows i r' e in (r₀, e₀, shift_place c)
  where
    shift_place :
        {r₀ : Row}
        → (((i ≢ t) × (r' ≡ r₀)) ⊎ ((i ≡ t) × (r' ≡ f r₀)))
        → ((suc i ≢ suc t) × (r' ≡ r₀)) ⊎ ((suc i ≡ suc t) × (r' ≡ f r₀))
    shift_place (inl (ne, q)) = inl (omega arith, q)
    shift_place (inr (eq, q)) = inr (ap suc eq, q)

set_range-back :
    (l t : ℕ) (v : Bool) (k : ℕ) (b : Bool) (rows : List Row) (i : ℕ) (r' : Row)
    → get_elem? (set_range l t v k b rows) i ≡ some r'
    → From rows i (KeptOrSet v r')
unfolding set_range
set_range-back l t v k b [] i r' e = cc
set_range-back l t v k b (r ∷ rows) zero r' e =
    (r, refl, one (if (k == l) || (k == t) then not b else b) (some-injective e))
  where
    one : (within : Bool) → (if within then set_row v r else r) ≡ r' → KeptOrSet v r' r
    one true q = inr (sym q)
    one false q = inl (sym q)
set_range-back l t v k b (r ∷ rows) (suc i) r' e = set_range-back l t v (k + 1) _ rows i r' e

length-set_range :
    (l t : ℕ) (v : Bool) (k : ℕ) (b : Bool) (rows : List Row)
    → length (set_range l t v k b rows) ≡ length rows
unfolding set_range
length-set_range l t v k b [] = refl
length-set_range l t v k b (r ∷ rows) = ap suc (length-set_range l t v (k + 1) _ rows)

KeptOrSet-twice :
    (v : Bool) (r₂ r₁ r₀ : Row) → KeptOrSet v r₂ r₁ → KeptOrSet v r₁ r₀ → KeptOrSet v r₂ r₀
KeptOrSet-twice v r₂ r₁ r₀ (inl a) (inl b) = inl (a ∙ b)
KeptOrSet-twice v r₂ r₁ r₀ (inl a) (inr b) = inr (a ∙ b)
KeptOrSet-twice v r₂ r₁ r₀ (inr a) c = inr a

shift_rows-back :
    (last : Option ℕ) (t : ℕ) (shift v : Bool) (rows : List Row) (i : ℕ) (r' : Row)
    → get_elem? (shift_rows last t shift v rows) i ≡ some r'
    → From rows i (KeptOrSet v r')
unfolding shift_rows
shift_rows-back none t shift v rows i r' e = (r', e, inl refl)
shift_rows-back (some l) t shift v rows i r' e = elim (Bool-cases (not (l == t) && shift)) [
  | inl ranged ↦
      let (r₁, e₁, c₁) =
        set_range-back l t v 0 false (update_row l (set_row v) rows) i r' (rw ranged at e) in
      let (r₀, e₀, c₀) = update_row-back l (set_row v) rows i r₁ e₁ in
      (r₀, e₀, KeptOrSet-twice v r' r₁ r₀ c₁ (forget c₀))
  | inr plain ↦ (r', rw plain at e, inl refl)
]
  where
    forget :
        {r₁ r₀ : Row}
        → (((i ≢ l) × (r₁ ≡ r₀)) ⊎ ((i ≡ l) × (r₁ ≡ set_row v r₀)))
        → KeptOrSet v r₁ r₀
    forget (inl (ne, q)) = inl q
    forget (inr (eq, q)) = inr q

length-shift_rows :
    (last : Option ℕ) (t : ℕ) (shift v : Bool) (rows : List Row)
    → length (shift_rows last t shift v rows) ≡ length rows
unfolding shift_rows
length-shift_rows none t shift v rows = refl
length-shift_rows (some l) t shift v rows = elim (Bool-cases (not (l == t) && shift)) [
  | inl ranged ↦ rw ranged (length-set_range l t v 0 false _ ∙ length-update_row l (set_row v) rows)
  | inr plain ↦ rw plain refl
]

pub length-clicked_rows :
    (last : Option ℕ) (t : ℕ) (shift : Bool) (rows : List Row)
    → length (clicked_rows last t shift rows) ≡ length rows
unfolding clicked_rows
length-clicked_rows last t shift rows =
    length-update_row t _ _
    ∙ length-shift_rows last t shift _ _
    ∙ length-update_row t flip_checked rows

is_checked_of : (r : Row) → is_checked (some r) ≡ r.checked
unfolding is_checked
is_checked_of r = refl

module _ (last : Option ℕ) (t : ℕ) (shift : Bool) (rows : List Row) where
  abbrev clicked : List Row
  clicked = update_row t flip_checked rows

  abbrev new_state : Bool
  new_state = is_checked (get_elem? clicked t)

  -- The three rows behind a row of the result.
  abbrev Traced : ℕ → Row → Row → Row → Row → Type 0
  Traced i r' r₂ r₁ r₀ =
      (((i ≢ t) × (r' ≡ r₂)) ⊎ ((i ≡ t) × (r' ≡ highlight new_state r₂)))
      × KeptOrSet new_state r₂ r₁
      × (((i ≢ t) × (r₁ ≡ r₀)) ⊎ ((i ≡ t) × (r₁ ≡ flip_checked r₀)))
      × (i ≡ t → new_state ≡ r₁.checked)

  traced :
      (i : ℕ) (r' : Row)
      → get_elem? (clicked_rows last t shift rows) i ≡ some r'
      → (r₂ : Row) × (r₁ : Row) × (r₀ : Row) × (get_elem? rows i ≡ some r₀) × Traced i r' r₂ r₁ r₀
  unfolding clicked_rows
  traced i r' e =
      let (r₂, e₂, c₂) =
        update_row-back t (highlight new_state) (shift_rows last t shift new_state clicked) i r'
          e in
      let (r₁, e₁, c₁) = shift_rows-back last t shift new_state clicked i r₂ e₂ in
      let (r₀, e₀, c₀) = update_row-back t flip_checked rows i r₁ e₁ in
      (
        r₂,
        r₁,
        r₀,
        e₀,
        (
          c₂,
          c₁,
          c₀,
          λ q. ap (λ j. is_checked (get_elem? clicked j)) (sym q) ∙ is_checked-some r₁ e₁,
        ),
      )
    where
      is_checked-some : (r : Row) {x : Option Row} → x ≡ some r → is_checked x ≡ r.checked
      is_checked-some r q = rw q (is_checked_of r)

  Traced-matches :
      (i : ℕ) (r' r₂ r₁ r₀ : Row)
      → Traced i r' r₂ r₁ r₀
      → r₀.highlighted ≡ r₀.checked
      → r'.highlighted ≡ r'.checked
  Traced-matches i r' r₂ r₁ r₀ (inr (at, q), inl k, c, h) m = rw (q, k) (h at)
  Traced-matches i r' r₂ r₁ r₀ (inr (at, q), inr k, c, h) m = rw (q, k) refl
  Traced-matches i r' r₂ r₁ r₀ (inl (ne, q), inr k, c, h) m = rw (q, k) refl
  Traced-matches i r' r₂ r₁ r₀ (inl (ne, q), inl k, inl (ne', c), h) m = rw (q, k, c) m
  Traced-matches i r' r₂ r₁ r₀ (inl (ne, q), inl k, inr (at, c), h) m = absurd (ne at)

  Traced-flipped : (r' r₂ r₁ r₀ : Row) → Traced t r' r₂ r₁ r₀ → r'.checked ≡ not r₀.checked
  Traced-flipped r' r₂ r₁ r₀ (inl (ne, q), k, c, h) = absurd (ne refl)
  Traced-flipped r' r₂ r₁ r₀ (q, k, inl (ne, c), h) = absurd (ne refl)
  Traced-flipped r' r₂ r₁ r₀ (inr (at, q), inl k, inr (at', c), h) = rw (q, k, c) refl
  Traced-flipped r' r₂ r₁ r₀ (inr (at, q), inr k, inr (at', c), h) = rw (q, k, h refl, c) refl

  pub Matches-clicked_rows : Matches rows → Matches (clicked_rows last t shift rows)
  Matches-clicked_rows m = Matches-of_at _ (λ i r' e.
      let (r₂, r₁, r₀, e₀, c) = traced i r' e in
      Traced-matches i r' r₂ r₁ r₀ c (Matches-at rows i r₀ m e₀))

  -- Where all boxes were checked, the clicked one no longer is.
  pub all_checked-clicked_rows :
      t < length rows
      → all_checked rows ≡ true
      → all_checked (clicked_rows last t shift rows) ≡ false
  all_checked-clicked_rows inside all =
      let (r', e) =
        some_row (clicked_rows last t shift rows) t
          (omega (arith, length-clicked_rows last t shift rows)) in
      let (r₂, r₁, r₀, e₀, c) = traced t r' e in
      not-all_checked _ t r' e
        (Traced-flipped r' r₂ r₁ r₀ c ∙ ap not (all_checked-at rows t r₀ all e₀))
