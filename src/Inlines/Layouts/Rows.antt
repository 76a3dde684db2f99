-- ===== src/Inlines/Layouts/Rows.antt =====
-- The classes of the rows of a tabular formset.
use bluetooth_autonomous_car.Prelude.{
  ℕ, zero, suc, ◌≡◌, refl, sym, subst, ap, ◌∙◌, Bool, true, false, not, List, [], ◌∷◌, some,
  get_elem?, if◌then◌else◌, Bool-cases, inl, inr,
}
use bluetooth_autonomous_car.Inlines.Layouts.{RowClasses, alternating_rows}
use mathlib.Core.Option.{some_inj}

-- Whether the rows before the `i`-th that have not the class `add-row` are even in number.
abbrev pub even_before : ℕ → List RowClasses → Bool
even_before zero rows = true
even_before (suc i) [] = true
even_before (suc i) (r ∷ rows) = if r.add_row then even_before i rows else not (even_before i rows)

turned : Bool → Bool → Bool
turned even b = if b then even else not even

turned-not : (even b : Bool) → turned (not even) b ≡ turned even (not b)
unfolding turned
turned-not true true = refl
turned-not true false = refl
turned-not false true = refl
turned-not false false = refl

-- The `i`-th row after the set-up of the classes, from an even or an odd place.
get_elem?-alternating_rows :
    (even : Bool) (rows : List RowClasses) (i : ℕ) (r : RowClasses)
    → get_elem? rows i ≡ some r
    → r.add_row ≡ false
    → get_elem? (alternating_rows even rows) i
      ≡ some (record r {
        row1 = turned even (even_before i rows);
        row2 = not (turned even (even_before i rows));
      })
unfolding alternating_rows turned
get_elem?-alternating_rows even [] i r there plain = cc
get_elem?-alternating_rows even (q ∷ rows) zero r there plain =
    subst
      (λ p.
        get_elem? (alternating_rows even (p ∷ rows)) 0
        ≡ some (record r { row1 = even; row2 = not even }))
      (sym (some_inj.0 there)) (rw plain refl)
get_elem?-alternating_rows even (q ∷ rows) (suc i) r there plain = elim (Bool-cases q.add_row) [
  | inl skipped ↦ rw skipped (get_elem?-alternating_rows even rows i r there plain)
  | inr counted ↦ rw counted (
      get_elem?-alternating_rows (not even) rows i r there plain
      ∙ ap (λ b. some (record r { row1 = b; row2 = not b })) (turned-not even (even_before i rows)))
]

-- Among the rows that have not the class `add-row`, the first, the third and so on get the class
-- `row1` and not `row2`, and the others get `row2` and not `row1`.
pub alternating_rows_lem :
    (rows : List RowClasses) (i : ℕ) (r : RowClasses)
    → get_elem? rows i ≡ some r
    → r.add_row ≡ false
    → get_elem? (alternating_rows true rows) i
      ≡ some (record r { row1 = even_before i rows; row2 = not (even_before i rows) })
unfolding turned
alternating_rows_lem rows i r there plain =
    get_elem?-alternating_rows true rows i r there plain
    ∙ ap (λ b. some (record r { row1 = b; row2 = not b })) (same (even_before i rows))
  where
    same : (b : Bool) → turned true b ≡ b
    same true = refl
    same false = refl
