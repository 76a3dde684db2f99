-- ===== src/Text/Split.antt =====
-- `split` on text in which separators are known.
use mathlib.Core.List.{nil≢cons}
use bluetooth_autonomous_car.Prelude.{
  List, ◌≢◌, ap, sym, ◌∙◌, Bool-cases, inl, inr, ℕ, ◌≡◌, refl, true, false, Bool, [], ◌∷◌, ◌++◌,
  All,
}
use bluetooth_autonomous_car.Text.{Text, split, cons_first}

module _ (separates : ℕ → Bool) where
  pub split_one : (s : Text) → All (λ c. separates c ≡ false) s → split separates s ≡ s ∷ []
  unfolding split
  split_one [] h = refl
  split_one (c ∷ s) h = rw (h.0, split_one s h.1)

  pub split-append :
      (s : Text) (c : ℕ) (t : Text)
      → All (λ a. separates a ≡ false) s
      → separates c ≡ true
      → split separates (s ++ (c ∷ t)) ≡ s ∷ split separates t
  unfolding split
  split-append [] c t h e = rw e
  split-append (a ∷ s) c t h e = rw (h.0, split-append s c t h.1 e)

cons_first-append :
    (c : ℕ) (xs ys : List Text) → xs ≢ [] → cons_first c (xs ++ ys) ≡ cons_first c xs ++ ys
unfolding cons_first
cons_first-append c [] ys h = absurd (h refl)
cons_first-append c (x ∷ xs) ys h = refl

cons_first-some : (c : ℕ) (xs : List Text) → cons_first c xs ≢ []
unfolding cons_first
cons_first-some c [] e = nil≢cons (sym e)
cons_first-some c (x ∷ xs) e = nil≢cons (sym e)

module _ (separates : ℕ → Bool) where
  split-some : (s : Text) → split separates s ≢ []
  unfolding split
  split-some [] e = nil≢cons (sym e)
  split-some (c ∷ s) e = elim (Bool-cases (separates c)) [
    | inl at' ↦ nil≢cons (sym (rw at' at e))
    | inr in' ↦ cons_first-some c (split separates s) (rw in' at e)
  ]

  -- A separator splits what comes before it from what comes after.
  pub split-append_both :
      (s : Text) (c : ℕ) (t : Text)
      → separates c ≡ true
      → split separates (s ++ (c ∷ t)) ≡ split separates s ++ split separates t
  unfolding split
  split-append_both [] c t e = rw e refl
  split-append_both (a ∷ s) c t e = elim (Bool-cases (separates a)) [
    | inl at' ↦ rw at' (ap ([] ∷◌) (split-append_both s c t e))
    | inr in' ↦ rw in' (
        ap (cons_first a) (split-append_both s c t e)
        ∙ cons_first-append a (split separates s) (split separates t) (split-some s))
  ]
