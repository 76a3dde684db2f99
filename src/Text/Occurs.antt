-- ===== src/Text/Occurs.antt =====
-- `startsWith` and `indexOf` decide whether a text occurs in another.
use bluetooth_autonomous_car.Prelude.{
  ℕ, ◌≡◌, refl, ap, ap₂, sym, arith, Bool, true, false, ◌||◌, ◌==◌, [], ◌∷◌, ◌++◌, ◌↔◌, Bool-cases,
  inl, inr,
}
use bluetooth_autonomous_car.Text.{Text, starts_with, includes}

-- The first text is a part of the second.
abbrev pub Occurs : Text → Text → Type 0
Occurs t s = (before : Text) × (after : Text) × (s ≡ before ++ (t ++ after))

eq_of_== : (a b : ℕ) → (a == b) ≡ true → a ≡ b
eq_of_== a b h = ground arith

==-self : (a : ℕ) → (a == a) ≡ true
==-self a = ground arith

pub starts_with-append : (t s : Text) → starts_with t (t ++ s) ≡ true
unfolding starts_with
starts_with-append [] s = refl
starts_with-append (a ∷ t) s = rw (==-self a) (starts_with-append t s)

pub starts_with-split : (t s : Text) → starts_with t s ≡ true → (after : Text) × (s ≡ t ++ after)
unfolding starts_with
starts_with-split [] s h = (s, refl)
starts_with-split (a ∷ t) [] h = cc
starts_with-split (a ∷ t) (c ∷ s) h = elim (Bool-cases (a == c)) [
  | inl same ↦
      let (after, e) = starts_with-split t s (rw same at h) in
      (after, ap₂ ◌∷◌ (sym (eq_of_== a c same)) e)
  | inr other ↦ absurd (false_true (rw other at h))
]
  where
    false_true : ¬ (false ≡ true)
    false_true e = cc

includes_of_starts_with : (t s : Text) → starts_with t s ≡ true → includes t s ≡ true
unfolding includes
includes_of_starts_with t [] h = h
includes_of_starts_with t (c ∷ s) h = rw h

Occurs-of_includes : (t s : Text) → includes t s ≡ true → Occurs t s
unfolding includes
Occurs-of_includes t [] h = let (after, e) = starts_with-split t [] h in ([], after, e)
Occurs-of_includes t (c ∷ s) h = elim (Bool-cases (starts_with t (c ∷ s))) [
  | inl here ↦ let (after, e) = starts_with-split t (c ∷ s) here in ([], after, e)
  | inr later ↦
      let (before, after, e) = Occurs-of_includes t s (rw later at h) in
      (c ∷ before, after, ap (c ∷◌) e)
]

or_true : (b : Bool) → (b || true) ≡ true
or_true true = refl
or_true false = refl

includes-append : (t before after : Text) → includes t (before ++ (t ++ after)) ≡ true
unfolding includes
includes-append t [] after = includes_of_starts_with t (t ++ after) (starts_with-append t after)
includes-append t (c ∷ before) after = rw (includes-append t before after) (or_true _)

pub includes-Occurs : (t s : Text) → (includes t s ≡ true) ↔ Occurs t s
includes-Occurs t s =
    (Occurs-of_includes t s, λ (before, after, e). rw e (includes-append t before after))
