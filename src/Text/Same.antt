-- ===== src/Text/Same.antt =====
-- `===` of strings decides equality.
use mathlib.Core.Bool.{true≢false}
use bluetooth_autonomous_car.Prelude.{
  ℕ, ◌≡◌, ◌≢◌, refl, sym, ◌∙◌, ap₂, arith, true, false, ◌&&◌, ◌==◌, [], ◌∷◌, ◌↔◌, Bool,
}
use bluetooth_autonomous_car.Text.{Text, same_text}

eq_of_== : (a b : ℕ) → (a == b) ≡ true → a ≡ b
eq_of_== a b h = ground arith

==-refl : (a : ℕ) → (a == a) ≡ true
==-refl a = ground arith

and_true : (a b : Bool) → (a && b) ≡ true → (a ≡ true) × (b ≡ true)
and_true a b h = ground arith

pub same_text_refl : (s : Text) → same_text s s ≡ true
same_text_refl [] = refl
same_text_refl (a ∷ s) = rw (==-refl a) (same_text_refl s)

pub eq_of_same_text : (s t : Text) → same_text s t ≡ true → s ≡ t
eq_of_same_text [] [] h = refl
eq_of_same_text (a ∷ s) (b ∷ t) h =
    let (p, q) = and_true (a == b) (same_text s t) h in
    ap₂ ◌∷◌ (eq_of_== a b p) (eq_of_same_text s t q)
eq_of_same_text [] (b ∷ t) h = cc
eq_of_same_text (a ∷ s) [] h = cc

pub same_text_iff : (s t : Text) → (same_text s t ≡ true) ↔ (s ≡ t)
same_text_iff s t = (eq_of_same_text s t, λ e. rw e (same_text_refl t))

pub same_text_ne : (s t : Text) → s ≢ t → same_text s t ≡ false
same_text_ne s t h = by_cases (same_text s t) refl
  where
    by_cases : (b : Bool) → same_text s t ≡ b → b ≡ false
    by_cases true e = absurd (h (eq_of_same_text s t e))
    by_cases false e = refl

pub ne_of_same_text : (s t : Text) → same_text s t ≡ false → s ≢ t
ne_of_same_text s t h e = true≢false (sym (same_text_refl t) ∙ (rw e at h))
