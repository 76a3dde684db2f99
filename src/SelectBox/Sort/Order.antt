-- ===== src/SelectBox/Sort/Order.antt =====
-- The order of strings that `sort` compares by.
use bluetooth_autonomous_car.Prelude.{
  ℕ, ◌<◌, ◌≡◌, ◌⊎◌, refl, sym, ap, ap₂, arith, true, false, [], ◌∷◌, ◌++◌, ◌==◌, Bool-cases, inl,
  inr,
}
use bluetooth_autonomous_car.Text.{Text}
use bluetooth_autonomous_car.SelectBox.{text_lt}

pub text_lt_irrefl : (s : Text) → text_lt s s ≡ false
unfolding text_lt
text_lt_irrefl [] = refl
text_lt_irrefl (a ∷ s) = ground (arith, text_lt_irrefl s)

-- The order of strings is total: what is not less is transitive.
pub not_lt_trans : (s t u : Text) → text_lt t s ≡ false → text_lt u t ≡ false → text_lt u s ≡ false
unfolding text_lt
not_lt_trans [] t u p q = refl
not_lt_trans (a ∷ s) [] u p q = cc
not_lt_trans (a ∷ s) (b ∷ t) [] p q = cc
not_lt_trans (a ∷ s) (b ∷ t) (c ∷ u) p q = ground (arith, not_lt_trans s t u)

pub lt_not_gt : (s t : Text) → text_lt s t ≡ true → text_lt t s ≡ false
unfolding text_lt
lt_not_gt s [] h = cc
lt_not_gt [] (b ∷ t) h = refl
lt_not_gt (a ∷ s) (b ∷ t) h = ground (arith, lt_not_gt s t)

-- The order of a dictionary by code units: the first text is the front of the second, or at the first
-- place where they differ its code unit is the smaller.
abbrev pub LexLe : Text → Text → Type 0
LexLe s t =
    ((u : Text) × (t ≡ s ++ u))
    ⊎ ((u : Text) × (v : Text) × (w : Text) × (a : ℕ) × (b : ℕ) × (a < b)
        × (s ≡ u ++ (a ∷ v))
        × (t ≡ u ++ (b ∷ w)))

LexLe-cons : (a b : ℕ) (s t : Text) → a ≡ b → LexLe s t → LexLe (a ∷ s) (b ∷ t)
LexLe-cons a b s t e (inl (u, q)) = inl (u, ap₂ ◌∷◌ (sym e) q)
LexLe-cons a b s t e (inr (u, v, w, c, d, lt, q, q')) =
    inr (a ∷ u, v, w, c, d, lt, ap (a ∷◌) q, ap₂ ◌∷◌ (sym e) q')

pub not_lt-LexLe : (s t : Text) → text_lt t s ≡ false → LexLe s t
unfolding text_lt
not_lt-LexLe [] t h = inl (t, refl)
not_lt-LexLe (a ∷ s) [] h = cc
not_lt-LexLe (a ∷ s) (b ∷ t) h = elim (Bool-cases (b == a)) [
  | inl same ↦
      let e : a ≡ b = ground arith in
      let h' : text_lt t s ≡ false = ground arith in LexLe-cons a b s t e (not_lt-LexLe s t h')
  | inr other ↦ let lt : a < b = ground arith in inr ([], s, t, a, b, lt, refl, refl)
]
