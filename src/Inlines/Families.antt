-- ===== src/Inlines/Families.antt =====
-- A form for every index, and forms that are numbered in sequence.
use bluetooth_autonomous_car.Prelude.{
  ℕ, zero, suc, ◌+◌, ◌<◌, ◌≡◌, refl, ap, ap₂, ◌∙◌, arith, List, [], ◌∷◌, ◌++◌, length, All,
}
use bluetooth_autonomous_car.Text.{Text}
use bluetooth_autonomous_car.Inlines.{Form, update_form, renumber, remove_at}

-- The form under each index: numbering it anew gives the form under the new index.
abbrev pub Family : Type 0
Family = ℕ → Form

abbrev pub IsFamily : Text → Family → Type 0
IsFamily prefix F = (j n : ℕ) → update_form prefix n (F j) ≡ F n

-- The forms of some families, numbered from `j`.
abbrev pub numbered : List Family → ℕ → List Form
numbered [] j = []
numbered (F ∷ Fs) j = F j ∷ numbered Fs (j + 1)

-- The forms are those of the families, under any indices.
abbrev pub OfFamilies : List Form → List Family → Type 0
OfFamilies [] [] = Unit
OfFamilies (f ∷ fs) (F ∷ Fs) = ((j : ℕ) × (f ≡ F j)) × OfFamilies fs Fs
OfFamilies _ _ = ⊥

pub OfFamilies-numbered : (Fs : List Family) (j : ℕ) → OfFamilies (numbered Fs j) Fs
OfFamilies-numbered [] j = tt
OfFamilies-numbered (F ∷ Fs) j = ((j, refl), OfFamilies-numbered Fs (j + 1))

pub OfFamilies-remove_at :
    (i : ℕ) (fs : List Form) (Fs : List Family)
    → OfFamilies fs Fs
    → OfFamilies (remove_at i fs) (remove_at i Fs)
unfolding remove_at
OfFamilies-remove_at i [] [] h = tt
OfFamilies-remove_at i [] (F ∷ Fs) h = elim h [ ]
OfFamilies-remove_at zero (f ∷ fs) [] h = elim h [ ]
OfFamilies-remove_at (suc i) (f ∷ fs) [] h = elim h [ ]
OfFamilies-remove_at zero (f ∷ fs) (F ∷ Fs) h = h.1
OfFamilies-remove_at (suc i) (f ∷ fs) (F ∷ Fs) h = (h.0, OfFamilies-remove_at i fs Fs h.1)

pub renumber-numbered :
    (prefix : Text) (i : ℕ) (fs : List Form) (Fs : List Family)
    → OfFamilies fs Fs
    → All (IsFamily prefix) Fs
    → renumber prefix i fs ≡ numbered Fs i
unfolding renumber
renumber-numbered prefix i [] [] h a = refl
renumber-numbered prefix i [] (F ∷ Fs) h a = elim h [ ]
renumber-numbered prefix i (f ∷ fs) [] h a = elim h [ ]
renumber-numbered prefix i (f ∷ fs) (F ∷ Fs) ((j, e), h) a =
    ap₂ ◌∷◌ (ap (update_form prefix i) e ∙ a.0 j i) (renumber-numbered prefix (i + 1) fs Fs h a.1)

pub All-remove_at {κ} :
    {A : Type 0} (P : A → Type κ) (i : ℕ) (xs : List A) → All P xs → All P (remove_at i xs)
unfolding remove_at
All-remove_at P i [] h = tt
All-remove_at P zero (x ∷ xs) h = h.1
All-remove_at P (suc i) (x ∷ xs) h = (h.0, All-remove_at P i xs h.1)

pub length-numbered : (Fs : List Family) (j : ℕ) → length (numbered Fs j) ≡ length Fs
length-numbered [] j = refl
length-numbered (F ∷ Fs) j = ap suc (length-numbered Fs (j + 1))

pub numbered-append :
    (Fs : List Family) (T : Family) (j : ℕ)
    → numbered Fs j ++ (T (j + length Fs) ∷ []) ≡ numbered (Fs ++ (T ∷ [])) j
numbered-append [] T j = ap (λ n. T n ∷ []) (omega arith)
numbered-append (F ∷ Fs) T j =
    ap (F j ∷◌) (ap (λ n. numbered Fs (j + 1) ++ (T n ∷ [])) next ∙ numbered-append Fs T (j + 1))
  where
    next : j + suc (length Fs) ≡ j + 1 + length Fs
    next = omega arith

pub length-remove_at :
    {A : Type 0} (i : ℕ) (xs : List A) → i < length xs → length (remove_at i xs) + 1 ≡ length xs
unfolding remove_at
length-remove_at i [] h = absurd (omega arith)
length-remove_at zero (x ∷ xs) h = omega arith
length-remove_at (suc i) (x ∷ xs) h = omega (arith, length-remove_at i xs (omega arith))
