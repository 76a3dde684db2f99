-- ===== src/Inlines/Layouts/Labels.antt =====
-- Through any clicks the labels of stacked forms are numbered from 1 in sequence.
use bluetooth_autonomous_car.Prelude.{
  ℕ, zero, suc, ◌+◌, ◌≤◌, ◌≡◌, ◌≢◌, refl, ap, ap₂, ◌∙◌, arith, true, false, List, [], ◌∷◌, ◌++◌,
  length, All, ◌==◌,
}
use bluetooth_autonomous_car.Text.{Text, dec, is_digit, starts_with_one}
use bluetooth_autonomous_car.Text.Decimal.{IsNumeral, dec-IsNumeral, dec-some}
use bluetooth_autonomous_car.Inlines.{remove_at}
use bluetooth_autonomous_car.Inlines.Layouts.{replace_counts, update_labels, copy_label}

-- What stands before and after the number of a label.
pub record Label : Type 0 where
  pub before : Text
  pub after : Text

abbrev pub NoHash : Text → Type 0
NoHash s = All (λ c. (c == b'#') ≡ false) s

pub record IsLabel (l : Label) : Type 0 where
  pub plain_before : NoHash l.before
  pub plain_after : NoHash l.after
  pub no_digit : starts_with_one is_digit l.after ≡ false

abbrev pub label_text : ℕ → Label → Text
label_text n l = l.before ++ (b'#' ∷ (dec n ++ l.after))

module _ (count : ℕ) where
  kept_text : (s : Text) → NoHash s → replace_counts count false s ≡ s
  unfolding replace_counts
  kept_text [] h = refl
  kept_text (c ∷ s) h = rw (h.0) (ap (c ∷◌) (kept_text s h.1))

  kept_after :
      (s : Text) → NoHash s → starts_with_one is_digit s ≡ false → replace_counts count true s ≡ s
  unfolding replace_counts
  kept_after [] h e = refl
  kept_after (c ∷ s) h e = rw (e, h.0) (ap (c ∷◌) (kept_text s h.1))

  passed_digits :
      (d rest : Text)
      → IsNumeral d
      → replace_counts count true (d ++ rest) ≡ replace_counts count true rest
  unfolding replace_counts
  passed_digits [] rest h = refl
  passed_digits (c ∷ d) rest h = rw h.0 (passed_digits d rest h.1)

  kept_before :
      (s rest : Text)
      → NoHash s
      → replace_counts count false (s ++ rest) ≡ s ++ replace_counts count false rest
  unfolding replace_counts
  kept_before [] rest h = refl
  kept_before (c ∷ s) rest h = rw h.0 (ap (c ∷◌) (kept_before s rest h.1))

  starts_with_digit :
      (d rest : Text) → d ≢ [] → IsNumeral d → starts_with_one is_digit (d ++ rest) ≡ true
  starts_with_digit [] rest n h = absurd (n refl)
  starts_with_digit (c ∷ d) rest n h = h.0

  replace_counts-label_text :
      (n : ℕ) (l : Label)
      → IsLabel l
      → replace_counts count false (label_text n l) ≡ label_text count l
  unfolding replace_counts
  replace_counts-label_text n l h =
      kept_before l.before _ h.plain_before
      ∙ ap (l.before ++◌) (
          rw (starts_with_digit (dec n) l.after (dec-some n) (dec-IsNumeral n)) (
            ap (λ s. b'#' ∷ (dec count ++ s))
              (passed_digits (dec n) l.after (dec-IsNumeral n)
                ∙ kept_after l.after h.plain_after h.no_digit)))

-- The texts are labels with any numbers, or with the numbers from `i + 1`.
abbrev pub AreLabels : List Label → List Text → Type 0
AreLabels [] [] = Unit
AreLabels (l ∷ ls) (t ∷ ts) = ((n : ℕ) × (t ≡ label_text n l)) × IsLabel l × AreLabels ls ts
AreLabels _ _ = ⊥

abbrev pub labelled : ℕ → List Label → List Text
labelled i [] = []
labelled i (l ∷ ls) = label_text (i + 1) l ∷ labelled (i + 1) ls

abbrev pub AllLabels : List Label → Type 0
AllLabels ls = All IsLabel ls

pub update_labels-labelled :
    (ls : List Label) (ts : List Text) (i : ℕ)
    → AreLabels ls ts
    → update_labels i ts ≡ labelled i ls
unfolding update_labels
update_labels-labelled [] [] i h = refl
update_labels-labelled [] (t ∷ ts) i h = absurd h
update_labels-labelled (l ∷ ls) [] i h = absurd h
update_labels-labelled (l ∷ ls) (t ∷ ts) i h =
    let (n, e) = h.0 in
    ap₂ ◌∷◌ (rw e (replace_counts-label_text (i + 1) n l h.1))
      (update_labels-labelled ls ts (i + 1) h.2)

pub labelled-AreLabels : (ls : List Label) (i : ℕ) → AllLabels ls → AreLabels ls (labelled i ls)
labelled-AreLabels [] i h = tt
labelled-AreLabels (l ∷ ls) i h = ((i + 1, refl), h.0, labelled-AreLabels ls (i + 1) h.1)

pub length-labelled : (ls : List Label) (i : ℕ) → length (labelled i ls) ≡ length ls
length-labelled [] i = refl
length-labelled (l ∷ ls) i = ap suc (length-labelled ls (i + 1))

-- The label of a copy of the template is the template's.
abbrev pub copied : List Label → List Label
copied [] = []
copied (l ∷ []) = l ∷ l ∷ []
copied (l ∷ m ∷ ls) = l ∷ copied (m ∷ ls)

pub copied-AllLabels : (ls : List Label) → AllLabels ls → AllLabels (copied ls)
copied-AllLabels [] h = tt
copied-AllLabels (l ∷ []) h = (h.0, (h.0, tt))
copied-AllLabels (l ∷ m ∷ ls) h = (h.0, copied-AllLabels (m ∷ ls) h.1)

pub length-copied : (ls : List Label) → 1 ≤ length ls → length (copied ls) ≡ length ls + 1
length-copied [] h = absurd (omega arith)
length-copied (l ∷ []) h = refl
length-copied (l ∷ m ∷ ls) h = omega (arith, length-copied (m ∷ ls) (omega arith))

pub copy_label-AreLabels :
    (ls : List Label) (ts : List Text) → AreLabels ls ts → AreLabels (copied ls) (copy_label ts)
unfolding copy_label
copy_label-AreLabels [] [] h = tt
copy_label-AreLabels [] (t ∷ ts) h = absurd h
copy_label-AreLabels (l ∷ ls) [] h = absurd h
copy_label-AreLabels (l ∷ []) (t ∷ []) h = (h.0, h.1, (h.0, h.1, tt))
copy_label-AreLabels (l ∷ []) (t ∷ u ∷ ts) h = absurd h.2
copy_label-AreLabels (l ∷ m ∷ ls) (t ∷ []) h = absurd h.2
copy_label-AreLabels (l ∷ m ∷ ls) (t ∷ u ∷ ts) h =
    (h.0, h.1, copy_label-AreLabels (m ∷ ls) (u ∷ ts) h.2)

pub remove_at-AreLabels :
    (i : ℕ) (ls : List Label) (ts : List Text)
    → AreLabels ls ts
    → AreLabels (remove_at i ls) (remove_at i ts)
unfolding remove_at
remove_at-AreLabels i [] [] h = tt
remove_at-AreLabels i [] (t ∷ ts) h = absurd h
remove_at-AreLabels i (l ∷ ls) [] h = absurd h
remove_at-AreLabels zero (l ∷ ls) (t ∷ ts) h = h.2
remove_at-AreLabels (suc i) (l ∷ ls) (t ∷ ts) h = (h.0, h.1, remove_at-AreLabels i ls ts h.2)
