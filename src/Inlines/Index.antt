-- ===== src/Inlines/Index.antt =====
-- The index in an attribute: `updateElementIndex` on texts that have one.
use bluetooth_autonomous_car.Prelude.{
  ℕ, ◌≤◌, ◌≡◌, ◌≢◌, refl, ap, sym, ◌∙◌, arith, true, false, ◌&&◌, [], ◌∷◌, ◌++◌, none, some, ◌==◌,
  if◌then◌else◌, length, length-append, append_assoc, All,
}
use bluetooth_autonomous_car.Text.{Text, codes, dec, is_digit, starts_with, starts_with_one}
use bluetooth_autonomous_car.Text.Decimal.{IsNumeral}
use bluetooth_autonomous_car.Text.Occurs.{starts_with-append}
use bluetooth_autonomous_car.Inlines.{
  drop_digits, drop_text, after_index, after_match, replace_index,
}

drop_text-append : (t s : Text) → drop_text t (t ++ s) ≡ s
drop_text-append [] s = refl
drop_text-append (a ∷ t) s = drop_text-append t s

-- A pattern that is no longer than a text is found at its front without what follows.
starts_with_front : (t s x : Text) → length t ≤ length s → starts_with t (s ++ x) ≡ starts_with t s
unfolding starts_with
starts_with_front [] s x h = refl
starts_with_front (a ∷ t) [] x h = absurd (omega arith)
starts_with_front (a ∷ t) (c ∷ s) x h = ap ((a == c) &&◌) (starts_with_front t s x (omega arith))

drop_digits-append :
    (s rest : Text)
    → All (λ c. is_digit c ≡ true) s
    → starts_with_one is_digit rest ≡ false
    → drop_digits (s ++ rest) ≡ rest
unfolding drop_digits
drop_digits-append [] [] h e = refl
drop_digits-append [] (c ∷ rest) h e = rw e refl
drop_digits-append (a ∷ s) rest h e = rw h.0 (drop_digits-append s rest h.1 e)

pub after_index-numeral :
    (s rest : Text)
    → IsNumeral s
    → s ≢ []
    → starts_with_one is_digit rest ≡ false
    → after_index (s ++ rest) ≡ some rest
unfolding after_index
after_index-numeral [] rest h ne e = absurd (ne refl)
after_index-numeral (c ∷ s) rest h ne e = rw h.0 (ap some (drop_digits-append s rest h.1 e))

pub after_index-template : (rest : Text) → after_index (codes "__prefix__" ++ rest) ≡ some rest
unfolding after_index starts_with
after_index-template rest = refl

module _ (prefix : Text) where
  abbrev dashed : Text
  dashed = prefix ++ (b'-' ∷ [])

  dashed-append : (x : Text) → prefix ++ (b'-' ∷ x) ≡ dashed ++ x
  dashed-append x = sym (append_assoc prefix (b'-' ∷ []) x)

  after_match-here :
      (x rest : Text)
      → after_index x ≡ some rest
      → after_match prefix (prefix ++ (b'-' ∷ x)) ≡ some rest
  unfolding after_match
  after_match-here x rest h =
      ap (after_match prefix) (dashed-append x)
      ∙ ap (λ b. if b then after_index (drop_text dashed (dashed ++ x)) else none)
          (starts_with-append dashed x)
      ∙ ap after_index (drop_text-append dashed x)
      ∙ h

  -- Nothing before the prefix can be taken for it.
  abbrev pub Misses : Text → Type 0
  Misses [] = Unit
  Misses (c ∷ lead) = (starts_with dashed (c ∷ (lead ++ dashed)) ≡ false) × Misses lead

  dashed-le : (c : ℕ) (lead : Text) → length dashed ≤ length (c ∷ (lead ++ dashed))
  dashed-le c lead = omega (arith, length-append lead dashed)

  after_match-missed :
      (c : ℕ) (lead x : Text)
      → starts_with dashed (c ∷ (lead ++ dashed)) ≡ false
      → after_match prefix (c ∷ (lead ++ (prefix ++ (b'-' ∷ x)))) ≡ none
  unfolding after_match
  after_match-missed c lead x h =
      ap (after_match prefix)
        (ap (c ∷◌) (ap (lead ++◌) (dashed-append x) ∙ sym (append_assoc lead dashed x)))
      ∙ ap (λ b. if b then after_index (drop_text dashed (c ∷ ((lead ++ dashed) ++ x))) else none)
          (starts_with_front dashed (c ∷ (lead ++ dashed)) x (dashed-le c lead) ∙ h)

  empty-unmatched : (q : Text) → starts_with (q ++ (b'-' ∷ [])) [] ≡ false
  unfolding starts_with
  empty-unmatched [] = refl
  empty-unmatched (a ∷ q) = refl

  after_match-empty : after_match prefix [] ≡ none
  unfolding after_match
  after_match-empty =
      ap (λ b. if b then after_index (drop_text dashed []) else none) (empty-unmatched prefix)

  replace_index-front :
      (n : ℕ) (s rest : Text)
      → after_match prefix s ≡ some rest
      → replace_index prefix n s ≡ prefix ++ (b'-' ∷ (dec n ++ rest))
  unfolding replace_index
  replace_index-front n [] rest h = cc (after_match-empty, h)
  replace_index-front n (c ∷ s) rest h = rw (h, replace_index) refl

  -- An attribute whose index, or the template's placeholder, follows the prefix and a dash gets the new
  -- index there, and what stands before and after it stays. (What stands before cannot be taken for the
  -- prefix, and what follows is what the pattern leaves.)
  pub replace_index-lead :
      (n : ℕ) (lead x rest : Text)
      → Misses lead
      → after_index x ≡ some rest
      → replace_index prefix n (lead ++ (prefix ++ (b'-' ∷ x)))
        ≡ lead ++ (prefix ++ (b'-' ∷ (dec n ++ rest)))
  unfolding replace_index
  replace_index-lead n [] x rest m h =
      replace_index-front n (prefix ++ (b'-' ∷ x)) rest (after_match-here x rest h)
  replace_index-lead n (c ∷ lead) x rest m h =
      rw (after_match-missed c lead x m.0, replace_index)
        (ap (c ∷◌) (replace_index-lead n lead x rest m.1 h))
