-- ===== src/Urlify/Letters.antt =====
-- The letters, digits and `_` that a slug keeps.
use mathlib.Core.List.{nil≢cons}
use bluetooth_autonomous_car.Prelude.{
  ℕ, zero, suc, ◌+◌, ◌≤◌, ◌≡◌, ◌⊎◌, refl, sym, subst, ap, ◌∙◌, arith, Bool, true, false, ◌&&◌, ◌||◌,
  [], ◌∷◌, ◌++◌, leb, ◌==◌, take, drop, length, if◌then◌else◌, Bool-cases, inl, inr,
}
use bluetooth_autonomous_car.Text.{Text, is_space}
use bluetooth_autonomous_car.Urlify.{
  is_hyphen, is_word, is_kept, keep_chars, drop_start, cons_unless, drop_end, hyphenate, slug,
}
use bluetooth_autonomous_car.Urlify.Slug.{IsSparse, IsSparse-front, hyphenate-IsSparse, take-drop}

-- A letter or digit in ASCII, or `_`.
abbrev pub is_letter : ℕ → Bool
is_letter c =
    leb b'0' c && leb c b'9' || leb b'A' c && leb c b'Z' || leb b'a' c && leb c b'z' || (c == b'_')

abbrev pub letters : Text → Text
letters [] = []
letters (c ∷ s) = if is_letter c then c ∷ letters s else letters s

module _ (letter : ℕ → Bool) where
  letter_kept : (c : ℕ) → is_letter c ≡ true → is_kept false letter c ≡ true
  unfolding is_kept is_word
  letter_kept c h = ground arith

  letters-keep_chars : (s : Text) → letters (keep_chars (is_kept false letter) s) ≡ letters s
  unfolding keep_chars
  letters-keep_chars [] = refl
  letters-keep_chars (c ∷ s) = elim (Bool-cases (is_letter c)) [
    | inl yes' ↦ rw (letter_kept c yes', yes') (ap (c ∷◌) (letters-keep_chars s))
    | inr no' ↦ elim (Bool-cases (is_kept false letter c)) [
      | inl kept ↦ rw (kept, no') (letters-keep_chars s)
      | inr dropped ↦ rw (dropped, no') (letters-keep_chars s)
    ]
  ]

letters-append : (s t : Text) → letters (s ++ t) ≡ letters s ++ letters t
letters-append [] t = refl
letters-append (c ∷ s) t = elim (Bool-cases (is_letter c)) [
  | inl yes' ↦ rw yes' (ap (c ∷◌) (letters-append s t))
  | inr no' ↦ rw no' (letters-append s t)
]

-- A test that no letter passes.
abbrev NoLetter : (ℕ → Bool) → Type 0
NoLetter test = (c : ℕ) → test c ≡ true → is_letter c ≡ false

space_NoLetter : NoLetter is_space
unfolding is_space
space_NoLetter c h = ground arith

hyphen_NoLetter : NoLetter is_hyphen
hyphen_NoLetter c h = ground arith

module _ (test : ℕ → Bool) (none : NoLetter test) where
  letters-drop_start : (s : Text) → letters (drop_start test s) ≡ letters s
  unfolding drop_start
  letters-drop_start [] = refl
  letters-drop_start (c ∷ s) = elim (Bool-cases (test c)) [
    | inl yes' ↦ rw (yes', none c yes') (letters-drop_start s)
    | inr no' ↦ rw no' refl
  ]

  letters-cons_unless : (c : ℕ) (t : Text) → letters (cons_unless (test c) c t) ≡ letters (c ∷ t)
  unfolding cons_unless
  letters-cons_unless c [] = elim (Bool-cases (test c)) [
    | inl yes' ↦ rw (yes', none c yes') refl
    | inr no' ↦ rw no' refl
  ]
  letters-cons_unless c (a ∷ t) = refl

  letters-drop_end : (s : Text) → letters (drop_end test s) ≡ letters s
  unfolding drop_end
  letters-drop_end [] = refl
  letters-drop_end (c ∷ s) =
      letters-cons_unless c (drop_end test s)
      ∙ ap (λ t. if is_letter c then c ∷ t else t) (letters-drop_end s)

letters-hyphenate : (within : Bool) (s : Text) → letters (hyphenate within s) ≡ letters s
unfolding hyphenate
letters-hyphenate within [] = refl
letters-hyphenate within (c ∷ s) = elim (Bool-cases (is_hyphen c || is_space c)) [
  | inl separator ↦ rw (separator, no_letter c separator) (of_run within (letters-hyphenate true s))
  | inr plain ↦ rw plain (ap (λ t. if is_letter c then c ∷ t else t) (letters-hyphenate false s))
]
  where
    no_letter : (c : ℕ) → (is_hyphen c || is_space c) ≡ true → is_letter c ≡ false
    no_letter c h = either (is_hyphen c) (is_space c) refl refl h
      where
        either :
            (x y : Bool) → is_hyphen c ≡ x → is_space c ≡ y → (x || y) ≡ true → is_letter c ≡ false
        either true y p q r = hyphen_NoLetter c p
        either false true p q r = space_NoLetter c q
        either false false p q r = cc

    of_run :
        (within : Bool)
        → letters (hyphenate true s) ≡ letters s
        → letters (if within then hyphenate true s else b'-' ∷ hyphenate true s) ≡ letters s
    of_run true e = e
    of_run false e = e

-- At most one hyphen is at the end of a text without two hyphens next to each other.
drop_end-empty : (c : ℕ) (s : Text) → drop_end is_hyphen (c ∷ s) ≡ [] → is_hyphen c ≡ true
unfolding drop_end
drop_end-empty c s e = by_rest (is_hyphen c) (drop_end is_hyphen s) e
  where
    by_rest : (b : Bool) (t : Text) → cons_unless b c t ≡ [] → b ≡ true
    by_rest true t e = refl
    by_rest false [] e = absurd (nil≢cons (sym e))
    by_rest false (a ∷ t) e = absurd (nil≢cons (sym e))

shorter_by_one :
    (c d : ℕ) (s t : Text) (b : Bool)
    → is_hyphen c ≡ b
    → drop_end is_hyphen (d ∷ s) ≡ t
    → (is_hyphen c && is_hyphen d) ≡ false
    → length (d ∷ s) ≤ length t + 1
    → length (c ∷ d ∷ s) ≤ length (cons_unless b c t) + 1
unfolding cons_unless
shorter_by_one c d s [] true e q h l =
    absurd (apart (is_hyphen c) (is_hyphen d) e (drop_end-empty d s q) h)
  where
    apart : (x y : Bool) → x ≡ true → y ≡ true → (x && y) ≡ false → ⊥
    apart x y p q r = cc
shorter_by_one c d s [] false e q h l = omega (arith, l)
shorter_by_one c d s (a ∷ t) b e q h l = omega (arith, l)

length-drop_end : (s : Text) → IsSparse s → length s ≤ length (drop_end is_hyphen s) + 1
unfolding drop_end
length-drop_end [] h = omega arith
length-drop_end (c ∷ []) h = omega arith
length-drop_end (c ∷ d ∷ s) h =
    shorter_by_one c d s (drop_end is_hyphen (d ∷ s)) (is_hyphen c) refl refl h.0
      (length-drop_end (d ∷ s) h.1)

take_short : (n : ℕ) (s : Text) → (drop n s ≡ []) ⊎ (n ≤ length (take n s))
take_short zero s = inr (omega arith)
take_short (suc n) [] = inl refl
take_short (suc n) (c ∷ s) = elim (take_short n s) [
  | inl all ↦ inl all
  | inr full ↦ inr (omega (arith, full))
]

-- The letters of the text before its conversion to lower case are those of the prepared text, up to the
-- place where it is cut.
pub slug-letters :
    (letter : ℕ → Bool) (num_chars : ℕ) (s : Text)
    → (rest : Text) × (letters s ≡ letters (slug false letter num_chars s) ++ rest)
      × ((rest ≡ []) ⊎ (num_chars ≤ length (slug false letter num_chars s) + 1))
unfolding slug
slug-letters letter num_chars s =
    let kept = keep_chars (is_kept false letter) s in
    let spaced = drop_start is_space kept in
    let trimmed = drop_end is_space spaced in
    let hyphens = hyphenate false trimmed in
    let cut = take num_chars hyphens in
    let sparse =
      IsSparse-front cut (drop num_chars hyphens)
        (subst IsSparse (sym (take-drop num_chars hyphens)) (hyphenate-IsSparse trimmed).1) in
    let same : letters hyphens ≡ letters s =
      letters-hyphenate false trimmed
      ∙ letters-drop_end is_space space_NoLetter spaced
      ∙ letters-drop_start is_space space_NoLetter kept
      ∙ letters-keep_chars letter s in
    (
      letters (drop num_chars hyphens),
      sym same
          ∙ ap letters (sym (take-drop num_chars hyphens))
          ∙ letters-append cut (drop num_chars hyphens)
          ∙ ap (◌++ letters (drop num_chars hyphens))
              (sym (letters-drop_end is_hyphen hyphen_NoLetter cut)),
      elim (take_short num_chars hyphens) [
        | inl all ↦ inl (ap letters all)
        | inr full ↦ inr (omega (arith, full, length-drop_end cut sparse))
      ],
    )
