-- ===== src/Urlify/Slug.antt =====
-- The form of a slug.
use bluetooth_autonomous_car.Prelude.{
  ℕ, zero, suc, ◌≤◌, ◌≡◌, refl, ap, sym, subst, arith, Bool, true, false, ◌&&◌, ◌||◌, [], ◌∷◌, ◌++◌,
  if◌then◌else◌, take, drop, length, length-take, length-append, All, Bool-cases, inl, inr,
}
use bluetooth_autonomous_car.Text.{Text, is_space}
use bluetooth_autonomous_car.Urlify.{
  is_hyphen, is_kept, keep_chars, drop_start, cons_unless, drop_end, hyphenate, slug,
}

-- No two hyphens next to each other.
abbrev pub IsSparse : Text → Type 0
IsSparse [] = Unit
IsSparse (a ∷ []) = Unit
IsSparse (a ∷ b ∷ s) = ((is_hyphen a && is_hyphen b) ≡ false) × IsSparse (b ∷ s)

-- The last character is no hyphen.
abbrev pub EndsWell : Text → Type 0
EndsWell [] = Unit
EndsWell (a ∷ []) = is_hyphen a ≡ false
EndsWell (a ∷ b ∷ s) = EndsWell (b ∷ s)

-- Through parts of texts.
All-front {κ} : (P : ℕ → Type κ) (s u : Text) → All P (s ++ u) → All P s
All-front P [] u h = tt
All-front P (a ∷ s) u h = (h.0, All-front P s u h.1)

pub IsSparse-front : (s u : Text) → IsSparse (s ++ u) → IsSparse s
IsSparse-front [] u h = tt
IsSparse-front (a ∷ []) u h = tt
IsSparse-front (a ∷ b ∷ s) u h = (h.0, IsSparse-front (b ∷ s) u h.1)

pub take-drop : (n : ℕ) (s : Text) → take n s ++ drop n s ≡ s
take-drop zero s = refl
take-drop (suc n) [] = refl
take-drop (suc n) (a ∷ s) = ap (a ∷◌) (take-drop n s)

drop_end-front : (test : ℕ → Bool) (s : Text) → (u : Text) × (drop_end test s ++ u ≡ s)
unfolding drop_end cons_unless
drop_end-front test [] = ([], refl)
drop_end-front test (c ∷ s) =
    let (u, e) = drop_end-front test s in extend (test c) (drop_end test s) u e
  where
    extend : (b : Bool) (t u : Text) → t ++ u ≡ s → (v : Text) × (cons_unless b c t ++ v ≡ c ∷ s)
    extend true [] u e = (c ∷ u, ap (c ∷◌) e)
    extend false [] u e = (u, ap (c ∷◌) e)
    extend b (a ∷ t) u e = (u, ap (c ∷◌) e)

drop_end-EndsWell : (s : Text) → EndsWell (drop_end is_hyphen s)
unfolding drop_end cons_unless
drop_end-EndsWell [] = tt
drop_end-EndsWell (c ∷ s) = last (is_hyphen c) refl (drop_end is_hyphen s) (drop_end-EndsWell s)
  where
    last : (b : Bool) → is_hyphen c ≡ b → (t : Text) → EndsWell t → EndsWell (cons_unless b c t)
    last true e [] h = tt
    last false e [] h = e
    last b e (a ∷ t) h = h

keep_chars-kept : (keeps : ℕ → Bool) (s : Text) → All (λ c. keeps c ≡ true) (keep_chars keeps s)
unfolding keep_chars
keep_chars-kept keeps [] = tt
keep_chars-kept keeps (c ∷ s) = elim (Bool-cases (keeps c)) [
  | inl kept ↦ rw kept (kept, keep_chars-kept keeps s)
  | inr dropped ↦ rw dropped (keep_chars-kept keeps s)
]

drop_start-All {κ} :
    (P : ℕ → Type κ) (test : ℕ → Bool) (s : Text) → All P s → All P (drop_start test s)
unfolding drop_start
drop_start-All P test [] h = tt
drop_start-All P test (c ∷ s) h = elim (Bool-cases (test c)) [
  | inl space ↦ rw space (drop_start-All P test s h.1)
  | inr other ↦ rw other h
]

or_parts : (x y : Bool) → (x || y) ≡ false → (x ≡ false) × (y ≡ false)
or_parts false y h = (refl, h)
or_parts true y h = cc

cons-IsSparse : (c : ℕ) (t : Text) → is_hyphen c ≡ false → IsSparse t → IsSparse (c ∷ t)
cons-IsSparse c [] h v = tt
cons-IsSparse c (b ∷ t) h v = (rw h refl, v)

-- The text after a hyphen that has been written, and the text at first.
pub hyphenate-IsSparse :
    (s : Text) → IsSparse (b'-' ∷ hyphenate true s) × IsSparse (hyphenate false s)
unfolding hyphenate
hyphenate-IsSparse [] = (tt, tt)
hyphenate-IsSparse (c ∷ s) =
    let (after, first) = hyphenate-IsSparse s in
    elim (Bool-cases (is_hyphen c || is_space c)) [
      | inl separator ↦ rw separator (after, after)
      | inr plain ↦
          let no_hyphen = (or_parts (is_hyphen c) (is_space c) plain).0 in
          let rest = cons-IsSparse c (hyphenate false s) no_hyphen first in
          rw plain ((no_hyphen, rest), rest)
    ]

module _ (P : ℕ → Type 0) (hyphen : P b'-') where
  -- Every character of the result is a hyphen, or one of the text that is no separator.
  hyphenate-All :
      (within : Bool) (s : Text)
      → All P s
      → All (λ c. P c × (is_space c ≡ false)) (hyphenate within s)
  unfolding hyphenate is_space
  hyphenate-All within [] h = tt
  hyphenate-All within (c ∷ s) h = elim (Bool-cases (is_hyphen c || is_space c)) [
    | inl separator ↦ rw separator (of_run within (hyphenate-All true s h.1))
    | inr plain ↦
        rw plain ((h.0, (or_parts (is_hyphen c) (is_space c) plain).1), hyphenate-All false s h.1)
  ]
    where
      of_run :
          (within : Bool)
          → All (λ c. P c × (is_space c ≡ false)) (hyphenate true s)
          → All
              (λ c. P c × (is_space c ≡ false))
              (if within then hyphenate true s else b'-' ∷ hyphenate true s)
      of_run true v = v
      of_run false v = ((hyphen, refl), v)

is_kept-hyphen : (allow : Bool) (letter : ℕ → Bool) → is_kept allow letter b'-' ≡ true
unfolding is_kept
is_kept-hyphen true letter = refl
is_kept-hyphen false letter = refl

-- The text before the conversion to lower case.
pub record IsCut (allow : Bool) (letter : ℕ → Bool) (num_chars : ℕ) (t : Text) : Type 0 where
  pub kept : All (λ c. (is_kept allow letter c ≡ true) × (is_space c ≡ false)) t
  pub short : length t ≤ num_chars
  pub sparse : IsSparse t
  pub ends_well : EndsWell t

pub slug-IsCut :
    (allow : Bool) (letter : ℕ → Bool) (num_chars : ℕ) (s : Text)
    → IsCut allow letter num_chars (slug allow letter num_chars s)
unfolding slug
slug-IsCut allow letter num_chars s =
    let kept = keep_chars (is_kept allow letter) s in
    let spaced = drop_start is_space kept in
    let (u, eu) = drop_end-front is_space spaced in
    let trimmed = drop_end is_space spaced in
    let hyphens = hyphenate false trimmed in
    let cut = take num_chars hyphens in
    let (v, ev) = drop_end-front is_hyphen cut in
    let kept_all =
      drop_start-All (λ c. is_kept allow letter c ≡ true) is_space kept
        (keep_chars-kept (is_kept allow letter) s) in
    let trimmed_all =
      All-front (λ c. is_kept allow letter c ≡ true) trimmed u
        (subst (All (λ c. is_kept allow letter c ≡ true)) (sym eu) kept_all) in
    let hyphens_all =
      hyphenate-All (λ c. is_kept allow letter c ≡ true) (is_kept-hyphen allow letter) false trimmed
        trimmed_all in
    let cut_all =
      All-front (λ c. (is_kept allow letter c ≡ true) × (is_space c ≡ false)) cut
        (drop num_chars hyphens)
        (subst (All (λ c. (is_kept allow letter c ≡ true) × (is_space c ≡ false)))
          (sym (take-drop num_chars hyphens)) hyphens_all) in
    let cut_sparse =
      IsSparse-front cut (drop num_chars hyphens)
        (subst IsSparse (sym (take-drop num_chars hyphens)) (hyphenate-IsSparse trimmed).1) in
    record {
      kept =
          All-front (λ c. (is_kept allow letter c ≡ true) × (is_space c ≡ false))
            (drop_end is_hyphen cut) v
            (subst (All (λ c. (is_kept allow letter c ≡ true) × (is_space c ≡ false))) (sym ev)
              cut_all);
      short = omega (
        arith,
        length-take num_chars hyphens,
        length-append (drop_end is_hyphen cut) v,
        ap length ev,
      );
      sparse = IsSparse-front (drop_end is_hyphen cut) v (subst IsSparse (sym ev) cut_sparse);
      ends_well = drop_end-EndsWell cut;
    }
