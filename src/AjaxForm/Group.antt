-- ===== src/AjaxForm/Group.antt =====
-- The group of the pattern for a boundary: its form, and that a text which begins so has one.
use mathlib.Core.Option.{some_inj}
use bluetooth_autonomous_car.Prelude.{
  ℕ, zero, suc, ◌≤◌, ◌≡◌, ◌≢◌, refl, ap, subst, arith, Bool, true, false, ◌&&◌, [], ◌∷◌, ◌++◌,
  Option, none, some, All, length, if◌then◌else◌, Bool-cases, inl, inr,
}
use bluetooth_autonomous_car.Text.{Text}
use bluetooth_autonomous_car.AjaxForm.{is_boundary_no_space, is_boundary, blank_to_end, match_group}

-- The last character of a boundary is no space, so it has one.
abbrev pub EndsInk : Text → Type 0
EndsInk [] = ⊥
EndsInk (c ∷ []) = is_boundary_no_space c ≡ true
EndsInk (c ∷ d ∷ s) = EndsInk (d ∷ s)

abbrev pub AllBoundary : Text → Type 0
AllBoundary s = All (λ c. is_boundary c ≡ true) s

-- A group of the pattern at the start of a text.
pub record IsGroup (n : ℕ) (s b : Text) : Type 0 where
  pub rest : Text
  pub parts : s ≡ b ++ rest
  pub blank : blank_to_end rest ≡ true
  pub characters : AllBoundary b
  pub short : length b ≤ suc n
  pub ink : EndsInk b

pub and_true : (a b : Bool) → (a && b) ≡ true → (a ≡ true) × (b ≡ true)
and_true a b h = ground arith

ink_is_boundary : (c : ℕ) → is_boundary_no_space c ≡ true → is_boundary c ≡ true
unfolding is_boundary
ink_is_boundary c h = rw h refl

module _ (c : ℕ) (s : Text) where
  -- The pattern's last character alone.
  last_alone : Option Text
  last_alone = if is_boundary_no_space c && blank_to_end s then some (c ∷ []) else none

  last_alone-IsGroup : (n : ℕ) (b : Text) → last_alone ≡ some b → IsGroup n (c ∷ s) b
  unfolding last_alone
  last_alone-IsGroup n b h = elim (Bool-cases (is_boundary_no_space c && blank_to_end s)) [
    | inl e ↦
        let (ink, blank) = and_true (is_boundary_no_space c) (blank_to_end s) e in
        let same : c ∷ [] ≡ b = some_inj.0 (rw e at h) in
        subst (IsGroup n (c ∷ s)) same (record {
          rest = s;
          parts = refl;
          blank = blank;
          characters = (ink_is_boundary c ink, tt);
          short = omega arith;
          ink = ink;
        })
    | inr e ↦ absurd (no_match (rw e at h))
  ]
    where
      no_match : none ≢ some b
      no_match e = cc

  longer-IsGroup :
      (n : ℕ) (group : Text)
      → is_boundary c ≡ true
      → IsGroup n s group
      → IsGroup (suc n) (c ∷ s) (c ∷ group)
  longer-IsGroup n [] e g = absurd g.ink
  longer-IsGroup n (d ∷ group) e g = record {
    rest = g.rest;
    parts = ap (c ∷◌) g.parts;
    blank = g.blank;
    characters = (e, g.characters);
    short = omega (arith, g.short);
    ink = g.ink;
  }

  -- The longer group, if there is one, or the last character alone.
  pattern_step-IsGroup :
      (n : ℕ) (r : Option Text) (b : Text)
      → ((g : Text) → r ≡ some g → (is_boundary c ≡ true) × IsGroup n s g)
      → elim r [ none ↦ last_alone | some g ↦ some (c ∷ g) ] ≡ some b
      → IsGroup (suc n) (c ∷ s) b
  pattern_step-IsGroup n none b groups h = last_alone-IsGroup (suc n) b h
  pattern_step-IsGroup n (some g) b groups h =
      let (e, group) = groups g refl in
      subst (IsGroup (suc n) (c ∷ s)) (some_inj.0 h) (longer-IsGroup n g e group)

  pattern_step-ne-none :
      (r : Option Text)
      → last_alone ≢ none
      → elim r [ none ↦ last_alone | some g ↦ some (c ∷ g) ] ≢ none
  pattern_step-ne-none none found = found
  pattern_step-ne-none (some g) found = λ e. cc

  pattern_step-longer :
      (r : Option Text) (g : Text)
      → r ≡ some g
      → elim r [ none ↦ last_alone | some g' ↦ some (c ∷ g') ] ≢ none
  pattern_step-longer none g h = λ e. cc
  pattern_step-longer (some g') g h = λ e. cc

  last_alone-ne-none : is_boundary_no_space c ≡ true → blank_to_end s ≡ true → last_alone ≢ none
  unfolding last_alone
  last_alone-ne-none ink blank = rw (ink, blank) (λ e. cc)

pub guarded_match :
    {A : Type 0} (b : Bool) (r : Option A) (a : A)
    → (if b then r else none) ≡ some a
    → (b ≡ true) × (r ≡ some a)
guarded_match true r a h = (refl, h)
guarded_match false r a h = cc

pub match_group-IsGroup : (n : ℕ) (s b : Text) → match_group n s ≡ some b → IsGroup n s b
unfolding match_group last_alone
match_group-IsGroup n [] b h = cc
match_group-IsGroup zero (c ∷ s) b h = last_alone-IsGroup c s zero b h
match_group-IsGroup (suc n) (c ∷ s) b h =
    pattern_step-IsGroup c s n (if is_boundary c then match_group n s else none) b
      (λ g e.
        let (inside, group) = guarded_match (is_boundary c) (match_group n s) g e in
        (inside, match_group-IsGroup n s g group))
      h

pub some_of_ne_none : {A : Type 0} (r : Option A) → r ≢ none → (a : A) × (r ≡ some a)
some_of_ne_none none h = absurd (h refl)
some_of_ne_none (some a) h = (a, refl)

pub match_group-ne-none :
    (n : ℕ) (b rest : Text)
    → AllBoundary b
    → length b ≤ suc n
    → EndsInk b
    → blank_to_end rest ≡ true
    → match_group n (b ++ rest) ≢ none
unfolding match_group last_alone
match_group-ne-none n [] rest characters short ink blank = absurd ink
match_group-ne-none zero (c ∷ []) rest characters short ink blank =
    last_alone-ne-none c rest ink blank
match_group-ne-none (suc n) (c ∷ []) rest characters short ink blank =
    pattern_step-ne-none c rest _ (last_alone-ne-none c rest ink blank)
match_group-ne-none zero (c ∷ d ∷ b) rest characters short ink blank = absurd (omega arith)
match_group-ne-none (suc n) (c ∷ d ∷ b) rest characters short ink blank =
    let (g, e) =
      some_of_ne_none (match_group n (d ∷ b ++ rest))
        (match_group-ne-none n (d ∷ b) rest characters.1 (omega arith) ink blank) in
    pattern_step-longer c (d ∷ b ++ rest) _ g (rw characters.0 e)
