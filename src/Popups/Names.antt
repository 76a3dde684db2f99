-- ===== src/Popups/Names.antt =====
-- The name of a popup window gives the id back that it was made from.
use mathlib.Core.List.{head-eq_of_cons-eq}
use bluetooth_autonomous_car.Prelude.{
  ℕ, ◌≡◌, ◌≢◌, refl, ap, sym, ◌∙◌, arith, Bool, true, false, ◌&&◌, ◌||◌, [], ◌∷◌, ◌++◌, ◌==◌,
  if◌then◌else◌, All, Bool-cases, inl, inr, ap₂,
}
use bluetooth_autonomous_car.Text.{Text, codes, starts_with, includes}
use bluetooth_autonomous_car.Popups.{
  replace_char, replace_text, dot_name, dash_name, id_to_windowname, windowname_to_id,
}

-- A text with its dashes spelled out, and its dots too or not.
spelled : Bool → Text → Text
spelled dots [] = []
spelled dots (c ∷ s) =
    if c == b'-'
    then dash_name ++ spelled dots s
    else if dots && (c == b'.')
    then dot_name ++ spelled dots s
    else c ∷ spelled dots s

id_to_windowname-spelled : (s : Text) → id_to_windowname s ≡ spelled true s
unfolding id_to_windowname replace_char spelled
id_to_windowname-spelled [] = refl
id_to_windowname-spelled (c ∷ s) = elim (Bool-cases (c == 46)) [
  | inl dot ↦ rw (dot, not_dash c dot) (ap (dot_name ++◌) (id_to_windowname-spelled s))
  | inr other ↦ elim (Bool-cases (c == 45)) [
    | inl dash ↦ rw (other, dash) (ap (dash_name ++◌) (id_to_windowname-spelled s))
    | inr plain ↦ rw (other, plain) (ap (c ∷◌) (id_to_windowname-spelled s))
  ]
]
  where
    not_dash : (c : ℕ) → (c == 46) ≡ true → (c == 45) ≡ false
    not_dash c h = ground arith

-- A word of letters is at the front of the text itself, if it is at that of the spelled text.
abbrev IsWord : Text → Type 0
IsWord t = All (λ a. (a == b'_') ≡ false) t

and_mono : (x y z : Bool) → (y ≡ true → z ≡ true) → (x && y) ≡ true → (x && z) ≡ true
and_mono true y z f h = f h
and_mono false y z f h = h

word_in_front :
    (dots : Bool) (t u s : Text)
    → IsWord t
    → starts_with (t ++ u) (spelled dots s) ≡ true
    → starts_with t s ≡ true
unfolding starts_with spelled
word_in_front dots [] u s w h = refl
word_in_front dots (a ∷ t) u [] w h = h
word_in_front dots (a ∷ t) u (c ∷ s) w h = elim (Bool-cases (c == 45)) [
  | inl dash ↦ cc (w.0, (rw dash at h))
  | inr other ↦ elim (Bool-cases (dots && (c == 46))) [
    | inl dot ↦ cc (w.0, (rw (other, dot) at h))
    | inr plain ↦ and_mono (a == c) _ _ (word_in_front dots t u s w.1) (rw (other, plain) at h)
  ]
]

or_parts : (x y : Bool) → (x || y) ≡ false → (x ≡ false) × (y ≡ false)
or_parts false y h = (refl, h)
or_parts true y h = cc

and_false : (x : Bool) → (x && false) ≡ false
and_false true = refl
and_false false = refl

-- The word does not occur in the text.
abbrev pub Lacks : Text → Text → Type 0
Lacks t s = includes t s ≡ false

Lacks-front : (t : Text) (s : Text) → Lacks t s → starts_with t s ≡ false
unfolding includes
Lacks-front t [] h = h
Lacks-front t (c ∷ s) h = (or_parts (starts_with t (c ∷ s)) _ h).0

Lacks-rest : (t : Text) (c : ℕ) (s : Text) → Lacks t (c ∷ s) → Lacks t s
unfolding includes
Lacks-rest t c s h = (or_parts (starts_with t (c ∷ s)) _ h).1

-- In a text that lacks the word, no spelled name can begin with a character of the text.
front_of_name :
    (dots : Bool) (t s : Text)
    → IsWord t
    → Lacks t s
    → starts_with (t ++ codes "__") (spelled dots s) ≡ false
front_of_name dots t s w h = elim (Bool-cases (starts_with (t ++ codes "__") (spelled dots s))) [
  | inl yes' ↦ cc (word_in_front dots t (codes "__") s w yes', Lacks-front t s h)
  | inr no' ↦ no'
]

front_of_name_from :
    (dots : Bool) (a : ℕ) (t s : Text)
    → IsWord (a ∷ t)
    → Lacks (a ∷ t) s
    → starts_with (b'_' ∷ ((a ∷ t) ++ codes "__")) (spelled dots s) ≡ false
unfolding starts_with spelled
front_of_name_from dots a t [] w h = refl
front_of_name_from dots a t (c ∷ s) w h = elim (Bool-cases (c == 45)) [
  | inl dash ↦ rw (dash, w.0) refl
  | inr other ↦ elim (Bool-cases (dots && (c == 46))) [
    | inl dot ↦ rw (other, dot, w.0) refl
    | inr plain ↦
        rw (other, plain)
          (ap (95 == c &&◌) (front_of_name dots (a ∷ t) s w (Lacks-rest (a ∷ t) c s h))
            ∙ and_false (95 == c))
  ]
]

abbrev pub dot_word : Text
dot_word = codes "dot"

abbrev pub dash_word : Text
dash_word = codes "dash"

dot-IsWord : IsWord dot_word
dot-IsWord = (refl, (refl, (refl, tt)))

dash-IsWord : IsWord dash_word
dash-IsWord = (refl, (refl, (refl, (refl, tt))))

eq_of_== : (a b : ℕ) → (a == b) ≡ true → a ≡ b
eq_of_== a b h = ground arith

dots_back :
    (s : Text) → Lacks dot_word s → replace_text dot_name b'.' 0 (spelled true s) ≡ spelled false s
unfolding replace_text spelled starts_with
dots_back [] h = refl
dots_back (c ∷ s) h = elim (Bool-cases (c == 45)) [
  | inl dash ↦
      rw
        (
          dash,
          front_of_name true dot_word s dot-IsWord (Lacks-rest dot_word c s h),
          front_of_name_from true 100 (codes "ot") s dot-IsWord (Lacks-rest dot_word c s h),
        )
        (ap (dash_name ++◌) (dots_back s (Lacks-rest dot_word c s h)))
  | inr other ↦ elim (Bool-cases (c == 46)) [
    | inl dot ↦
        rw (other, dot)
          (ap₂ ◌∷◌ (sym (eq_of_== c 46 dot)) (dots_back s (Lacks-rest dot_word c s h)))
    | inr plain ↦
        rw
          (
            other,
            plain,
            front_of_name_from true 100 (codes "ot") s dot-IsWord (Lacks-rest dot_word c s h),
            and_false (95 == c),
          )
          (ap (c ∷◌) (dots_back s (Lacks-rest dot_word c s h)))
  ]
]

dashes_back : (s : Text) → Lacks dash_word s → replace_text dash_name b'-' 0 (spelled false s) ≡ s
unfolding replace_text spelled starts_with
dashes_back [] h = refl
dashes_back (c ∷ s) h = elim (Bool-cases (c == 45)) [
  | inl dash ↦
      rw dash (ap₂ ◌∷◌ (sym (eq_of_== c 45 dash)) (dashes_back s (Lacks-rest dash_word c s h)))
  | inr plain ↦
      rw
        (
          plain,
          front_of_name_from false 100 (codes "ash") s dash-IsWord (Lacks-rest dash_word c s h),
          and_false (95 == c),
        )
        (ap (c ∷◌) (dashes_back s (Lacks-rest dash_word c s h)))
]

-- The window name of an id in which neither `dot` nor `dash` occurs gives the id back.
pub windowname_to_id-id_to_windowname :
    (s : Text) → Lacks dot_word s → Lacks dash_word s → windowname_to_id (id_to_windowname s) ≡ s
unfolding windowname_to_id
windowname_to_id-id_to_windowname s h h' =
    ap (λ x. replace_text dash_name b'-' 0 (replace_text dot_name b'.' 0 x))
      (id_to_windowname-spelled s)
    ∙ ap (replace_text dash_name b'-' 0) (dots_back s h)
    ∙ dashes_back s h'

-- An id that begins with `-dot-` is not given back.
pub windowname_to_id-dot :
    (s : Text) → windowname_to_id (id_to_windowname (codes "-dot-" ++ s)) ≢ codes "-dot-" ++ s
unfolding windowname_to_id id_to_windowname replace_text replace_char starts_with
windowname_to_id-dot s e = first_differs (head-eq_of_cons-eq e)
  where
    first_differs : ¬ (◌≡◌ {A = ℕ} 95 45)
    first_differs q = omega (arith, q)
