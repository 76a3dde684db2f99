-- ===== src/Csrf/Cookies.antt =====
-- `getCookie` looks a name up among the cookies.
use mathlib.Core.List.{nil≢cons}
use bluetooth_autonomous_car.Prelude.{
  ℕ, suc, ◌≡◌, ◌≢◌, refl, ap, sym, ◌∙◌, arith, false, ◌&&◌, List, [], ◌∷◌, ◌++◌, Option, none, some,
  ◌==◌, if◌then◌else◌, take, drop, length, All, All-append, Bool-cases, inl, inr,
}
use bluetooth_autonomous_car.Text.{Text, same_text, split}
use bluetooth_autonomous_car.Text.Same.{eq_of_same_text}
use bluetooth_autonomous_car.Text.Split.{split_one, split-append}
use bluetooth_autonomous_car.Csrf.{semicolon, found, find_cookie, get_cookie}

-- A cookie's name and its encoded value.
abbrev pub Pair : Type 0
Pair = Text × Text

abbrev pub pair_text : Pair → Text
pair_text p = p.0 ++ (b'=' ∷ p.1)

-- The text of `document.cookie`, after what comes before its first pair.
abbrev pub cookie_text : Text → Pair → List Pair → Text
cookie_text lead p [] = lead ++ pair_text p
cookie_text lead p (q ∷ pairs) = (lead ++ pair_text p) ++ (b';' ∷ cookie_text (b' ' ∷ []) q pairs)

-- The first cookie with the name.
abbrev pub lookup : Text → List Pair → Option Text
lookup name [] = none
lookup name (p ∷ pairs) = if same_text p.0 name then some p.1 else lookup name pairs

-- No `=` and no `;` in a name, and no `;` in a value.
abbrev pub IsName : Text → Type 0
IsName s = All (λ c. (c == b'=') ≡ false) s

abbrev pub IsPlain : Text → Type 0
IsPlain s = All (λ c. semicolon c ≡ false) s

abbrev pub IsCookie : Pair → Type 0
IsCookie p = IsName p.0 × IsPlain p.0 × IsPlain p.1

-- `trim` takes the space before a cookie away, and leaves the cookie.
abbrev pub Trims : (Text → Text) → Pair → Type 0
Trims trim p = (trim (pair_text p) ≡ pair_text p) × (trim (b' ' ∷ pair_text p) ≡ pair_text p)

abbrev looked_up : (Text → Option Text) → Option Text → Option (Option Text)
looked_up decode none = some none
looked_up decode (some v) = found (decode v)

-- The test of the loop compares the names.
same_text-take :
    (name n v : Text)
    → IsName name
    → IsName n
    → same_text (take (suc (length name)) (n ++ (b'=' ∷ v))) (name ++ (b'=' ∷ []))
      ≡ same_text n name
same_text-take [] [] v h h' = refl
same_text-take [] (a ∷ n) v h h' = rw h'.0 refl
same_text-take (b ∷ name) [] v h h' = rw (flip_eq b h.0) refl
  where
    flip_eq : (b : ℕ) → (b == 61) ≡ false → (61 == b) ≡ false
    flip_eq b h = ground arith
same_text-take (b ∷ name) (a ∷ n) v h h' = ap ((a == b) &&◌) (same_text-take name n v h.1 h'.1)

drop-name : (n v : Text) → drop (suc (length n)) (n ++ (b'=' ∷ v)) ≡ v
drop-name [] v = refl
drop-name (a ∷ n) v = drop-name n v

abbrev parts : Text → Pair → List Pair → List Text
parts lead p [] = (lead ++ pair_text p) ∷ []
parts lead p (q ∷ pairs) = (lead ++ pair_text p) ∷ parts (b' ' ∷ []) q pairs

pair_text-IsPlain : (p : Pair) → IsCookie p → IsPlain (pair_text p)
pair_text-IsPlain p h = All-append _ p.0 (b'=' ∷ p.1) h.1 (refl, h.2)

split-cookie_text :
    (lead : Text) (p : Pair) (pairs : List Pair)
    → IsPlain lead
    → All IsCookie (p ∷ pairs)
    → split semicolon (cookie_text lead p pairs) ≡ parts lead p pairs
split-cookie_text lead p [] hl h =
    split_one semicolon (lead ++ pair_text p) (All-append _ lead _ hl (pair_text-IsPlain p h.0))
split-cookie_text lead p (q ∷ pairs) hl h =
    split-append semicolon (lead ++ pair_text p) b';' _
      (All-append _ lead _ hl (pair_text-IsPlain p h.0)) refl
    ∙ ap ((lead ++ pair_text p) ∷◌) (split-cookie_text (b' ' ∷ []) q pairs (refl, tt) h.1)

not_nil : (s : Text) (c : ℕ) (t : Text) → s ++ (c ∷ t) ≢ []
not_nil [] c t e = nil≢cons (sym e)
not_nil (a ∷ s) c t e = nil≢cons (sym e)

some_text : (p : Pair) (pairs : List Pair) → cookie_text [] p pairs ≢ []
some_text p [] = not_nil p.0 b'=' p.1
some_text p (q ∷ pairs) = not_nil (pair_text p) b';' _

module _ (trim : Text → Text) (decode : Text → Option Text) (name : Text)
    (plain : IsName name) where
  one_cookie :
      (p : Pair) (cookie : Text) (later : Option (Option Text)) (rest : List Pair)
      → IsName p.0
      → cookie ≡ pair_text p
      → later ≡ looked_up decode (lookup name rest)
      → (if same_text (take (suc (length name)) cookie) (name ++ (b'=' ∷ []))
          then found (decode (drop (suc (length name)) cookie))
          else later)
        ≡ looked_up decode (lookup name (p ∷ rest))
  one_cookie p cookie later rest hp e el =
      rw (e, same_text-take name p.0 p.1 plain hp)
        (elim (Bool-cases (same_text p.0 name)) [
          | inl same ↦ rw same (
              ap (λ n. found (decode (drop (suc (length n)) (pair_text p))))
                (sym (eq_of_same_text p.0 name same))
              ∙ ap (λ v. found (decode v)) (drop-name p.0 p.1))
          | inr other ↦ rw other el
        ])

  find_cookie-parts :
      (lead : Text) (p : Pair) (pairs : List Pair)
      → All IsCookie (p ∷ pairs)
      → trim (lead ++ pair_text p) ≡ pair_text p
      → All (Trims trim) pairs
      → find_cookie trim decode name (parts lead p pairs)
        ≡ looked_up decode (lookup name (p ∷ pairs))
  unfolding find_cookie
  find_cookie-parts lead p [] h t ts = one_cookie p _ (some none) [] h.0.0 t refl
  find_cookie-parts lead p (q ∷ pairs) h t ts =
      one_cookie p _ _ (q ∷ pairs) h.0.0 t (find_cookie-parts (b' ' ∷ []) q pairs h.1 ts.0.1 ts.1)

  -- From a text of cookies `name=value`, with a semicolon and a space between them, `getCookie` returns
  -- the decoded value of the first cookie that has the name, null if none has it, and fails if the
  -- decoding of that value fails. (Names hold no `=` or `;`, values no `;`, and `trim` takes the space
  -- before a cookie away.)
  pub get_cookie_lem :
      (p : Pair) (pairs : List Pair)
      → All IsCookie (p ∷ pairs)
      → All (Trims trim) (p ∷ pairs)
      → get_cookie trim decode name (cookie_text [] p pairs)
        ≡ looked_up decode (lookup name (p ∷ pairs))
  unfolding get_cookie
  get_cookie_lem p pairs h ts = not_empty (cookie_text [] p pairs) refl (
      ap (find_cookie trim decode name) (split-cookie_text [] p pairs tt h)
      ∙ find_cookie-parts [] p pairs h ts.0.0 ts.1)
    where
      not_empty :
          (s : Text)
          → s ≡ cookie_text [] p pairs
          → find_cookie trim decode name (split semicolon (cookie_text [] p pairs))
            ≡ looked_up decode (lookup name (p ∷ pairs))
          → get_cookie trim decode name (cookie_text [] p pairs)
            ≡ looked_up decode (lookup name (p ∷ pairs))
      not_empty [] e q = absurd (some_text p pairs (sym e))
      not_empty (c ∷ s) e q =
          ap (get_cookie trim decode name) (sym e)
          ∙ ap (λ x. find_cookie trim decode name (split semicolon x)) e
          ∙ q
