-- ===== src/Text.antt =====
-- JavaScript's strings, as lists of UTF-16 code units, with the methods that the scripts call:
-- numbers as text and back, `split` and `replace` with a pattern, `trim`, `indexOf`. They belong to
-- the language's library, so no definition here maps to a file of the repository.
pub mod Decimal
pub mod Split
pub mod Same
pub mod Occurs
use Prim.Native.Char.{code}
use Prim.Native.String.{String}
use bluetooth_autonomous_car.Prelude.{
  ℕ, zero, suc, ◌+◌, ◌-◌, ◌*◌, ◌/◌, ◌%◌, Bool, true, false, ◌&&◌, ◌||◌, List, [], ◌∷◌, ◌++◌, Option,
  none, some, ◌==◌, ltb, leb, if◌then◌else◌, length,
}

abbrev pub Text : Type 0
Text = List ℕ

abbrev pub codes : String → Text
codes String.[] = []
codes (String.◌∷◌ c s) = code c ∷ codes s

-- Whether a string counts as false.
abbrev pub is_empty : Text → Bool
is_empty [] = true
is_empty (c ∷ s) = false

-- `===` of two strings.
abbrev pub same_text : Text → Text → Bool
same_text [] [] = true
same_text (a ∷ s) (b ∷ t) = (a == b) && same_text s t
same_text _ _ = false

-- The loop of the conversion of a number to text, from its last digit.
pub dec_from : ℕ → ℕ → Text → Text
dec_from zero n acc = acc
dec_from (suc fuel) n acc =
    let rest = dec_from fuel (n / 10) ((48 + n % 10) ∷ acc) in
    if ltb n 10 then (48 + n) ∷ acc else rest

-- `'' + n`: a number has fewer digits than n + 1, so the fuel is enough.
pub dec : ℕ → Text
unfolding dec_from
dec n = dec_from (suc n) n []

abbrev pub is_digit : ℕ → Bool
is_digit c = leb b'0' c && leb c b'9'

pub digits_value : ℕ → Text → Option ℕ
digits_value acc [] = some acc
digits_value acc (c ∷ rest) =
    let value = digits_value (acc * 10 + (c - 48)) rest in if is_digit c then value else none

-- The conversion of a string to a number: digits, or the empty string for 0. `none` is NaN. (Other
-- forms of numerals, with signs, fractions, exponents or spaces, are not read.)
unfoldable pub to_number : Text → Option ℕ
unfolding digits_value
to_number s = digits_value 0 s

-- `split` with a pattern that matches a single code unit.
pub cons_first : ℕ → List Text → List Text
cons_first c [] = (c ∷ []) ∷ []
cons_first c (s ∷ rest) = (c ∷ s) ∷ rest

unfoldable pub split : (ℕ → Bool) → Text → List Text
unfolding cons_first
split separates [] = [] ∷ []
split separates (c ∷ rest) =
    let later = split separates rest in if separates c then [] ∷ later else cons_first c later

-- The white space of `\s`.
unfoldable pub is_space : ℕ → Bool
is_space c =
    leb 9 c && leb c 13
    || (c == 32)
    || (c == 160)
    || (c == 5760)
    || leb 8192 c && leb c 8202
    || (c == 8232)
    || (c == 8233)
    || (c == 8239)
    || (c == 8287)
    || (c == 12288)
    || (c == 65279)

abbrev pub starts_with_one : (ℕ → Bool) → Text → Bool
starts_with_one test [] = false
starts_with_one test (c ∷ rest) = test c

-- `split(/\s+/)`: each longest run of white space separates once.
unfoldable pub split_runs : (ℕ → Bool) → Text → List Text
unfolding cons_first
split_runs separates [] = [] ∷ []
split_runs separates (c ∷ rest) =
    let later = split_runs separates rest in
    if separates c
    then (if starts_with_one separates rest then later else [] ∷ later)
    else cons_first c later

-- `startsWith`, and `indexOf(t) !== -1`.
unfoldable pub starts_with : Text → Text → Bool
starts_with [] s = true
starts_with (a ∷ t) [] = false
starts_with (a ∷ t) (c ∷ s) = (a == c) && starts_with t s

unfoldable pub includes : Text → Text → Bool
unfolding starts_with
includes t [] = starts_with t []
includes t (c ∷ s) = starts_with t (c ∷ s) || includes t s

-- `split` by a text: `n` is how much of the text is left to skip.
split_skip : Text → ℕ → Text → List Text
unfolding cons_first starts_with
split_skip sep n [] = [] ∷ []
split_skip sep (suc n) (c ∷ s) = split_skip sep n s
split_skip sep zero (c ∷ s) =
    let after = split_skip sep (length sep - 1) s in
    let next = cons_first c (split_skip sep 0 s) in
    if starts_with sep (c ∷ s) then [] ∷ after else next

unfoldable pub split_text : Text → Text → List Text
unfolding split_skip
split_text sep s = split_skip sep 0 s
