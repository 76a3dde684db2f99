-- ===== src/Text/Decimal.antt =====
-- A number's text reads back as the number, and holds digits only.
use mathlib.Core.List.{nil≢cons}
use bluetooth_autonomous_car.Prelude.{
  ℕ, zero, suc, ◌+◌, ◌-◌, ◌*◌, ◌/◌, ◌%◌, ◌≤◌, ◌<◌, ◌≡◌, ◌≢◌, refl, ap, sym, ◌∙◌, dec_lt, lt→ltb,
  arith, true, [], ◌∷◌, some, All,
}
use bluetooth_autonomous_car.Text.{Text, dec_from, dec, digits_value, to_number, is_digit}

dec_from_last : (fuel n : ℕ) (acc : Text) → n < 10 → dec_from (suc fuel) n acc ≡ (48 + n) ∷ acc
unfolding dec_from
dec_from_last fuel n acc h = rw (lt→ltb n 10 h)

dec_from_more :
    (fuel n : ℕ) (acc : Text)
    → 10 ≤ n
    → dec_from (suc fuel) n acc ≡ dec_from fuel (n / 10) ((48 + n % 10) ∷ acc)
unfolding dec_from
dec_from_more fuel n acc h = ground arith

digit_is_digit : (d : ℕ) → d < 10 → is_digit (48 + d) ≡ true
digit_is_digit d h = ground arith

digits_value-digit :
    (a d : ℕ) (acc : Text)
    → d < 10
    → digits_value a ((48 + d) ∷ acc) ≡ digits_value (a * 10 + d) acc
unfolding digits_value
digits_value-digit a d acc h =
    rw (digit_is_digit d h) (ap (λ n. digits_value (a * 10 + n) acc) (omega arith))

digits_value-first :
    (d : ℕ) (acc : Text) → d < 10 → digits_value 0 ((48 + d) ∷ acc) ≡ digits_value d acc
digits_value-first d acc h =
    digits_value-digit 0 d acc h ∙ ap (λ n. digits_value n acc) (omega arith)

digits_value-dec_from :
    (fuel n : ℕ) (acc : Text) → n < fuel → digits_value 0 (dec_from fuel n acc) ≡ digits_value n acc
digits_value-dec_from zero n acc h = absurd (omega arith)
digits_value-dec_from (suc fuel) n acc h = elim (dec_lt n 10) [
  | yes p ↦ rw (dec_from_last fuel n acc p) (digits_value-first n acc p)
  | no p ↦
      ap (digits_value 0) (dec_from_more fuel n acc (omega arith))
      ∙ digits_value-dec_from fuel (n / 10) ((48 + n % 10) ∷ acc) (omega arith)
      ∙ digits_value-digit (n / 10) (n % 10) acc (omega arith)
      ∙ ap (λ m. digits_value m acc) (omega arith)
]

pub to_number-dec : (n : ℕ) → to_number (dec n) ≡ some n
unfolding to_number dec
to_number-dec n = digits_value-dec_from (suc n) n [] (omega arith)

pub to_number-cons_zero : (s : Text) → to_number (48 ∷ s) ≡ to_number s
unfolding to_number
to_number-cons_zero s = refl

abbrev pub IsNumeral : Text → Type 0
IsNumeral s = All (λ c. is_digit c ≡ true) s

dec_from-IsNumeral : (fuel n : ℕ) (acc : Text) → IsNumeral acc → IsNumeral (dec_from fuel n acc)
unfolding dec_from
dec_from-IsNumeral zero n acc h = h
dec_from-IsNumeral (suc fuel) n acc h = elim (dec_lt n 10) [
  | yes p ↦ rw (dec_from_last fuel n acc p) (digit_is_digit n p, h)
  | no p ↦
      rw (dec_from_more fuel n acc (omega arith))
        (dec_from-IsNumeral fuel (n / 10) _ (digit_is_digit (n % 10) (omega arith), h))
]

pub dec-IsNumeral : (n : ℕ) → IsNumeral (dec n)
unfolding dec
dec-IsNumeral n = dec_from-IsNumeral (suc n) n [] tt

dec_from_four :
    (fuel n : ℕ)
    → 1000 ≤ n
    → n < 10000
    → dec_from (suc (suc (suc (suc fuel)))) n []
      ≡ (48 + n / 10 / 10 / 10) ∷ (48 + n / 10 / 10 % 10) ∷ (48 + n / 10 % 10) ∷ (48 + n % 10) ∷ []
dec_from_four fuel n lo hi =
    dec_from_more (suc (suc (suc fuel))) n [] (omega arith)
    ∙ dec_from_more (suc (suc fuel)) (n / 10) _ (omega arith)
    ∙ dec_from_more (suc fuel) (n / 10 / 10) _ (omega arith)
    ∙ dec_from_last fuel (n / 10 / 10 / 10) _ (omega arith)

-- The digits of a number from 1000 to 9999.
pub dec_four :
    (n : ℕ)
    → 1000 ≤ n
    → n < 10000
    → dec n
      ≡ (48 + n / 10 / 10 / 10) ∷ (48 + n / 10 / 10 % 10) ∷ (48 + n / 10 % 10) ∷ (48 + n % 10) ∷ []
unfolding dec
dec_four n lo hi = ap (λ f. dec_from f n []) enough ∙ dec_from_four (n - 3) n lo hi
  where
    enough : suc n ≡ suc (suc (suc (suc (n - 3))))
    enough = omega arith

-- Two digits read as a number below 100.
pub to_number_two :
    (a b : ℕ) → a < 10 → b < 10 → to_number ((48 + a) ∷ (48 + b) ∷ []) ≡ some (a * 10 + b)
unfolding to_number digits_value
to_number_two a b ha hb = digits_value-first a ((48 + b) ∷ []) ha ∙ digits_value-digit a b [] hb

dec_from-some : (fuel n a : ℕ) (acc : Text) → dec_from fuel n (a ∷ acc) ≢ []
unfolding dec_from
dec_from-some zero n a acc e = nil≢cons (sym e)
dec_from-some (suc fuel) n a acc e = elim (dec_lt n 10) [
  | yes p ↦ nil≢cons (sym (sym (dec_from_last fuel n (a ∷ acc) p) ∙ e))
  | no p ↦
      dec_from-some fuel (n / 10) (48 + n % 10) (a ∷ acc)
        (sym (dec_from_more fuel n (a ∷ acc) (omega arith)) ∙ e)
]

-- A number has at least one digit.
pub dec-some : (n : ℕ) → dec n ≢ []
unfolding dec
dec-some n e = elim (dec_lt n 10) [
  | yes p ↦ nil≢cons (sym (sym (dec_from_last n n [] p) ∙ e))
  | no p ↦ dec_from-some n (n / 10) (48 + n % 10) [] (sym (dec_from_more n n [] (omega arith)) ∙ e)
]
