-- ===== src/AjaxForm/LineEnds.antt =====
-- The line ends of a multipart body.
use bluetooth_autonomous_car.Prelude.{
  ℕ, ◌≡◌, ◌≢◌, refl, ap, arith, false, [], ◌∷◌, ◌==◌, if◌then◌else◌, All, Bool-cases, inl, inr,
}
use bluetooth_autonomous_car.Text.{Text}
use bluetooth_autonomous_car.AjaxForm.{with_carriage_returns}

-- Each line feed comes after a carriage return; the first argument is what comes before the text.
abbrev pub HasLineEnds : ℕ → Text → Type 0
HasLineEnds before [] = Unit
HasLineEnds before (c ∷ s) = (c ≡ 10 → before ≡ 13) × HasLineEnds c s

abbrev pub NoReturns : Text → Type 0
NoReturns s = All (λ c. c ≢ 13) s

-- The text less its carriage returns.
abbrev pub without_returns : Text → Text
without_returns [] = []
without_returns (c ∷ s) = if c == 13 then without_returns s else c ∷ without_returns s

pub with_carriage_returns-HasLineEnds :
    (before : ℕ) (s : Text) → HasLineEnds before (with_carriage_returns s)
unfolding with_carriage_returns
with_carriage_returns-HasLineEnds before [] = tt
with_carriage_returns-HasLineEnds before (c ∷ s) = elim (Bool-cases (c == 10)) [
  | inl feed ↦ rw feed ((λ e. omega arith), ((λ e. refl), with_carriage_returns-HasLineEnds 10 s))
  | inr other ↦ rw other ((λ e. ground arith), with_carriage_returns-HasLineEnds c s)
]

pub without_returns-with_carriage_returns :
    (s : Text) → NoReturns s → without_returns (with_carriage_returns s) ≡ s
unfolding with_carriage_returns
without_returns-with_carriage_returns [] h = refl
without_returns-with_carriage_returns (c ∷ s) h = elim (Bool-cases (c == 10)) [
  | inl feed ↦
      let e : c ≡ 10 = ground arith in
      rw feed (rw e (ap (10 ∷◌) (without_returns-with_carriage_returns s h.1)))
  | inr other ↦
      let ne : (c == 13) ≡ false = ground (arith, h.0) in
      rw other (rw ne (ap (c ∷◌) (without_returns-with_carriage_returns s h.1)))
]
