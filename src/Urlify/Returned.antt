-- ===== src/Urlify/Returned.antt =====
-- The text that `URLify` returns where Unicode is not allowed.
use bluetooth_autonomous_car.Prelude.{
  ℕ, ◌+◌, ◌<◌, ◌≤◌, ◌≡◌, ◌≢◌, ◌⊎◌, ◌++◌, Bool, true, false, ◌&&◌, [], ◌∷◌, leb, map, length, All,
  if◌then◌else◌,
}
use bluetooth_autonomous_car.Text.{Text, is_space}
use bluetooth_autonomous_car.Urlify.{is_kept}
use bluetooth_autonomous_car.Urlify.Letters.{letters}

-- `toLowerCase` of an ASCII letter.
abbrev pub ascii_lower : ℕ → ℕ
ascii_lower c = if leb b'A' c && leb c b'Z' then c + 32 else c

-- `toLowerCase` of a text in ASCII.
abbrev pub LowersAscii : (Text → Text) → Type 0
LowersAscii lower = (s : Text) → All (λ c. c < 128) s → lower s ≡ map ascii_lower s

-- A hyphen, `_`, a digit or a small letter.
abbrev IsSlugChar : ℕ → Type 0
IsSlugChar c = (c ≡ b'-') ⊎ ((c ≡ b'_') ⊎ (((b'0' ≤ c) × (c ≤ b'9')) ⊎ ((b'a' ≤ c) × (c ≤ b'z'))))

abbrev NoTwins : Text → Type 0
NoTwins [] = Unit
NoTwins (a ∷ []) = Unit
NoTwins (a ∷ b ∷ s) = ¬ ((a ≡ b'-') × (b ≡ b'-')) × NoTwins (b ∷ s)

abbrev LastIsNo : ℕ → Text → Type 0
LastIsNo c [] = Unit
LastIsNo c (a ∷ []) = a ≢ c
LastIsNo c (a ∷ b ∷ s) = LastIsNo c (b ∷ s)

pub record IsSlug (num_chars : ℕ) (t : Text) : Type 0 where
  chars : All IsSlugChar t
  pub short : length t ≤ num_chars
  no_twins : NoTwins t
  pub last : LastIsNo b'-' t

module _ (letter : ℕ → Bool) where
  abbrev Kept : ℕ → Type 0
  Kept c = (is_kept false letter c ≡ true) × (is_space c ≡ false)

-- The letters of the text are the first of these, in small letters: all of them, unless the text is as long as
-- it may be but for one character.
abbrev pub HasLetters : ℕ → Text → Text → Type 0
HasLetters num_chars source t =
    (rest : Text) × (map ascii_lower (letters source) ≡ letters t ++ rest)
    × ((rest ≡ []) ⊎ (num_chars ≤ length t + 1))
