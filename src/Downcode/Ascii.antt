-- ===== src/Downcode/Ascii.antt =====
-- Letters that `downcode` leaves, and letters that it spells in ASCII.
use bluetooth_autonomous_car.Prelude.{
  ℕ, ◌<◌, ◌≡◌, refl, ap, ap₂, arith, Bool, true, false, ◌&&◌, List, [], ◌∷◌, ◌++◌, Option, none,
  some, ◌==◌, ltb, leb, All,
}
use bluetooth_autonomous_car.Text.{Text}
use bluetooth_autonomous_car.Downcode.{
  Entry, all_downcode_maps, find_entry, find_last, downcode_one, downcode,
}

abbrev is_ascii : ℕ → Bool
is_ascii c = ltb c 128

abbrev all_ascii : Text → Bool
all_ascii [] = true
all_ascii (c ∷ s) = is_ascii c && all_ascii s

-- Keys beyond ASCII, values in ASCII.
abbrev good_map : List Entry → Bool
good_map [] = true
good_map (e ∷ m) = (leb 128 e.0 && all_ascii e.1) && good_map m

abbrev good_maps : List (List Entry) → Bool
good_maps [] = true
good_maps (m ∷ maps) = good_map m && good_maps maps

all_good : good_maps all_downcode_maps ≡ true
unfolding all_downcode_maps
all_good = refl

and_true : (a b : Bool) → (a && b) ≡ true → (a ≡ true) × (b ≡ true)
and_true a b h = ground arith

key_ne : (k c : ℕ) → leb 128 k ≡ true → c < 128 → (k == c) ≡ false
key_ne k c h l = ground arith

find_entry-ascii : (c : ℕ) (m : List Entry) → c < 128 → good_map m ≡ true → find_entry c m ≡ none
unfolding find_entry
find_entry-ascii c [] l h = refl
find_entry-ascii c (e ∷ m) l h =
    let (he, hm) = and_true (leb 128 e.0 && all_ascii e.1) (good_map m) h in
    rw (key_ne e.0 c (and_true (leb 128 e.0) (all_ascii e.1) he).0 l) (find_entry-ascii c m l hm)

find_last-ascii :
    (c : ℕ) (maps : List (List Entry)) → c < 128 → good_maps maps ≡ true → find_last c maps ≡ none
unfolding find_last
find_last-ascii c [] l h = refl
find_last-ascii c (m ∷ maps) l h =
    let (hm, hs) = and_true (good_map m) (good_maps maps) h in
    rw (find_last-ascii c maps l hs) (find_entry-ascii c m l hm)

downcode_one-ascii : (c : ℕ) → c < 128 → downcode_one c ≡ c ∷ []
unfolding downcode_one
downcode_one-ascii c h =
    ap (λ (r : Option Text). elim r [ none ↦ c ∷ [] | some t ↦ t ])
      (find_last-ascii c all_downcode_maps h all_good)

-- A text in ASCII is left as it is by `downcode`: no map has an ASCII key.
pub downcode-ascii : (s : Text) → All (λ c. c < 128) s → downcode s ≡ s
unfolding downcode
downcode-ascii [] h = refl
downcode-ascii (c ∷ s) h = ap₂ ◌++◌ (downcode_one-ascii c h.0) (downcode-ascii s h.1)
