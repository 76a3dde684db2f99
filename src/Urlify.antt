-- ===== src/Urlify.antt =====
-- static/admin/js/urlify.js: `URLify`. `letter_or_number` is the class `[\p{L}\p{N}]` of XRegExp, and
-- `lower` is `toLowerCase`. The words are removed as the pattern `\b(...)\b` finds them: the longest
-- runs of `\w` that are a word of the list in any case. (The string is in ASCII there.)
pub mod Slug
pub mod Letters
pub mod Returned
pub mod Examples
use bluetooth_autonomous_car.Prelude.{
  ℕ, zero, suc, ◌+◌, Bool, true, false, not, ◌&&◌, ◌||◌, List, [], ◌∷◌, ◌++◌, ◌==◌, leb, ltb,
  if◌then◌else◌, take,
}
use bluetooth_autonomous_car.Text.{Text, codes, same_text, is_digit, is_space}
use bluetooth_autonomous_car.Downcode.{downcode}

abbrev pub is_hyphen : ℕ → Bool
is_hyphen c = c == b'-'

-- `\w`.
pub is_word : ℕ → Bool
is_word c = is_digit c || (leb b'A' c && leb c b'Z') || (leb b'a' c && leb c b'z') || (c == b'_')

-- `/[^\u0000-\u007f]/.test(s)`.
pub has_unicode_chars : Text → Bool
has_unicode_chars [] = false
has_unicode_chars (c ∷ s) = leb 128 c || has_unicode_chars s

pub remove_list : List Text
remove_list =
    codes "a"
    ∷ codes "an"
    ∷ codes "as"
    ∷ codes "at"
    ∷ codes "before"
    ∷ codes "but"
    ∷ codes "by"
    ∷ codes "for"
    ∷ codes "from"
    ∷ codes "is"
    ∷ codes "in"
    ∷ codes "into"
    ∷ codes "like"
    ∷ codes "of"
    ∷ codes "off"
    ∷ codes "on"
    ∷ codes "onto"
    ∷ codes "per"
    ∷ codes "since"
    ∷ codes "than"
    ∷ codes "the"
    ∷ codes "this"
    ∷ codes "that"
    ∷ codes "to"
    ∷ codes "up"
    ∷ codes "via"
    ∷ codes "with"
    ∷ []

pub lower_letter : ℕ → ℕ
lower_letter c = if leb b'A' c && leb c b'Z' then c + 32 else c

-- The same text in any case.
pub same_letters : Text → Text → Bool
unfolding lower_letter
same_letters [] [] = true
same_letters (a ∷ s) (b ∷ t) = (lower_letter a == lower_letter b) && same_letters s t
same_letters _ _ = false

pub is_listed : List Text → Text → Bool
unfolding same_letters
is_listed [] s = false
is_listed (w ∷ words) s = same_letters w s || is_listed words s

-- The run of `\w` before what is left of the text.
pub remove_words : Text → Text → Text
unfolding is_word is_listed remove_list
remove_words run [] = if is_listed remove_list run then [] else run
remove_words run (c ∷ s) =
    let longer = remove_words (run ++ (c ∷ [])) s in
    let after = c ∷ remove_words [] s in
    if is_word c then longer else (if is_listed remove_list run then after else run ++ after)

-- `replace` of the characters outside a class.
pub keep_chars : (ℕ → Bool) → Text → Text
keep_chars keeps [] = []
keep_chars keeps (c ∷ s) = if keeps c then c ∷ keep_chars keeps s else keep_chars keeps s

-- The two classes, `[-\w\s]` and `[-_\p{L}\p{N}\s]`.
pub is_kept : Bool → (ℕ → Bool) → ℕ → Bool
unfolding is_word
is_kept allow_unicode letter_or_number c =
    if allow_unicode
    then is_hyphen c || (c == b'_') || letter_or_number c || is_space c
    else is_hyphen c || is_word c || is_space c

-- `replace` of the characters at the start, and at the end.
pub drop_start : (ℕ → Bool) → Text → Text
drop_start test [] = []
drop_start test (c ∷ s) = if test c then drop_start test s else c ∷ s

pub cons_unless : Bool → ℕ → Text → Text
cons_unless drops c [] = if drops then [] else c ∷ []
cons_unless drops c (a ∷ s) = c ∷ a ∷ s

pub drop_end : (ℕ → Bool) → Text → Text
unfolding cons_unless
drop_end test [] = []
drop_end test (c ∷ s) = cons_unless (test c) c (drop_end test s)

-- `/[-\s]+/g`: each run becomes one hyphen. `within` tells whether one has been written for this run.
pub hyphenate : Bool → Text → Text
hyphenate within [] = []
hyphenate within (c ∷ s) =
    let separated = hyphenate true s in
    if is_hyphen c || is_space c
    then (if within then separated else b'-' ∷ separated)
    else c ∷ hyphenate false s

-- The last lines of the function, before the conversion to lower case.
pub slug : Bool → (ℕ → Bool) → ℕ → Text → Text
unfolding is_kept keep_chars drop_start drop_end hyphenate
slug allow_unicode letter_or_number num_chars s =
    let kept = keep_chars (is_kept allow_unicode letter_or_number) s in
    drop_end is_hyphen
      (take num_chars (hyphenate false (drop_end is_space (drop_start is_space kept))))

-- The lines before.
pub prepared : Bool → Text → Text
unfolding downcode has_unicode_chars remove_words
prepared allow_unicode s =
    let t = if allow_unicode then s else downcode s in
    if has_unicode_chars t then t else remove_words [] t

unfoldable pub urlify : (Text → Text) → (ℕ → Bool) → Text → ℕ → Bool → Text
unfolding prepared slug
urlify lower letter_or_number s num_chars allow_unicode =
    lower (slug allow_unicode letter_or_number num_chars (prepared allow_unicode s))
