-- ===== src/AjaxForm/Boundary.antt =====
-- The boundary that the script finds in a multipart body: its form, where it stands, and that it is
-- found if any line has one.
use mathlib.Core.Option.{some_inj}
use bluetooth_autonomous_car.Prelude.{
  ℕ, ◌≤◌, ◌≡◌, ◌≢◌, refl, ap, ap₂, subst, arith, Bool, true, ◌&&◌, [], ◌∷◌, ◌++◌, Option, none,
  some, length, if◌then◌else◌, ◌==◌,
}
use bluetooth_autonomous_car.Text.{Text, codes}
use bluetooth_autonomous_car.AjaxForm.{
  ends_a_line, blank_to_end, match_group, match_dashes, find_boundary,
}
use bluetooth_autonomous_car.AjaxForm.Group.{
  EndsInk, AllBoundary, and_true, guarded_match, match_group-IsGroup, some_of_ne_none,
  match_group-ne-none,
}

-- A line that holds two dashes and a boundary of at most 70 characters, none of them strange and the
-- last no space, with nothing but white space after them.
abbrev StartsLine : Bool → Text → Type 0
StartsLine at [] = at ≡ true
StartsLine at (c ∷ before) = StartsLine (ends_a_line c) before

pub record IsBoundaryLine (at : Bool) (s b : Text) : Type 0 where
  pub before : Text
  pub rest : Text
  pub parts : s ≡ before ++ (codes "--" ++ (b ++ rest))
  pub starts : StartsLine at before
  pub blank : blank_to_end rest ≡ true
  pub characters : AllBoundary b
  pub short : length b ≤ 70
  pub ink : EndsInk b

eq_of_== : (a b : ℕ) → (a == b) ≡ true → a ≡ b
eq_of_== a b h = ground arith

here_IsBoundaryLine : (s b : Text) → match_dashes s ≡ some b → IsBoundaryLine true s b
unfolding match_dashes
here_IsBoundaryLine [] b h = cc
here_IsBoundaryLine (x ∷ []) b h = cc
here_IsBoundaryLine (x ∷ y ∷ s) b h =
    let (dashes, group) = guarded_match ((x == b'-') && (y == b'-')) (match_group 69 s) b h in
    let (first, second) = and_true (x == b'-') (y == b'-') dashes in
    let g = match_group-IsGroup 69 s b group in
    record {
      before = [];
      rest = g.rest;
      parts = ap₂ ◌∷◌ (eq_of_== x _ first) (ap₂ ◌∷◌ (eq_of_== y _ second) g.parts);
      starts = refl;
      blank = g.blank;
      characters = g.characters;
      short = g.short;
      ink = g.ink;
    }

later_IsBoundaryLine :
    (at : Bool) (c : ℕ) (s b : Text)
    → IsBoundaryLine (ends_a_line c) s b
    → IsBoundaryLine at (c ∷ s) b
later_IsBoundaryLine at c s b l = record {
  before = c ∷ l.before;
  rest = l.rest;
  parts = ap (c ∷◌) l.parts;
  starts = l.starts;
  blank = l.blank;
  characters = l.characters;
  short = l.short;
  ink = l.ink;
}

by_match :
    (at : Bool) (c : ℕ) (s b : Text) (r later : Option Text)
    → ((g : Text) → r ≡ some g → (at ≡ true) × (match_dashes (c ∷ s) ≡ some g))
    → (later ≡ some b → IsBoundaryLine (ends_a_line c) s b)
    → elim r [ none ↦ later | some g ↦ some g ] ≡ some b
    → IsBoundaryLine at (c ∷ s) b
by_match at c s b none later matches ih e = later_IsBoundaryLine at c s b (ih e)
by_match at c s b (some g) later matches ih e =
    let (starts, m) = matches g refl in
    subst (IsBoundaryLine at (c ∷ s)) (some_inj.0 e) (rw starts (here_IsBoundaryLine (c ∷ s) g m))

-- What the script finds is the boundary of such a line.
pub find_boundary-IsBoundaryLine :
    (at : Bool) (s b : Text) → find_boundary at s ≡ some b → IsBoundaryLine at s b
unfolding find_boundary
find_boundary-IsBoundaryLine at [] b h = cc
find_boundary-IsBoundaryLine at (c ∷ s) b h =
    by_match at c s b (if at then match_dashes (c ∷ s) else none) (find_boundary (ends_a_line c) s)
      (λ g e. guarded_match at (match_dashes (c ∷ s)) g e)
      (find_boundary-IsBoundaryLine (ends_a_line c) s b) h

some_or_ne_none :
    (r later : Option Text) → later ≢ none → elim r [ none ↦ later | some g ↦ some g ] ≢ none
some_or_ne_none none later h = h
some_or_ne_none (some g) later h = λ e. cc

found_ne_none :
    (r later : Option Text) (g : Text)
    → r ≡ some g
    → elim r [ none ↦ later | some g' ↦ some g' ] ≢ none
found_ne_none none later g h = λ e. cc
found_ne_none (some g') later g h = λ e. cc

find_boundary-ne-none_at :
    (at : Bool) (before b rest : Text)
    → StartsLine at before
    → AllBoundary b
    → length b ≤ 70
    → EndsInk b
    → blank_to_end rest ≡ true
    → find_boundary at (before ++ (codes "--" ++ (b ++ rest))) ≢ none
unfolding find_boundary match_dashes
find_boundary-ne-none_at at [] b rest starts characters short ink blank =
    let (g, e) =
      some_of_ne_none (match_group 69 (b ++ rest))
        (match_group-ne-none 69 b rest characters short ink blank) in
    let here : (if at then match_group 69 (b ++ rest) else none) ≡ some g = rw starts e in
    found_ne_none _ _ g here
find_boundary-ne-none_at at (c ∷ before) b rest starts characters short ink blank =
    some_or_ne_none _ _
      (find_boundary-ne-none_at (ends_a_line c) before b rest starts characters short ink blank)

pub find_boundary-ne-none :
    (at : Bool) (s b : Text) → IsBoundaryLine at s b → find_boundary at s ≢ none
find_boundary-ne-none at s b l =
    rw l.parts
      (find_boundary-ne-none_at at l.before b l.rest l.starts l.characters l.short l.ink l.blank)
