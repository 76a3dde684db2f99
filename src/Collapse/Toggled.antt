-- ===== src/Collapse/Toggled.antt =====
-- The state of a fieldset after clicks on the links of the page.
use mathlib.Core.Option.{some_inj}
use bluetooth_autonomous_car.Prelude.{
  ℕ, zero, suc, ◌≡◌, ◌≢◌, refl, subst, ap, ◌∙◌, arith, Bool, true, false, not, List, [], ◌∷◌, ◌++◌,
  Option, none, some, get_elem?, All, ◌==◌, if◌then◌else◌, Bool-cases, inl, inr,
}
use bluetooth_autonomous_car.Text.{Text, codes, same_text}
use bluetooth_autonomous_car.Collapse.{
  PathNode, found, null, type_error, closest_elem, Fieldset, add_link, load, toggle_link, toggle_at,
  toggle_func,
}

-- A node that is neither a fieldset nor the body.
abbrev pub IsInner : PathNode → Type 0
IsInner n =
    (same_text n.node_name (codes "FIELDSET") ≡ false)
    × (same_text n.node_name (codes "BODY") ≡ false)

-- A click on the link of a fieldset: the nodes from the link up to it, and those above it.
pub record Click : Type 0 where
  pub number : ℕ
  pub inner : List PathNode
  pub outer : List PathNode
  pub all_inner : All IsInner inner

abbrev pub the_fieldset : ℕ → PathNode
the_fieldset i = record { node_name = codes "FIELDSET"; fieldset = i }

abbrev pub path_of : Click → List PathNode
path_of c = c.inner ++ (the_fieldset c.number ∷ c.outer)

-- The search ends at the nearest fieldset, however deep the link is.
closest_found :
    (inner : List PathNode) (i : ℕ) (outer : List PathNode)
    → All IsInner inner
    → closest_elem (codes "FIELDSET") (inner ++ (the_fieldset i ∷ outer)) ≡ found (the_fieldset i)
unfolding closest_elem
closest_found [] i [] h = refl
closest_found [] i (n ∷ outer) h = refl
closest_found (n ∷ []) i outer h = rw (h.0.0) (closest_found [] i outer tt)
closest_found (n ∷ m ∷ inner) i outer h =
    rw (h.0.0, h.1.0.1) (closest_found (m ∷ inner) i outer h.1)

abbrev pub count : ℕ → List Click → ℕ
count i [] = 0
count i (c ∷ clicks) = if c.number == i then suc (count i clicks) else count i clicks

abbrev pub is_even : ℕ → Bool
is_even zero = true
is_even (suc n) = not (is_even n)

flipped : Bool → ℕ → Bool
flipped b n = if is_even n then b else not b

flipped-suc : (b : Bool) (n : ℕ) → flipped (not b) n ≡ flipped b (suc n)
unfolding flipped
flipped-suc b n = elim (Bool-cases (is_even n)) [
  | inl even ↦ rw even refl
  | inr odd ↦ rw odd (twice b)
]
  where
    twice : (b : Bool) → not (not b) ≡ b
    twice true = refl
    twice false = refl

module _ (gettext : Text → Text) where
  pub run : List Click → List Fieldset → Option (List Fieldset)
  run [] fieldsets = some fieldsets
  run (c ∷ clicks) fieldsets = elim (toggle_func gettext true (path_of c) fieldsets) [
    | none ↦ none
    | some fieldsets' ↦ run clicks fieldsets'
  ]

  -- The fieldset is collapsed or not, and its link offers the other.
  pub record HasState (collapsed : Bool) (i : ℕ) (fieldsets : List Fieldset) : Type 0 where
    pub fieldset : Fieldset
    pub there : get_elem? fieldsets i ≡ some fieldset
    pub state : fieldset.collapsed ≡ collapsed
    pub offers : fieldset.link ≡ some (gettext (if collapsed then codes "Show" else codes "Hide"))

  get_elem?-toggle_at_self :
      (i : ℕ) (fieldsets : List Fieldset) (f : Fieldset)
      → get_elem? fieldsets i ≡ some f
      → get_elem? (toggle_at gettext i fieldsets) i ≡ some (toggle_link gettext f)
  unfolding toggle_at
  get_elem?-toggle_at_self i [] f h = cc
  get_elem?-toggle_at_self zero (g ∷ fieldsets) f h =
      ap (λ x. some (toggle_link gettext x)) (some_inj.0 h)
  get_elem?-toggle_at_self (suc i) (g ∷ fieldsets) f h = get_elem?-toggle_at_self i fieldsets f h

  get_elem?-toggle_at_other :
      (i j : ℕ) (fieldsets : List Fieldset)
      → j ≢ i
      → get_elem? (toggle_at gettext j fieldsets) i ≡ get_elem? fieldsets i
  unfolding toggle_at
  get_elem?-toggle_at_other i j [] h = refl
  get_elem?-toggle_at_other zero zero (g ∷ fieldsets) h = absurd (h refl)
  get_elem?-toggle_at_other (suc i) zero (g ∷ fieldsets) h = refl
  get_elem?-toggle_at_other zero (suc j) (g ∷ fieldsets) h = refl
  get_elem?-toggle_at_other (suc i) (suc j) (g ∷ fieldsets) h =
      get_elem?-toggle_at_other i j fieldsets (λ e. h (ap suc e))

  toggle_at-HasState_self :
      (b : Bool) (i : ℕ) (fieldsets : List Fieldset)
      → HasState b i fieldsets
      → HasState (not b) i (toggle_at gettext i fieldsets)
  unfolding toggle_link
  toggle_at-HasState_self true i fieldsets s = record {
    fieldset = toggle_link gettext s.fieldset;
    there = get_elem?-toggle_at_self i fieldsets s.fieldset s.there;
    state = rw s.state refl;
    offers = rw s.state refl;
  }
  toggle_at-HasState_self false i fieldsets s = record {
    fieldset = toggle_link gettext s.fieldset;
    there = get_elem?-toggle_at_self i fieldsets s.fieldset s.there;
    state = rw s.state refl;
    offers = rw s.state refl;
  }

  toggle_at-HasState_other :
      (b : Bool) (i j : ℕ) (fieldsets : List Fieldset)
      → j ≢ i
      → HasState b i fieldsets
      → HasState b i (toggle_at gettext j fieldsets)
  toggle_at-HasState_other b i j fieldsets h s = record {
    fieldset = s.fieldset;
    there = get_elem?-toggle_at_other i j fieldsets h ∙ s.there;
    state = s.state;
    offers = s.offers;
  }

  toggle_func_found :
      (c : Click) (fieldsets : List Fieldset)
      → toggle_func gettext true (path_of c) fieldsets ≡ some (toggle_at gettext c.number fieldsets)
  unfolding toggle_func
  toggle_func_found c fieldsets =
      ap
        (λ r. elim r [
          | found node ↦ some (toggle_at gettext node.fieldset fieldsets)
          | null ↦ none
          | type_error ↦ none
        ])
        (closest_found c.inner c.number c.outer c.all_inner)

  run-cons :
      (c : Click) (clicks : List Click) (fieldsets : List Fieldset)
      → run (c ∷ clicks) fieldsets ≡ run clicks (toggle_at gettext c.number fieldsets)
  unfolding run
  run-cons c clicks fieldsets =
      ap (λ r. elim r [ none ↦ none | some fieldsets' ↦ run clicks fieldsets' ])
        (toggle_func_found c fieldsets)

  run-HasState :
      (b : Bool) (i : ℕ) (clicks : List Click) (fieldsets : List Fieldset)
      → HasState b i fieldsets
      → (after : List Fieldset) × (run clicks fieldsets ≡ some after)
        × HasState (flipped b (count i clicks)) i after
  unfolding run flipped
  run-HasState b i [] fieldsets s = (fieldsets, refl, s)
  run-HasState b i (c ∷ clicks) fieldsets s = elim (Bool-cases (c.number == i)) [
    | inl here ↦
        let e : c.number ≡ i = ground arith in
        let (after, done, t) =
          run-HasState (not b) i clicks (toggle_at gettext c.number fieldsets)
            (rw e (toggle_at-HasState_self b i fieldsets s)) in
        (
          after,
          run-cons c clicks fieldsets ∙ done,
          rw here (subst (λ b'. HasState b' i after) (flipped-suc b (count i clicks)) t),
        )
    | inr there ↦
        let ne : c.number ≢ i = ground arith in
        let (after, done, t) =
          run-HasState b i clicks (toggle_at gettext c.number fieldsets)
            (toggle_at-HasState_other b i c.number fieldsets ne s) in
        (after, run-cons c clicks fieldsets ∙ done, rw there t)
  ]

  get_elem?-load :
      (fieldsets : List Fieldset) (i : ℕ) (f : Fieldset)
      → get_elem? fieldsets i ≡ some f
      → get_elem? (load gettext fieldsets) i ≡ some (add_link gettext f)
  unfolding load
  get_elem?-load [] i f h = cc
  get_elem?-load (g ∷ fieldsets) zero f h = ap (λ x. some (add_link gettext x)) (some_inj.0 h)
  get_elem?-load (g ∷ fieldsets) (suc i) f h = get_elem?-load fieldsets i f h

  -- A fieldset of the class `collapse` with no errors is collapsed when the page is loaded. After any
  -- clicks on links, each heard by a fieldset of a module and as deep in its fieldset as may be, it is collapsed just when an even
  -- number of them hit its own link, and the link then offers to show it, and to hide it otherwise.
  pub load-run :
      (clicks : List Click) (fieldsets : List Fieldset) (i : ℕ) (f : Fieldset)
      → get_elem? fieldsets i ≡ some f
      → f.collapsible ≡ true
      → f.errors ≡ false
      → (after : List Fieldset) × (run clicks (load gettext fieldsets) ≡ some after)
        × HasState (is_even (count i clicks)) i after
  unfolding add_link flipped
  load-run clicks fieldsets i f there collapsible no_errors =
      let (after, done, s) = run-HasState true i clicks (load gettext fieldsets) (record {
        fieldset = add_link gettext f;
        there = get_elem?-load fieldsets i f there;
        state = rw (collapsible, no_errors) refl;
        offers = rw (collapsible, no_errors) refl;
      }) in
      (after, done, subst (λ b. HasState b i after) (same (is_even (count i clicks))) s)
    where
      same : (b : Bool) → (if b then true else false) ≡ b
      same true = refl
      same false = refl
