-- ===== src/Explorer/Named.antt =====
-- Parameters set by name: what holds of all of them, and which names have one.
use bluetooth_autonomous_car.Prelude.{
  ◌≡◌, refl, sym, subst, true, false, List, [], ◌∷◌, Option, none, some, inl, inr, All,
  if◌then◌else◌, Bool-cases,
}
use bluetooth_autonomous_car.Text.{Text, same_text}
use bluetooth_autonomous_car.Text.Same.{same_text_refl, eq_of_same_text}
use bluetooth_autonomous_car.Explorer.Forms.{
  Value, boolean, Params, has_param, set_param, set_if_read, add_unchecked,
}

module _ {Number Json : Type 0} where
  module _ (P : Text → Value Number Json → Type 0) where
    abbrev pub AllParams : Params Number Json → Type 0
    AllParams params = All (λ kv. P kv.0 kv.1) params

    pub set_param-AllParams :
        (key : Text) (value : Value Number Json) (params : Params Number Json)
        → P key value
        → AllParams params
        → AllParams (set_param key value params)
    unfolding set_param
    set_param-AllParams key value [] p h = (p, tt)
    set_param-AllParams key value ((k, v) ∷ params) p h = elim (Bool-cases (same_text k key)) [
      | inl same ↦ rw same (subst (λ s. P s value) (sym (eq_of_same_text k key same)) p, h.1)
      | inr other ↦ rw other (h.0, set_param-AllParams key value params p h.1)
    ]

    pub set_if_read-AllParams :
        {A : Type 0} (key : Text) (make : A → Value Number Json) (r : Option A)
        (params : Params Number Json)
        → ((a : A) → r ≡ some a → P key (make a))
        → AllParams params
        → AllParams (set_if_read key make r params)
    set_if_read-AllParams key make none params p h = h
    set_if_read-AllParams key make (some a) params p h =
        set_param-AllParams key (make a) params (p a refl) h

  has_param-set_param :
      (key name : Text) (value : Value Number Json) (params : Params Number Json)
      → has_param name params ≡ true
      → has_param name (set_param key value params) ≡ true
  unfolding has_param set_param
  has_param-set_param key name value [] h = cc
  has_param-set_param key name value ((k, v) ∷ params) h = elim (Bool-cases (same_text k key)) [
    | inl same ↦ rw same h
    | inr other ↦ rw other (elim (Bool-cases (same_text k name)) [
      | inl here ↦ rw here refl
      | inr later ↦ rw later (has_param-set_param key name value params (rw later at h))
    ])
  ]

  has_param-set_param_self :
      (key : Text) (value : Value Number Json) (params : Params Number Json)
      → has_param key (set_param key value params) ≡ true
  unfolding has_param set_param
  has_param-set_param_self key value [] = rw (same_text_refl key) refl
  has_param-set_param_self key value ((k, v) ∷ params) = elim (Bool-cases (same_text k key)) [
    | inl same ↦ rw same (rw same refl)
    | inr other ↦ rw other (rw other (has_param-set_param_self key value params))
  ]

  abbrev pub HasAll : List Text → Params Number Json → Type 0
  HasAll names params = All (λ name. has_param name params ≡ true) names

  unchecked_keeps :
      (names : List Text) (name : Text) (params : Params Number Json)
      → has_param name params ≡ true
      → has_param name (add_unchecked names params) ≡ true
  unfolding add_unchecked
  unchecked_keeps [] name params h = h
  unchecked_keeps (n ∷ names) name params h = elim (Bool-cases (has_param n params)) [
    | inl set ↦ rw set (unchecked_keeps names name params h)
    | inr unset ↦ rw unset (
        unchecked_keeps names name (set_param n (boolean false) params)
          (has_param-set_param n name (boolean false) params h))
  ]

  abbrev unchecked_one : Text → Params Number Json → Params Number Json
  unchecked_one n params = if has_param n params then params else set_param n (boolean false) params

  has_param-unchecked_one :
      (n : Text) (params : Params Number Json) → has_param n (unchecked_one n params) ≡ true
  has_param-unchecked_one n params = elim (Bool-cases (has_param n params)) [
    | inl set ↦ rw set set
    | inr unset ↦ rw unset (has_param-set_param_self n (boolean false) params)
  ]

  pub unchecked-HasAll :
      (names : List Text) (params : Params Number Json) → HasAll names (add_unchecked names params)
  unfolding add_unchecked
  unchecked-HasAll [] params = tt
  unchecked-HasAll (n ∷ names) params = (
    unchecked_keeps names n (unchecked_one n params) (has_param-unchecked_one n params),
    unchecked-HasAll names (unchecked_one n params),
  )
