-- ===== src/Explorer/Params.antt =====
-- The parameters of a request fit the types of the form's fields.
use mathlib.Core.Option.{some_inj}
use bluetooth_autonomous_car.Prelude.{
  ◌≡◌, ◌≢◌, refl, subst, Bool, true, false, List, [], ◌∷◌, Option, none, some, ◌⊎◌, inl, inr, All,
  if◌then◌else◌, Bool-cases, ◌||◌,
}
use bluetooth_autonomous_car.Text.{is_empty, Text, codes, same_text}
use bluetooth_autonomous_car.Text.Same.{eq_of_same_text}
use bluetooth_autonomous_car.Explorer.Forms.{
  EntryValue, text, file, FormEntry, Value, number, boolean, json, string, inherited, Readers,
  Params, has_param, set_param, text_of_value, set_if_read, boolean_of, boolean_param, add_param,
  add_params, add_unchecked, form_params,
}
use bluetooth_autonomous_car.Explorer.Named.{
  AllParams, HasAll, set_param-AllParams, set_if_read-AllParams, unchecked-HasAll,
}

abbrev OneOf : Text → List Text → Type 0
OneOf s [] = ⊥
OneOf s (t ∷ ts) = (s ≡ t) ⊎ OneOf s ts

module _ {Number Json : Type 0} where
  -- What a field of the type may send.
  abbrev FitsType : Text → Value Number Json → Type 0
  FitsType type (number n) = OneOf type (codes "integer" ∷ codes "number" ∷ [])
  FitsType type (boolean b) = type ≡ codes "boolean"
  FitsType type (inherited s) = type ≡ codes "boolean"
  FitsType type (json j) = OneOf type (codes "array" ∷ codes "object" ∷ [])
  FitsType type (string v) = (type ≡ codes "string") × (is_empty (text_of_value v) ≡ false)

  -- What a parameter of the form may be: the field's, or the false of an unchecked box.
  abbrev pub FitsForm : (Text → Text) → List Text → Text → Value Number Json → Type 0
  FitsForm type_of checkboxes key value =
      FitsType (type_of key) value ⊎ ((value ≡ boolean false) × OneOf key checkboxes)

  module _ (readers : Readers Number Json) (type_of : Text → Text) (checkboxes : List Text) where
    abbrev Fits : Text → Value Number Json → Type 0
    Fits = FitsForm type_of checkboxes

    -- The step ends, with parameters that fit.
    abbrev EndsFit : Option (Params Number Json) → Type 0
    EndsFit none = ⊥
    EndsFit (some params) = AllParams Fits params

    by_test :
        (b : Bool) (r r' : Option (Params Number Json))
        → (b ≡ true → EndsFit r)
        → (b ≡ false → EndsFit r')
        → EndsFit (if b then r else r')
    by_test true r r' h h' = h refl
    by_test false r r' h h' = h' refl

    boolean_of-FitsType :
        (type s : Text) (v : Value Number Json)
        → type ≡ codes "boolean"
        → boolean_of s ≡ some v
        → FitsType type v
    boolean_of-FitsType type s v t e = elim (Bool-cases (same_text s (codes "true"))) [
      | inl yes' ↦ fits_true v (rw yes' at e)
      | inr n₁ ↦ elim (Bool-cases (same_text s (codes "false"))) [
        | inl no' ↦ fits_false v (rw (n₁, no') at e)
        | inr n₂ ↦
            elim (Bool-cases
              (same_text s (codes "constructor") || same_text s (codes "__proto__"))) [
                | inl own ↦ fits_inherited v (rw (n₁, n₂, own) at e)
                | inr n₃ ↦ absurd (nothing v (rw (n₁, n₂, n₃) at e))
              ]
      ]
    ]
      where
        fits_true : (v : Value Number Json) → some (boolean true) ≡ some v → FitsType type v
        fits_true v e = subst (FitsType type) (some_inj.0 e) t

        fits_false : (v : Value Number Json) → some (boolean false) ≡ some v → FitsType type v
        fits_false v e = subst (FitsType type) (some_inj.0 e) t

        fits_inherited : (v : Value Number Json) → some (inherited s) ≡ some v → FitsType type v
        fits_inherited v e = subst (FitsType type) (some_inj.0 e) t

        nothing : (v : Value Number Json) → none ≢ some v
        nothing v e = cc

    -- A file is no value of a boolean field.
    abbrev pub IsReadable : EntryValue → Text → Type 0
    IsReadable (text s) type = Unit
    IsReadable (file f) type = type ≢ codes "boolean"

    boolean_param-EndsFit :
        (key : Text) (value : EntryValue) (params : Params Number Json)
        → type_of key ≡ codes "boolean"
        → IsReadable value (type_of key)
        → AllParams Fits params
        → EndsFit (boolean_param readers key value params)
    unfolding boolean_param
    boolean_param-EndsFit key (text s) params t r h =
        set_if_read-AllParams Fits key (λ v. v) (boolean_of (readers.lower s)) params
          (λ v e. inl (boolean_of-FitsType (type_of key) (readers.lower s) v t e)) h
    boolean_param-EndsFit key (file f) params t r h = absurd (r t)

    add_param-EndsFit :
        (key : Text) (value : EntryValue) (params : Params Number Json)
        → IsReadable value (type_of key)
        → AllParams Fits params
        → EndsFit (add_param readers (type_of key) key value params)
    unfolding add_param
    add_param-EndsFit key value params r h =
        by_test (is_empty s) _ _ (λ _. h)
          (λ full.
            by_test (same_text type (codes "integer")) _ _
              (λ e. read number (readers.parse_int s) (λ n. inl (is e)))
              (λ _.
                by_test (same_text type (codes "number")) _ _
                  (λ e. read number (readers.parse_float s) (λ n. inr (inl (is e))))
                  (λ _.
                    by_test (same_text type (codes "boolean")) _ _
                      (λ e. boolean_param-EndsFit key value params (is e) r h)
                      (λ _.
                        by_test (same_text type (codes "array")) _ _
                          (λ e. read json (readers.parse_json s) (λ j. inl (is e)))
                          (λ _.
                            by_test (same_text type (codes "object")) _ _
                              (λ e. read json (readers.parse_json s) (λ j. inr (inl (is e))))
                              (λ _.
                                by_test (same_text type (codes "string")) _ _
                                  (λ e.
                                    set_param-AllParams Fits key (string value) params
                                      (inl (is e, full)) h)
                                  (λ _. h)))))))
      where
        type : Text
        type = type_of key

        s : Text
        s = text_of_value value

        is : {t : Text} → same_text type t ≡ true → type ≡ t
        is {t} e = eq_of_same_text type t e

        read :
            {A : Type 0} (make : A → Value Number Json) (q : Option A)
            → ((a : A) → FitsType type (make a))
            → AllParams Fits (set_if_read key make q params)
        read make q fits = set_if_read-AllParams Fits key make q params (λ a _. inl (fits a)) h

    abbrev pub AllReadable : List FormEntry → Type 0
    AllReadable entries = All (λ e. IsReadable e.1 (type_of e.0)) entries

    next_entry :
        (r : Option (Params Number Json)) (k : Params Number Json → Option (Params Number Json))
        → EndsFit r
        → ((params : Params Number Json) → AllParams Fits params → EndsFit (k params))
        → EndsFit (elim r [ none ↦ none | some params ↦ k params ])
    next_entry none k h f = h
    next_entry (some params) k h f = f params h

    add_params-EndsFit :
        (entries : List FormEntry) (params : Params Number Json)
        → AllReadable entries
        → AllParams Fits params
        → EndsFit (add_params readers type_of entries params)
    unfolding add_params
    add_params-EndsFit [] params r h = h
    add_params-EndsFit ((key, value) ∷ entries) params r h =
        next_entry (add_param readers (type_of key) key value params)
          (add_params readers type_of entries) (add_param-EndsFit key value params r.0 h)
          (λ params' h'. add_params-EndsFit entries params' r.1 h')

    unchecked-AllParams :
        (names : List Text) (params : Params Number Json)
        → ((name : Text) → OneOf name names → OneOf name checkboxes)
        → AllParams Fits params
        → AllParams Fits (add_unchecked names params)
    unfolding add_unchecked
    unchecked-AllParams [] params inside h = h
    unchecked-AllParams (name ∷ names) params inside h = elim (Bool-cases (has_param name params)) [
      | inl set ↦ rw set (unchecked-AllParams names params (λ n m. inside n (inr m)) h)
      | inr unset ↦ rw unset (
          unchecked-AllParams names (set_param name (boolean false) params)
            (λ n m. inside n (inr m))
            (set_param-AllParams Fits name (boolean false) params
              (inr (refl, inside name (inl refl))) h))
    ]

  -- For a form with no file in a boolean field, the parameters are made without an error. Each fits
  -- the type of its field: a number where the type is `integer` or `number`, a boolean (or what an
  -- object inherits under the name) where it is `boolean`, a JSON value where it is `array` or
  -- `object`, a text that is not empty where it is `string`; or it is the false of a checkbox. Each
  -- checkbox of the form has a parameter.
  pub form_params-AllParams :
      (readers : Readers Number Json) (type_of : Text → Text) (checkboxes : List Text)
      (entries : List FormEntry)
      → AllReadable readers type_of checkboxes entries
      → (params : Params Number Json) × (form_params readers type_of checkboxes entries
          ≡ some params)
        × AllParams (FitsForm type_of checkboxes) params
        × HasAll checkboxes params
  unfolding form_params
  form_params-AllParams readers type_of checkboxes entries r =
      with_unchecked (add_params readers type_of entries [])
        (add_params-EndsFit readers type_of checkboxes entries [] r tt)
    where
      with_unchecked :
          (q : Option (Params Number Json))
          → EndsFit readers type_of checkboxes q
          → (params : Params Number Json) × (elim q [
            | none ↦ none
            | some ps ↦ some (add_unchecked checkboxes ps)
          ]
              ≡ some params)
            × AllParams (FitsForm type_of checkboxes) params
            × HasAll checkboxes params
      with_unchecked none h = absurd h
      with_unchecked (some ps) h = (
        add_unchecked checkboxes ps,
        refl,
        unchecked-AllParams readers type_of checkboxes checkboxes ps (λ n m. m) h,
        unchecked-HasAll checkboxes ps,
      )
