-- ===== src/Popups/Responses/Undone.antt =====
-- An object that is added and deleted again.
use bluetooth_autonomous_car.Prelude.{
  ◌≡◌, refl, ap, ◌∙◌, Bool, true, false, ◌||◌, map, List, [], ◌∷◌, ◌++◌, some, All,
}
use bluetooth_autonomous_car.Text.{Text, codes, same_text, starts_with}
use bluetooth_autonomous_car.Text.Same.{same_text_refl}
use bluetooth_autonomous_car.SelectBox.{OptionElement, update}
use bluetooth_autonomous_car.Popups.{
  select_element, id_to_windowname, windowname_to_id, without_lead, delete_options, dismiss_add,
  remove_options, append_option, unselected, has_value, has_selected, select_first, add_to_target,
}
use bluetooth_autonomous_car.Popups.Names.{
  Lacks, dot_word, dash_word, windowname_to_id-id_to_windowname,
}
use bluetooth_autonomous_car.Popups.Responses.{
  Opener, InitData, respond, put_back, dismiss_added, dismiss_delete, on_selects, on_target,
}

abbrev pub added : Text → Text → InitData
added id repr = record { action = codes "add"; value = id; obj = repr; new_value = [] }

abbrev pub deleted : Text → InitData
deleted id = record { action = codes "delete"; value = id; obj = []; new_value = [] }

abbrev new_option : Text → Text → OptionElement
new_option id repr = record { value = id; text = repr; selected = true }

-- No option has the value.
abbrev pub IsNew : Text → List OptionElement → Type 0
IsNew id options = All (λ o. same_text o.value id ≡ false) options

delete_options-append :
    (id repr : Text) (options : List OptionElement)
    → IsNew id options
    → delete_options id (options ++ (new_option id repr ∷ [])) ≡ options
unfolding delete_options
delete_options-append id repr [] h = rw (same_text_refl id) refl
delete_options-append id repr (o ∷ options) h =
    rw h.0 (ap (o ∷◌) (delete_options-append id repr options h.1))

has_value-append :
    (id repr : Text) (options : List OptionElement)
    → has_value id (options ++ (new_option id repr ∷ [])) ≡ true
unfolding has_value
has_value-append id repr [] = rw (same_text_refl id) refl
has_value-append id repr (o ∷ options) =
    rw (has_value-append id repr options) (or_true (same_text o.value id))
  where
    or_true : (b : Bool) → (b || true) ≡ true
    or_true true = refl
    or_true false = refl

IsNew-unselected :
    (id : Text) (options : List OptionElement)
    → IsNew id options
    → IsNew id (map unselected options)
IsNew-unselected id [] h = tt
IsNew-unselected id (o ∷ options) h = (h.0, IsNew-unselected id options h.1)

none_selected : (options : List OptionElement) → has_selected (map unselected options) ≡ false
unfolding has_selected
none_selected [] = refl
none_selected (o ∷ options) = none_selected options

-- The options after the object has come and gone: where several may be selected, as they were; else the
-- first of them is selected, and no other.
abbrev pub restored : Bool → List OptionElement → List OptionElement
restored true options = options
restored false [] = []
restored false (o ∷ options) = record o { selected = true } ∷ map unselected options

remove_options-append_option :
    (multiple : Bool) (id repr : Text) (options : List OptionElement)
    → IsNew id options
    → remove_options multiple id (append_option multiple (new_option id repr) options)
      ≡ restored multiple options
unfolding remove_options append_option select_first
remove_options-append_option true id repr options h = delete_options-append id repr options h
remove_options-append_option false id repr options h =
    rw
      (
        delete_options-append id repr (map unselected options) (IsNew-unselected id options h),
        has_value-append id repr (map unselected options),
        none_selected options,
      )
      (first options)
  where
    first :
        (options : List OptionElement)
        → select_first (map unselected options) ≡ restored false options
    first [] = refl
    first (o ∷ options) = refl

-- The select, with an option more.
with_option : Text → Bool → Text → Text → List OptionElement → Opener → Opener
with_option the_id multiple id repr options o = record o {
  elements =
      update o.elements the_id
        (some (select_element multiple (append_option multiple (new_option id repr) options)));
}

dismiss_added-with_option :
    (window the_id : Text) (multiple : Bool) (id repr : Text) (options : List OptionElement)
    (o : Opener)
    → windowname_to_id window ≡ the_id
    → o.elements the_id ≡ some (select_element multiple options)
    → dismiss_added window id repr o ≡ some (with_option the_id multiple id repr options o)
unfolding dismiss_added put_back dismiss_add add_to_target with_option
dismiss_added-with_option window the_id multiple id repr options o e there = rw (e, there) refl

dismiss_delete_select :
    (window name : Text) (multiple : Bool) (id : Text) (options : List OptionElement) (o : Opener)
    → windowname_to_id window ≡ codes "id_" ++ name
    → o.elements (codes "id_" ++ name) ≡ some (select_element multiple options)
    → Opener.elements (dismiss_delete window id o) (codes "id_" ++ name)
      ≡ some (select_element multiple (remove_options multiple id options))
unfolding dismiss_delete on_selects on_target without_lead starts_with
dismiss_delete_select window name multiple id options o e there =
    rw (e, there, same_text_refl name) refl

-- An object is added to a select that has no option with its value, from a popup named after the select,
-- and then deleted from one. A select that allows several selections has its options again, with their
-- selections; a list that drops down has its options again, and the first of them is selected and no
-- other, whichever was before. (The select's id begins with `id_`, as the server's do, and has neither
-- `dot` nor `dash` in it.)
pub respond_undone :
    (name : Text) (multiple : Bool) (id repr : Text) (options : List OptionElement) (o : Opener)
    → Lacks dot_word (codes "id_" ++ name)
    → Lacks dash_word (codes "id_" ++ name)
    → o.elements (codes "id_" ++ name) ≡ some (select_element multiple options)
    → IsNew id options
    → (o' : Opener) × (o'' : Opener) × (respond
          (id_to_windowname (codes "id_" ++ name))
          (added id repr)
          o
        ≡ some o')
      × (respond (id_to_windowname (codes "id_" ++ name)) (deleted id) o' ≡ some o'')
      × (o''.elements (codes "id_" ++ name)
          ≡ some (select_element multiple (restored multiple options)))
unfolding respond with_option
respond_undone name multiple id repr options o h h' there new =
    let the_id = codes "id_" ++ name in
    let e = windowname_to_id-id_to_windowname the_id h h' in
    (
      with_option the_id multiple id repr options o,
      _,
      dismiss_added-with_option (id_to_windowname the_id) the_id multiple id repr options o e there,
      refl,
      dismiss_delete_select (id_to_windowname the_id) name multiple id _
            (with_option the_id multiple id repr options o) e (rw (same_text_refl name) refl)
          ∙ ap (λ os. some (select_element multiple os))
              (remove_options-append_option multiple id repr options new),
    )
