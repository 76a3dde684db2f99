-- ===== src/Popups/Responses/Examples.antt =====
-- An object that is added and deleted, and a selector whose chosen object is deleted.
use bluetooth_autonomous_car.Prelude.{
  ◌≡◌, refl, arith, true, false, [], ◌∷◌, none, some, ◌==◌, if◌then◌else◌,
}
use bluetooth_autonomous_car.Text.{codes, same_text, starts_with, includes}
use bluetooth_autonomous_car.SelectBox.{OptionElement, Node, Page, displayed_options, redisplay}
use bluetooth_autonomous_car.SelectBox.Boxes.{IsBox}
use bluetooth_autonomous_car.Popups.{select_element, id_to_windowname, delete_options}
use bluetooth_autonomous_car.Popups.Responses.{Opener, respond, dismiss_delete}
use bluetooth_autonomous_car.Popups.Responses.Undone.{added, deleted, restored, respond_undone}
use bluetooth_autonomous_car.Popups.Responses.Stale.{dismiss_delete-redisplay}

abbrev ann : Node
ann = record { value = codes "1"; text = codes "ann"; displayed = true }

abbrev option_ann : OptionElement
option_ann = record { value = codes "1"; text = codes "ann"; selected = false }

abbrev opener : Opener
opener = record {
  elements = λ id.
      if same_text id (codes "id_u") then some (select_element false (option_ann ∷ [])) else none;
  page = record {
    document = λ id.
        if same_text id (codes "id_u_to")
        then some 0
        else if same_text id (codes "id_u_from")
        then some 1
        else none;
    options = λ e. if e == 0 then displayed_options (ann ∷ []) else [];
    fresh = 2;
    cache = λ id.
        if same_text id (codes "id_u_to")
        then some (ann ∷ [])
        else if same_text id (codes "id_u_from")
        then some []
        else none;
  };
}

respond_undone_example :
    (o' : Opener) × (o'' : Opener) × (respond
        (id_to_windowname (codes "id_u"))
        (added (codes "2") (codes "bob"))
        opener
      ≡ some o')
    × (respond (id_to_windowname (codes "id_u")) (deleted (codes "2")) o' ≡ some o'')
    × (o''.elements (codes "id_u") ≡ some (select_element false (restored false (option_ann ∷ []))))
unfolding includes starts_with
respond_undone_example =
    respond_undone (codes "u") false (codes "2") (codes "bob") (option_ann ∷ []) opener refl refl
      refl (refl, tt)

dismiss_delete-redisplay_example :
    let p = Opener.page (dismiss_delete (id_to_windowname (codes "id_u")) (codes "1") opener) in
    IsBox (codes "id_u_to") (delete_options (codes "1") (displayed_options (ann ∷ []))) (ann ∷ []) p
    × ((p' : Page) × (redisplay (codes "id_u_to") p ≡ some p')
        × IsBox (codes "id_u_to") (displayed_options (ann ∷ [])) (ann ∷ []) p')
unfolding includes starts_with
dismiss_delete-redisplay_example =
    dismiss_delete-redisplay (codes "u") (codes "1") [] [] (ann ∷ []) opener refl refl (record {
      from_box = record {
        element = 1;
        in_document = refl;
        allocated = omega arith;
        shows = refl;
        cached = refl;
      };
      to_box = record {
        element = 0;
        in_document = refl;
        allocated = omega arith;
        shows = refl;
        cached = refl;
      };
      two_elements = λ e. omega arith;
    })
