-- ===== src/AjaxForm/Examples.antt =====
-- A PUT of a multipart body with the boundary xYz, and runs of the pattern.
use bluetooth_autonomous_car.Prelude.{◌≡◌, refl, none, some, [], true}
use bluetooth_autonomous_car.Text.{Text, codes, is_space}
use bluetooth_autonomous_car.Text.Same.{ne_of_same_text}
use bluetooth_autonomous_car.AjaxForm.{
  SubmittedForm, requested, text_body, submit_method, override_type, find_boundary, do_ajax_submit,
  standard, multipart,
}
use bluetooth_autonomous_car.AjaxForm.LineEnds.{HasLineEnds, NoReturns, without_returns}
use bluetooth_autonomous_car.AjaxForm.Requests.{NamesBoundary, do_ajax_submit-multipart}

abbrev put_form : SubmittedForm
put_form = record {
  data_method = none;
  attr_method = some (codes "POST");
  override_input = some multipart;
  override_select = [];
  content = some (codes "--xYz \nhi\n--xYz--");
  action = some (codes "/users/");
  enctype = none;
  encoding = none;
  serialized = [];
}

finds_first : find_boundary true (codes "a\n--xYz \nhi\n--xYz--") ≡ some (codes "xYz")
unfolding find_boundary is_space
finds_first = refl

not_mid_line : find_boundary true (codes "a --xYz\n") ≡ none
unfolding find_boundary is_space
not_mid_line = refl

posts_alone :
    do_ajax_submit (λ s. s) true none (record put_form { override_input = none }) ≡ standard
unfolding do_ajax_submit
posts_alone = refl

do_ajax_submit-multipart_example :
    (body : Text) × (content_type : Text) × (do_ajax_submit
        (λ s. s)
        true
        (some (codes "PUT"))
        put_form
      ≡ requested (record {
        url = some (codes "/users/");
        method = codes "PUT";
        body = text_body body;
        content_type = some content_type;
      }))
    × HasLineEnds 0 body
    × (NoReturns (codes "--xYz \nhi\n--xYz--") → without_returns body ≡ codes "--xYz \nhi\n--xYz--")
    × NamesBoundary (codes "--xYz \nhi\n--xYz--") content_type
unfolding submit_method override_type
do_ajax_submit-multipart_example =
    do_ajax_submit-multipart (λ s. s) true (some (codes "PUT")) put_form (ne_of_same_text _ _ refl)
      refl
