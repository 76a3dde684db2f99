-- ===== src/AjaxForm/Requests.antt =====
-- The request for a form whose content is written out as multipart/form-data.
use bluetooth_autonomous_car.Prelude.{
  ◌≡◌, ◌≢◌, refl, Bool, true, [], ◌++◌, Option, none, some, ◌⊎◌, inl, inr, Bool-cases,
}
use bluetooth_autonomous_car.Text.{Text, codes, same_text}
use bluetooth_autonomous_car.Text.Same.{same_text_ne}
use bluetooth_autonomous_car.AjaxForm.{
  SubmittedForm, requested, text_body, or_text, multipart, submit_method, override_type,
  boundary_header, with_carriage_returns, override_request, do_ajax_submit, find_boundary,
}
use bluetooth_autonomous_car.AjaxForm.Boundary.{
  IsBoundaryLine, find_boundary-IsBoundaryLine, find_boundary-ne-none,
}
use bluetooth_autonomous_car.AjaxForm.LineEnds.{
  HasLineEnds, NoReturns, without_returns, with_carriage_returns-HasLineEnds,
  without_returns-with_carriage_returns,
}

-- The content type names the boundary of a line of the content, or no line has one and it names
-- none.
abbrev pub NamesBoundary : Text → Text → Type 0
NamesBoundary content content_type =
    ((b : Text) × IsBoundaryLine true content b
      × (content_type ≡ multipart ++ (codes "; boundary=\"" ++ (b ++ codes "\""))))
    ⊎ (((b : Text) → ¬ IsBoundaryLine true content b) × (content_type ≡ multipart))

boundary_header-NamesBoundary :
    (content : Text) → NamesBoundary content (multipart ++ boundary_header content)
unfolding boundary_header
boundary_header-NamesBoundary content = by_search (find_boundary true content) refl
  where
    by_search :
        (r : Option Text)
        → find_boundary true content ≡ r
        → NamesBoundary content (multipart ++ boundary_header content)
    by_search none e =
        inr ((λ b l. find_boundary-ne-none true content b l e), rw (e, boundary_header) refl)
    by_search (some b) e =
        inl (b, find_boundary-IsBoundaryLine true content b e, rw (e, boundary_header) refl)

-- A form whose content type is overridden with multipart/form-data, submitted by a method that is
-- not GET, becomes a request of the script with that method and the form's address. In its body each
-- line feed comes after a carriage return, and without these it is the content, if that had none.
-- The content type names a boundary just when the content has a line of two dashes and a
-- boundary (1 to 70 of its characters, the last no space, and nothing but white space after
-- them), and then it is the boundary of such a line.
pub do_ajax_submit-multipart :
    (upper : Text → Text) (has_form_data : Bool) (button : Option Text) (form : SubmittedForm)
    → submit_method upper button form ≢ codes "GET"
    → override_type form ≡ multipart
    → (body : Text) × (content_type : Text) × (do_ajax_submit upper has_form_data button form
        ≡ requested (record {
          url = form.action;
          method = submit_method upper button form;
          body = text_body body;
          content_type = some content_type;
        }))
      × HasLineEnds 0 body
      × (NoReturns (or_text form.content []) → without_returns body ≡ or_text form.content [])
      × NamesBoundary (or_text form.content []) content_type
unfolding do_ajax_submit override_request
do_ajax_submit-multipart upper has_form_data button form not_get overridden =
    let content = or_text form.content [] in
    (
      with_carriage_returns content,
      multipart ++ boundary_header content,
      elim (Bool-cases (same_text (submit_method upper button form) (codes "POST"))) [
        | inl post ↦
            rw
              (
                overridden,
                same_text_ne (submit_method upper button form) (codes "GET") not_get,
                post,
              )
              refl
        | inr other ↦
            rw
              (
                overridden,
                same_text_ne (submit_method upper button form) (codes "GET") not_get,
                other,
              )
              refl
      ],
      with_carriage_returns-HasLineEnds 0 content,
      without_returns-with_carriage_returns content,
      boundary_header-NamesBoundary content,
    )
