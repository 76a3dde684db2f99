-- ===== src/Explorer/Signed.antt =====
-- What the control says of the authentication is what the next request uses.
use bluetooth_autonomous_car.Prelude.{◌≡◌, refl, ◌↔◌, true, List, [], ◌∷◌, Option, none, some}
use bluetooth_autonomous_car.Text.{Text}
use bluetooth_autonomous_car.Explorer.Controls.{
  Kind, none_kind, token_kind, basic_kind, session_kind, same_kind, kind_name, Controls,
  choose_none, submit_token, submit_basic, submit_session, Authentication, token_authentication,
  basic_authentication, session_authentication, authentication,
}

pub data Choice : Type 0 where
  no_choice session_choice : Choice
  token_choice basic_choice : Text → Text → Choice

abbrev pub choose : Choice → Controls → Controls
choose no_choice c = choose_none c
choose session_choice c = submit_session c
choose (token_choice scheme word) c = submit_token scheme word c
choose (basic_choice username password) c = submit_basic username password c

choose_each : List Choice → Controls → Controls
choose_each [] c = c
choose_each (x ∷ xs) c = choose_each xs (choose x c)

-- The kind of an authentication, as the request has it.
abbrev kind_of : Option Authentication → Kind
kind_of none = none_kind
kind_of (some (token_authentication scheme word)) = token_kind
kind_of (some (basic_authentication username password)) = basic_kind
kind_of (some (session_authentication cookie header)) = session_kind

-- The control names the kind of the authentication that a request would use, and its item alone is
-- active.
record IsNamed (c : Controls) : Type 0 where
  pub named : c.selected ≡ kind_name (kind_of (authentication c.auth))
  one_active : (k : Kind) → (c.active k ≡ true) ↔ (k ≡ kind_of (authentication c.auth))

same_kind_iff : (k kind : Kind) → (same_kind k kind ≡ true) ↔ (k ≡ kind)
same_kind_iff none_kind none_kind = (λ _. refl, λ _. refl)
same_kind_iff token_kind token_kind = (λ _. refl, λ _. refl)
same_kind_iff basic_kind basic_kind = (λ _. refl, λ _. refl)
same_kind_iff session_kind session_kind = (λ _. refl, λ _. refl)
same_kind_iff none_kind token_kind = ((λ e. cc), λ e. cc)
same_kind_iff _ _ = ((λ e. cc), λ e. cc)

choose-IsNamed : (x : Choice) (c : Controls) → IsNamed (choose x c)
unfolding choose_none submit_session submit_token submit_basic authentication
choose-IsNamed no_choice c = record { named = refl; one_active = λ k. same_kind_iff k none_kind }
choose-IsNamed session_choice c = record {
  named = refl;
  one_active = λ k. same_kind_iff k session_kind;
}
choose-IsNamed (token_choice scheme word) c = record {
  named = refl;
  one_active = λ k. same_kind_iff k token_kind;
}
choose-IsNamed (basic_choice username password) c = record {
  named = refl;
  one_active = λ k. same_kind_iff k basic_kind;
}

-- Through any choices of authentication, the control's text is the kind of authentication that a
-- request would use, and the item of that kind is active and no other.
choose_each-IsNamed : (xs : List Choice) (c : Controls) → IsNamed c → IsNamed (choose_each xs c)
unfolding choose_each
choose_each-IsNamed [] c h = h
choose_each-IsNamed (x ∷ xs) c h = choose_each-IsNamed xs (choose x c) (choose-IsNamed x c)
