-- ===== src/Csrf/Examples.antt =====
-- The cookie and the origins at a concrete page.
use bluetooth_autonomous_car.Prelude.{
  ◌≡◌, ◌↔◌, refl, true, [], ◌∷◌, ◌++◌, some, ◌==◌, if◌then◌else◌,
}
use bluetooth_autonomous_car.Text.{Text, codes}
use bluetooth_autonomous_car.Text.Same.{ne_of_same_text}
use bluetooth_autonomous_car.Csrf.{get_cookie, csrf_safe_method, sends_token}
use bluetooth_autonomous_car.Csrf.Cookies.{Pair, cookie_text, get_cookie_lem}
use bluetooth_autonomous_car.Csrf.Origins.{
  https, page_of, url_of, sends_token-url_of, sends_token-other_scheme,
}

abbrev trim_front : Text → Text
trim_front [] = []
trim_front (c ∷ s) = if c == b' ' then s else c ∷ s

abbrev lang : Pair
lang = (codes "l", codes "f")

abbrev token : Pair
token = (codes "tk", codes "a=")

get_cookie_lem_example :
    get_cookie trim_front some (codes "tk") (cookie_text [] lang (token ∷ []))
    ≡ some (some (codes "a="))
get_cookie_lem_example =
    get_cookie_lem trim_front some (codes "tk") (refl, (refl, tt)) lang (token ∷ [])
      (
        ((refl, tt), (refl, tt), (refl, tt)),
        (((refl, (refl, tt)), (refl, (refl, tt)), (refl, (refl, tt))), tt),
      )
      ((refl, refl), ((refl, refl), tt))

sends_token-url_of_example :
    (sends_token
        (page_of https (codes "c"))
        (codes "POST")
        (url_of https (codes "c") (codes "denm" ∷ []))
      ≡ true)
    ↔ ((https ≡ https) × (codes "c" ≡ codes "c"))
unfolding csrf_safe_method
sends_token-url_of_example =
    sends_token-url_of https https (codes "c") (codes "c") (codes "denm" ∷ []) (codes "POST")
      (refl, tt) (refl, tt) refl

sends_token-other_scheme_example :
    sends_token
      (page_of https (codes "c"))
      (codes "POST")
      (codes "HTTPS" ++ (b':' ∷ codes "//o.fr/"))
    ≡ true
unfolding csrf_safe_method
sends_token-other_scheme_example =
    sends_token-other_scheme (page_of https (codes "c")) (codes "HTTPS") (codes "//o.fr/")
      (codes "POST")
      ((refl, refl), ((refl, refl), ((refl, refl), ((refl, refl), ((refl, refl), tt)))))
      (ne_of_same_text (codes "HTTPS") (codes "http") refl)
      (ne_of_same_text (codes "HTTPS") (codes "https") refl) refl
