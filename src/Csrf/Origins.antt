-- ===== src/Csrf/Origins.antt =====
-- The absolute URLs that the token is sent to.
use bluetooth_autonomous_car.Prelude.{
  ℕ, suc, ◌≡◌, ◌≢◌, ◌↔◌, refl, sym, ap, ◌∙◌, arith, Bool, true, false, ◌&&◌, ◌||◌, List, [], ◌∷◌,
  ◌++◌, ◌==◌, take, length, All,
}
use bluetooth_autonomous_car.Text.{Text, codes, same_text, starts_with}
use bluetooth_autonomous_car.Text.Same.{eq_of_same_text, same_text_refl, same_text_ne}
use bluetooth_autonomous_car.Csrf.{
  Location, at_origin, is_absolute, same_origin, csrf_safe_method, sends_token,
}

pub data Scheme : Type 0 where
  http https : Scheme

abbrev pub protocol_of : Scheme → Text
protocol_of http = codes "http:"
protocol_of https = codes "https:"

or_true : (b : Bool) → (b || true) ≡ true
or_true true = refl
or_true false = refl

or_false : (b : Bool) → (b || false) ≡ b
or_false true = refl
or_false false = refl

-- No slash in a host.
abbrev pub IsHost : Text → Type 0
IsHost s = All (λ c. (c == b'/') ≡ false) s

-- What follows the host: nothing, or a path.
abbrev pub rooted : List Text → Text
rooted [] = []
rooted (path ∷ _) = b'/' ∷ path

slash_ne : (b : ℕ) → (b == 47) ≡ false → (47 == b) ≡ false
slash_ne b h = ground arith

and_or : (x y z : Bool) → (x && y || x && z) ≡ (x && (y || z))
and_or true y z = refl
and_or false y z = refl

-- The two tests for an origin, after their common front, come to the equality of the hosts.
at_host :
    (h h' : Text) (path : List Text)
    → IsHost h
    → IsHost h'
    → (same_text (h' ++ rooted path) h
        || same_text (take (suc (length h)) (h' ++ rooted path)) (h ++ (b'/' ∷ [])))
      ≡ same_text h' h
at_host [] [] [] p p' = refl
at_host [] [] (path ∷ _) p p' = refl
at_host [] (a ∷ h') path p p' = rw p'.0 refl
at_host (b ∷ h) [] [] p p' = refl
at_host (b ∷ h) [] (path ∷ _) p p' = rw (slash_ne b p.0) refl
at_host (b ∷ h) (a ∷ h') path p p' =
    and_or (a == b) _ _ ∙ ap ((a == b) &&◌) (at_host h h' path p.1 p'.1)

abbrev pub page_of : Scheme → Text → Location
page_of scheme host = record { protocol = protocol_of scheme; host = host }

-- An absolute URL.
abbrev pub url_of : Scheme → Text → List Text → Text
url_of scheme host path = protocol_of scheme ++ (codes "//" ++ (host ++ rooted path))

same_scheme : Scheme → Scheme → Bool
same_scheme http http = true
same_scheme https https = true
same_scheme _ _ = false

same_origin-url_of :
    (scheme scheme' : Scheme) (host host' : Text) (path : List Text)
    → IsHost host
    → IsHost host'
    → same_origin (page_of scheme host) (url_of scheme' host' path)
      ≡ (same_scheme scheme scheme' && same_text host' host)
unfolding same_origin at_origin is_absolute same_scheme starts_with
same_origin-url_of http http host host' path p p' =
    rw (at_host host host' path p p') (or_false _ ∙ or_false _)
same_origin-url_of https https host host' path p p' =
    rw (at_host host host' path p p') (or_false _ ∙ or_false _)
same_origin-url_of http https host host' path p p' = refl
same_origin-url_of https http host host' path p p' = refl

same_scheme-eq : (scheme scheme' : Scheme) → same_scheme scheme scheme' ≡ true → scheme' ≡ scheme
unfolding same_scheme
same_scheme-eq http http e = refl
same_scheme-eq https https e = refl
same_scheme-eq http https e = cc
same_scheme-eq https http e = cc

same_scheme_self : (scheme : Scheme) → same_scheme scheme scheme ≡ true
unfolding same_scheme
same_scheme_self http = refl
same_scheme_self https = refl

and_true : (a b : Bool) → (a && b) ≡ true → (a ≡ true) × (b ≡ true)
and_true a b h = ground arith

-- On a page of scheme `http` or `https`, a request with an unsafe method to a URL that begins with
-- `http://` or `https://`, in these letters, and a host that is followed by nothing or by a path, carries
-- the token just when its scheme and its host, port included, are the page's.
pub sends_token-url_of :
    (scheme scheme' : Scheme) (host host' : Text) (path : List Text) (method : Text)
    → IsHost host
    → IsHost host'
    → csrf_safe_method method ≡ false
    → (sends_token (page_of scheme host) method (url_of scheme' host' path) ≡ true)
      ↔ ((scheme' ≡ scheme) × (host' ≡ host))
unfolding sends_token
sends_token-url_of scheme scheme' host host' path method p p' unsafe =
    rw (unsafe, same_origin-url_of scheme scheme' host host' path p p')
      (
        (λ h.
            let (a, b) = and_true (same_scheme scheme scheme') (same_text host' host) h in
            (same_scheme-eq scheme scheme' a, eq_of_same_text host' host b)),
        λ (a, b). rw (a, b, same_scheme_self scheme) (same_text_refl host),
      )

-- A scheme has neither a colon nor a slash in it.
abbrev pub IsScheme : Text → Type 0
IsScheme s = All (λ c. ((c == b':') ≡ false) × ((c == b'/') ≡ false)) s

colon_ne : (b : ℕ) → (b == 58) ≡ false → (58 == b) ≡ false
colon_ne b h = ground arith

-- A text up to its colon is at the front of a URL only if it is the scheme.
starts_with-scheme :
    (t scheme rest : Text)
    → All (λ c. (c == b':') ≡ false) t
    → IsScheme scheme
    → starts_with (t ++ (b':' ∷ [])) (scheme ++ (b':' ∷ rest)) ≡ same_text t scheme
unfolding starts_with
starts_with-scheme [] [] rest ht hs = refl
starts_with-scheme [] (c ∷ scheme) rest ht hs = rw (colon_ne c hs.0.0) refl
starts_with-scheme (a ∷ t) [] rest ht hs = rw ht.0 refl
starts_with-scheme (a ∷ t) (c ∷ scheme) rest ht hs =
    ap ((a == c) &&◌) (starts_with-scheme t scheme rest ht.1 hs.1)

starts_with-slashes :
    (scheme rest : Text)
    → IsScheme scheme
    → starts_with (codes "//") (scheme ++ (b':' ∷ rest)) ≡ false
unfolding starts_with
starts_with-slashes [] rest h = refl
starts_with-slashes (c ∷ scheme) rest h = rw (slash_ne c h.0.1) refl

-- A URL with a scheme that is not `http` or `https` in these letters, so also `ftp` or `HTTPS`, passes for
-- a relative one, whatever follows the colon: with an unsafe method it carries the token.
pub sends_token-other_scheme :
    (location : Location) (scheme rest method : Text)
    → IsScheme scheme
    → scheme ≢ codes "http"
    → scheme ≢ codes "https"
    → csrf_safe_method method ≡ false
    → sends_token location method (scheme ++ (b':' ∷ rest)) ≡ true
unfolding sends_token same_origin is_absolute
sends_token-other_scheme location scheme rest method h not_http not_https unsafe =
    rw
      (
        unsafe,
        starts_with-slashes scheme rest h,
        starts_with-scheme (codes "http") scheme rest (refl, (refl, (refl, (refl, tt)))) h,
        starts_with-scheme (codes "https") scheme rest (refl, (refl, (refl, (refl, (refl, tt))))) h,
        same_text_ne (codes "http") scheme (λ e. not_http (sym e)),
        same_text_ne (codes "https") scheme (λ e. not_https (sym e)),
      )
      (or_true _)
