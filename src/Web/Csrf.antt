-- ===== src/Web/Csrf.antt =====
-- The CSRF cookie of apps/api/src/auth/cookie.util.ts, as apps/web/lib/api.ts reads it.
use fulfill_os.Prelude.{
  ℕ, ◌≡◌, refl, Bool, true, false, Option, none, some, List, [], ◌∷◌, if◌then◌else◌,
}
use fulfill_os.Cookies.{resolve_cookie_names}
use fulfill_os.Web.{
  Verb, BrowserCookie, csrf_cookie_name, matches_name, read_cookie, is_mutating, request_headers,
}

-- The jar of a browser that has only the CSRF cookie of a sign-in, which JavaScript can read. The
-- session's cookie is HttpOnly.
abbrev pub jar : List ℕ → Bool → List ℕ → List BrowserCookie
jar configured is_production token =
    let names = resolve_cookie_names (record { session = []; csrf = configured }) is_production in
    record { name = names.csrf; value = token } ∷ []

-- After a sign-in under the default name of the cookie, a mutating request of the web client carries
-- the CSRF token in development, and no CSRF token at all in production.
pub request_headers-jar :
    (is_production has_body : Bool) (method : Verb) (key : Option (List ℕ)) (x : ℕ) (token : List ℕ)
    → is_mutating method ≡ true
    → (request_headers method has_body key
        (jar csrf_cookie_name is_production (x ∷ token))).csrf_token
      ≡ (if is_production then none else some (x ∷ token))
unfolding request_headers read_cookie matches_name resolve_cookie_names
request_headers-jar true has_body method key x token mutating = rw mutating refl
request_headers-jar false has_body method key x token mutating = rw mutating refl
