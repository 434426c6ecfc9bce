-- ===== src/Cookies/HostPrefix.antt =====
-- The names and options of apps/api/src/auth/cookie.util.ts under the browser's rule for `__Host-`.
use fulfill_os.Prelude.{
  ℕ, ◌≡◌, refl, Bool, true, false, none, List, [], ◌∷◌, inl, inr, ◌⊎◌, ◌==◌, ◌&&◌,
}
use fulfill_os.Common.CanonicalJson.{units}
use fulfill_os.Cookies.{
  CookieNames, host_prefix, resolve_cookie_names, SetCookie, set_session_cookie, set_csrf_cookie,
  clear_session_cookie, clear_csrf_cookie,
}

abbrev begins_with : List ℕ → List ℕ → Bool
begins_with [] ys = true
begins_with (x ∷ xs) [] = false
begins_with (x ∷ xs) (y ∷ ys) = (x == y) && begins_with xs ys

-- A browser takes a cookie whose name begins with the prefix only with `Secure` and `Path=/`.
abbrev pub IsAcceptable : SetCookie → Type 0
IsAcceptable c =
    (begins_with host_prefix c.name ≡ false) ⊎ ((c.secure ≡ true) × (c.path ≡ units "/"))

-- A browser clears the cookie that has the same name, path and flags.
abbrev pub Clears : SetCookie → SetCookie → Type 0
Clears cleared set =
    (cleared.name ≡ set.name)
    × (cleared.path ≡ set.path)
    × (cleared.secure ≡ set.secure)
    × (cleared.http_only ≡ set.http_only)
    × (cleared.value ≡ none)

-- Where the configured names have no `__Host-` prefix of their own, a browser accepts every cookie that
-- is set or cleared under the resolved names, in production and out of it, and what clears a cookie
-- clears the one that was set.
pub resolve_cookie_names-IsAcceptable :
    (names : CookieNames) (is_production : Bool) (token csrf_token : ℕ)
    → begins_with host_prefix names.session ≡ false
    → begins_with host_prefix names.csrf ≡ false
    → let used = resolve_cookie_names names is_production in
      IsAcceptable (set_session_cookie used.session token is_production)
      × IsAcceptable (set_csrf_cookie used.csrf csrf_token is_production)
      × IsAcceptable (clear_session_cookie used.session is_production)
      × IsAcceptable (clear_csrf_cookie used.csrf is_production)
      × Clears
          (clear_session_cookie used.session is_production)
          (set_session_cookie used.session token is_production)
      × Clears
          (clear_csrf_cookie used.csrf is_production)
          (set_csrf_cookie used.csrf csrf_token is_production)
unfolding resolve_cookie_names set_session_cookie set_csrf_cookie clear_session_cookie
    clear_csrf_cookie
resolve_cookie_names-IsAcceptable names true token csrf_token plain plain_csrf = (
  inr (refl, refl),
  inr (refl, refl),
  inr (refl, refl),
  inr (refl, refl),
  (refl, refl, refl, refl, refl),
  (refl, refl, refl, refl, refl),
)
resolve_cookie_names-IsAcceptable names false token csrf_token plain plain_csrf = (
  inl plain,
  inl plain_csrf,
  inl plain,
  inl plain_csrf,
  (refl, refl, refl, refl, refl),
  (refl, refl, refl, refl, refl),
)
