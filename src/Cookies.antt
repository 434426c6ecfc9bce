-- ===== src/Cookies.antt =====
-- apps/api/src/auth/cookie.util.ts. A cookie's name is its code units, a token a number of its text.
pub mod HostPrefix
use fulfill_os.Prelude.{
  ℕ, Bool, true, false, List, [], ◌∷◌, ◌++◌, Option, none, some, if◌then◌else◌,
}
use fulfill_os.Common.CanonicalJson.{units}
use fulfill_os.Sessions.{absolute_timeout_ms}

pub record CookieNames : Type 0 where
  pub session : List ℕ
  pub csrf : List ℕ

-- `__Host-`
abbrev pub host_prefix : List ℕ
host_prefix = units "__Host-"

unfoldable pub resolve_cookie_names : CookieNames → Bool → CookieNames
resolve_cookie_names names is_production =
    if is_production
    then record { session = host_prefix ++ names.session; csrf = host_prefix ++ names.csrf }
    else names

-- A `Set-Cookie` header: the options that Express is given, every one with `sameSite: 'lax'` and
-- without a domain. `none` as the value clears the cookie.
pub record SetCookie : Type 0 where
  pub name : List ℕ
  pub value : Option ℕ
  pub http_only : Bool
  pub secure : Bool
  pub path : List ℕ
  pub max_age : Option ℕ

module _ (name : List ℕ) (token : ℕ) (is_production : Bool) where
  unfoldable pub set_session_cookie : SetCookie
  set_session_cookie = record {
    name = name;
    value = some token;
    http_only = true;
    secure = is_production;
    path = units "/";
    max_age = some absolute_timeout_ms;
  }

  unfoldable pub set_csrf_cookie : SetCookie
  set_csrf_cookie = record {
    name = name;
    value = some token;
    http_only = false;
    secure = is_production;
    path = units "/";
    max_age = some absolute_timeout_ms;
  }

module _ (name : List ℕ) (is_production : Bool) where
  unfoldable pub clear_session_cookie : SetCookie
  clear_session_cookie = record {
    name = name;
    value = none;
    http_only = true;
    secure = is_production;
    path = units "/";
    max_age = none;
  }

  unfoldable pub clear_csrf_cookie : SetCookie
  clear_csrf_cookie = record {
    name = name;
    value = none;
    http_only = false;
    secure = is_production;
    path = units "/";
    max_age = none;
  }
