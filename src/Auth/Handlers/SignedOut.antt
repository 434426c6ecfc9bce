-- ===== src/Auth/Handlers/SignedOut.antt =====
-- What a request can do after `logout` of apps/api/src/auth/auth.controller.ts.
use fulfill_os.Prelude.{ℕ, ◌≡◌, refl, false, some, List}
use fulfill_os.Platform.{Platform}
use fulfill_os.Cookies.{resolve_cookie_names}
use fulfill_os.Sessions.Lifecycle.{revoke-validate}
use fulfill_os.Access.{Request, Route, refused, is_empty, session_auth}
use fulfill_os.Auth.{Accounts, logout}
use fulfill_os.Auth.Handlers.{logout_handler}

-- Outside production: after a sign-out by a request that carries a session cookie, every request to
-- a route that is not public that carries the same session cookie, by the name that the guard reads,
-- is refused with 401, at every time.
pub session_auth-logout_handler :
    (p : Platform) (csrf : List ℕ) (token now later : ℕ) (a : Accounts) (route : Route)
    (sign_out request : Request)
    → is_empty (p.text_units token) ≡ false
    → sign_out.cookies p.session_cookie_name ≡ some token
    → request.cookies p.session_cookie_name ≡ some token
    → route.is_public ≡ false
    → (session_auth p route request later a.users
        (logout_handler p
          (resolve_cookie_names (record { session = p.session_cookie_name; csrf = csrf }) false)
          false
          sign_out.cookies
          now
          a).accounts.sessions).0
      ≡ refused 401
unfolding session_auth logout_handler logout resolve_cookie_names
session_auth-logout_handler p csrf token now later a route sign_out request text left cookie
      closed =
    rw (cookie, session_auth)
      (rw (left, text, logout_handler)
        (rw (revoke-validate p token now later a.users a.sessions, closed) refl))
