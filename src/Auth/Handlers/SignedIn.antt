-- ===== src/Auth/Handlers/SignedIn.antt =====
-- What the session guard makes of the cookies that `login` of apps/api/src/auth/auth.controller.ts
-- sets.
use fulfill_os.Prelude.{
  ℕ, ◌≡◌, refl, ap, ◌∙◌, Bool, true, false, ◌&&◌, ◌==◌, Option, none, some, List, [], ◌∷◌, String,
  if◌then◌else◌, inl, inr, Option-cases,
}
use fulfill_os.Platform.{Platform}
use fulfill_os.Passwords.{Argon2}
use fulfill_os.Common.CanonicalJson.{units}
use fulfill_os.Database.Tx.{ok}
use fulfill_os.Sessions.{Session, AuthenticatedSession, Issue, User, validate_token}
use fulfill_os.Cookies.{
  SetCookie, CookieNames, resolve_cookie_names, set_session_cookie, set_csrf_cookie,
}
use fulfill_os.Access.{Decision, allowed, refused, Request, Route, is_empty, session_auth}
use fulfill_os.Auth.{Accounts, LoginBody, SignedIn, login}
use fulfill_os.Auth.Handlers.{login_handler}

abbrev same_name : List ℕ → List ℕ → Bool
same_name [] [] = true
same_name (x ∷ xs) (y ∷ ys) = x == y && same_name xs ys
same_name _ _ = false

-- The cookies that a browser with no others sends back after a response.
abbrev pub stored : List SetCookie → List ℕ → Option ℕ
stored [] name = none
stored (c ∷ cs) name = if same_name c.name name then c.value else stored cs name

-- The names that apps/api/src/config/env.validation.ts gives where none are configured.
abbrev pub default_names : CookieNames
default_names = record { session = units "fulfillos.sid"; csrf = units "fulfillos.csrf" }

-- The guard's answer to a session token on a route that is not public.
abbrev pub admitted : Option AuthenticatedSession → Decision (Option AuthenticatedSession)
admitted none = refused 401
admitted (some a) = allowed (some a)

module _ (p : Platform) (route : Route) (request : Request) (now : ℕ) (users : List User)
    (sessions : List Session) (closed : route.is_public ≡ false) where
  session_auth-unread :
      request.cookies p.session_cookie_name ≡ none
      → (session_auth p route request now users sessions).0 ≡ refused 401
  unfolding session_auth
  session_auth-unread missing = rw (missing, session_auth) (rw closed refl)

  session_auth-read :
      (token : ℕ)
      → request.cookies p.session_cookie_name ≡ some token
      → is_empty (p.text_units token) ≡ false
      → (session_auth p route request now users sessions).0
        ≡ admitted (validate_token p token now users sessions).0
  unfolding session_auth
  session_auth-read token sent text =
      rw (sent, session_auth)
        (rw text (elim (Option-cases (validate_token p token now users sessions).0) [
          | inl unknown ↦ rw unknown (rw closed refl)
          | inr (x, known) ↦ rw known refl
        ]))

-- What the browser has under the name that the guard reads.
stored-login_handler :
    (p : Platform) (is_production : Bool) (argon : Argon2) (dummy : String) (issue : Issue)
    (dto : LoginBody) (a after : Accounts) (s : SignedIn)
    → login p argon dummy issue dto a ≡ (ok s, after)
    → stored
        (login_handler p
          (resolve_cookie_names default_names is_production)
          is_production
          argon
          dummy
          issue
          dto
          a).cookies
        default_names.session
      ≡ (if is_production then none else some s.session.token)
unfolding login_handler resolve_cookie_names set_session_cookie set_csrf_cookie
stored-login_handler p true argon dummy issue dto a after s ran = rw (ran, login_handler) refl
stored-login_handler p false argon dummy issue dto a after s ran = rw (ran, login_handler) refl

-- Under the default cookie names, after an accepted login, a request to a route that is not public
-- with the cookies that the login has set: outside production the guard asks for the session of the
-- login's token, and admits its user if there is one; in production it finds no cookie under the name
-- that it reads and refuses the request with 401, at every time and whatever sessions there are.
pub session_auth-login_handler :
    (p : Platform) (is_production : Bool) (argon : Argon2) (dummy : String) (issue : Issue)
    (dto : LoginBody) (a after : Accounts) (s : SignedIn) (route : Route) (request : Request)
    (now : ℕ) (users : List User) (sessions : List Session)
    → p.session_cookie_name ≡ default_names.session
    → login p argon dummy issue dto a ≡ (ok s, after)
    → is_empty (p.text_units s.session.token) ≡ false
    → route.is_public ≡ false
    → (session_auth p route
        (record request {
          cookies =
              stored
                (login_handler p
                  (resolve_cookie_names default_names is_production)
                  is_production
                  argon
                  dummy
                  issue
                  dto
                  a).cookies;
        })
        now
        users
        sessions).0
      ≡ (if is_production
          then refused 401
          else admitted (validate_token p s.session.token now users sessions).0)
session_auth-login_handler p true argon dummy issue dto a after s route request now users sessions
      name ran text closed =
    session_auth-unread p route _ now users sessions closed
      (ap (stored _) name ∙ stored-login_handler p true argon dummy issue dto a after s ran)
session_auth-login_handler p false argon dummy issue dto a after s route request now users sessions
      name ran text closed =
    session_auth-read p route _ now users sessions closed s.session.token
      (ap (stored _) name ∙ stored-login_handler p false argon dummy issue dto a after s ran) text
