-- ===== src/Auth/Handlers.antt =====
-- The handlers of apps/api/src/auth/auth.controller.ts, with the cookies that they set. The cookie
-- names are those that `resolveCookieNames` gives.
pub mod SignedIn
pub mod SignedOut
use fulfill_os.Prelude.{ℕ, Bool, Option, none, some, List, [], ◌∷◌, String, if◌then◌else◌}
use fulfill_os.Platform.{Platform}
use fulfill_os.Passwords.{Argon2}
use fulfill_os.Database.Tx.{Result, ok, err}
use fulfill_os.Sessions.{Session, User, Issue, rotate_csrf_token}
use fulfill_os.Access.{is_empty}
use fulfill_os.Cookies.{
  CookieNames, SetCookie, set_session_cookie, set_csrf_cookie, clear_session_cookie,
  clear_csrf_cookie,
}
use fulfill_os.Auth.{Accounts, LoginBody, PublicUser, omit_password_hash, login, logout}

pub record LoginAnswer : Type 0 where
  pub user : PublicUser
  pub csrf_token : ℕ

-- An answer, the cookies of its response and the tables that it leaves.
pub record Handled {ℓ} (A : Type ℓ) : Type ℓ where
  pub answer : A
  pub cookies : List SetCookie
  pub accounts : Accounts

module _ (p : Platform) (names : CookieNames) (is_production : Bool) where
  unfoldable pub login_handler :
      Argon2 → String → Issue → LoginBody → Accounts → Handled (Result LoginAnswer)
  unfolding login set_session_cookie set_csrf_cookie
  login_handler argon dummy_hash issue dto a =
      let (result, after) = login p argon dummy_hash issue dto a in
      elim result [
        | err e ↦ record { answer = err e; cookies = []; accounts = after }
        | ok s ↦ record {
          answer = ok (record { user = s.user; csrf_token = s.session.csrf_token });
          cookies =
              set_session_cookie names.session s.session.token is_production
              ∷ set_csrf_cookie names.csrf s.session.csrf_token is_production
              ∷ [];
          accounts = after;
        }
      ]

  -- `req.cookies?.[names.session]`. An empty one is falsy.
  pub logout_handler : (List ℕ → Option ℕ) → ℕ → Accounts → Handled (Unit {0})
  unfolding logout clear_session_cookie clear_csrf_cookie
  logout_handler cookies now a = record {
    answer = tt;
    cookies =
        clear_session_cookie names.session is_production
        ∷ clear_csrf_cookie names.csrf is_production
        ∷ [];
    accounts = elim (cookies names.session) [
      | none ↦ a
      | some t ↦ if is_empty (p.text_units t) then a else logout p t now a
    ];
  }

  abbrev pub me_handler : User → PublicUser
  me_handler user = omit_password_hash user

  -- `fresh` is the token that `rotateCsrfToken` draws.
  unfoldable pub csrf_handler : Session → ℕ → Accounts → Handled ℕ
  unfolding rotate_csrf_token set_csrf_cookie
  csrf_handler session fresh a =
      let (csrf_token, sessions) = rotate_csrf_token p session fresh a.sessions in
      record {
        answer = csrf_token;
        cookies = set_csrf_cookie names.csrf csrf_token is_production ∷ [];
        accounts = record a { sessions = sessions };
      }
