-- ===== src/Examples/SignUps.antt =====
-- A registration and what follows it (apps/api/src/auth), the rate limiter, and the cookies.
use fulfill_os.Prelude.{
  ℕ, ◌-◌, ◌≡◌, refl, true, false, none, some, [], ◌∷◌, inr, arith, suc, ltb, if◌then◌else◌,
}
use fulfill_os.Passwords.{Argon2, hash_password}
use fulfill_os.Database.Tx.{Result, ok, transaction}
use fulfill_os.Common.CanonicalJson.{units}
use fulfill_os.Sessions.{Issue, AuthenticatedSession, has_hash, new_session, find_user}
use fulfill_os.Organizations.{get_organization}
use fulfill_os.Access.{
  Route, Grant, owner, get_membership, allowed, authorize, is_uuid, dashed, hex_run, session_auth,
  refused,
}
use fulfill_os.Auth.{
  Accounts, RegisterBody, LoginBody, RegisteredIdentity, SignedIn, Draw, register, login,
  find_email, enrol, insert_organization, insert_user, insert_membership, omit_password_hash,
  owner_membership,
}
use fulfill_os.Auth.Enrolled.{IsEnrolled, Registered, identity, with_account, register_total}
use fulfill_os.Auth.Credentials.{Answered, login_total, login-register}
use fulfill_os.Auth.Admission.{Carries, register-authorize}
use fulfill_os.Examples.Shop.{platform}
use fulfill_os.Examples.Reads.{site, request}
use fulfill_os.Cookies.{
  CookieNames, set_session_cookie, set_csrf_cookie, clear_session_cookie, clear_csrf_cookie,
  resolve_cookie_names,
}
use fulfill_os.Cookies.HostPrefix.{IsAcceptable, Clears, resolve_cookie_names-IsAcceptable}
use fulfill_os.Auth.{sign_in}
use fulfill_os.Auth.Handlers.{logout_handler, login_handler}
use fulfill_os.Auth.Handlers.SignedIn.{stored, default_names, session_auth-login_handler}
use fulfill_os.Auth.Handlers.SignedOut.{session_auth-logout_handler}
use fulfill_os.RateLimit.{RateLimitOptions, Redis, RatedRequest}
use fulfill_os.RateLimit.Window.{Counts, let_through, let_through_lem}
use fulfill_os.Access.{includes, same_role}
use fulfill_os.Web.{Verb, csrf_cookie_name, request_headers, is_mutating}
use fulfill_os.Web.Csrf.{jar, request_headers-jar}

abbrev pub argon : Argon2
argon = record { byte_length = λ s. 10; hash = λ salt s. s; verify = λ h s. some true }

abbrev pub nobody : Accounts
nobody = record { users = []; organizations = []; memberships = []; sessions = [] }

nobody-IsEnrolled : IsEnrolled nobody
nobody-IsEnrolled = record {
  users_keyed = tt;
  organizations_keyed = tt;
  memberships_keyed = tt;
  known = tt;
}

abbrev draw : Draw
draw = record { organization_id = 1; user_id = 2; salt = 3; now = 4 }

abbrev ann : RegisterBody
ann = record {
  email = "ann@example.com";
  password = "correct horse";
  display_name = "Ann";
  organization_name = "Ann's shop";
}

abbrev after : Accounts
after = with_account platform argon draw ann nobody

registered :
    register platform argon draw ann nobody ≡ (ok (identity platform argon draw ann), after)
unfolding register hash_password enrol insert_organization insert_user insert_membership find_user
    get_organization find_email get_membership transaction
registered = refl

register_total_example :
    (answer : Result RegisteredIdentity) × (a' : Accounts) × (register platform argon draw ann
        nobody
      ≡ (answer, a'))
    × IsEnrolled a'
    × Registered platform argon draw ann nobody answer a'
unfolding find_user get_organization
register_total_example = register_total platform argon draw ann nobody nobody-IsEnrolled refl refl

abbrev pub issue : Issue
issue = record { new_id = 6; now = 100; token = 70; csrf_token = 71 }

abbrev pub ann_again : LoginBody
ann_again = record { email = "ann@example.com"; password = "correct horse" }

login_total_example :
    (answer : Result SignedIn) × (a' : Accounts) × (login platform argon "dummy" issue ann_again
        after
      ≡ (answer, a'))
    × Answered platform argon "dummy" issue ann_again after answer a'
unfolding has_hash
login_total_example = login_total platform argon "dummy" issue ann_again after refl

login-register_example :
    (s : SignedIn) × (login platform argon "dummy" issue ann_again after
      ≡ (ok s, record after { sessions = s.session.session ∷ [] }))
    × (s.user ≡ (identity platform argon draw ann).user)
    × (s.session.session.user_id ≡ (identity platform argon draw ann).user.id)
    × (s.session.token ≡ 70)
unfolding find_user get_organization has_hash
login-register_example =
    login-register platform argon draw ann nobody after (identity platform argon draw ann) "dummy"
      "ann@example.com" issue nobody-IsEnrolled refl refl (λ salt s. refl) registered refl refl

abbrev site_after : Accounts
site_after = with_account site argon draw ann nobody

site_registered :
    register site argon draw ann nobody ≡ (ok (identity site argon draw ann), site_after)
unfolding register hash_password enrol insert_organization insert_user insert_membership find_user
    get_organization find_email get_membership transaction
site_registered = refl

abbrev sign_in_issue : Issue
sign_in_issue = record { new_id = 6; now = 100; token = 77; csrf_token = 88 }

carries :
    Carries site
      (record { session = new_session site 2 sign_in_issue; token = 77; csrf_token = 88 })
      1
      request
unfolding is_uuid dashed hex_run
carries = record {
  param = 1;
  cookie = refl;
  cookie_text = refl;
  csrf_header = refl;
  csrf_text = refl;
  organization_param = refl;
  uuid_text = refl;
  reads = refl;
}

abbrev owners_only : Route
owners_only = record { is_public = false; required_roles = owner ∷ [] }

register-authorize_example :
    (grant : Grant) × ((authorize site owners_only request 200 site_after.users
        site_after.memberships
        (new_session site 2 sign_in_issue ∷ [])).0
      ≡ allowed grant)
    × (grant.membership ≡ owner_membership site argon draw ann)
    × ((signed : AuthenticatedSession) × (grant.auth ≡ some signed) × (signed.user.id ≡ 2))
unfolding find_user get_organization omit_password_hash includes same_role
register-authorize_example =
    register-authorize site argon draw ann nobody site_after (identity site argon draw ann)
      sign_in_issue request owners_only 200 [] nobody-IsEnrolled refl refl site_registered carries
      (omega arith) (inr refl)

abbrev pub names : CookieNames
names = record { session = units "fulfillos.sid"; csrf = csrf_cookie_name }

session_auth-logout_handler_example :
    (session_auth site owners_only request 300 site_after.users
      (logout_handler site
        (resolve_cookie_names
          (record { session = site.session_cookie_name; csrf = csrf_cookie_name })
          false)
        false
        request.cookies
        250
        (record site_after {
          sessions = new_session site 2 sign_in_issue ∷ [];
        })).accounts.sessions).0
    ≡ refused 401
session_auth-logout_handler_example =
    session_auth-logout_handler site csrf_cookie_name 77 250 300
      (record site_after { sessions = new_session site 2 sign_in_issue ∷ [] }) owners_only request
      request refl refl refl refl

abbrev ann_signed_in : SignedIn
ann_signed_in = record {
  user = (identity platform argon draw ann).user;
  session = record { session = new_session platform 2 issue; token = 70; csrf_token = 71 };
}

ann_login :
    login platform argon "dummy" issue ann_again after
    ≡ (ok ann_signed_in, record after { sessions = new_session platform 2 issue ∷ [] })
unfolding login sign_in
ann_login = refl

session_auth-login_handler_example :
    (session_auth platform owners_only
      (record request {
        cookies =
            stored
              (login_handler platform
                (resolve_cookie_names default_names true)
                true
                argon
                "dummy"
                issue
                ann_again
                after).cookies;
      })
      300
      after.users
      (new_session platform 2 issue ∷ [])).0
    ≡ refused 401
session_auth-login_handler_example =
    session_auth-login_handler platform true argon "dummy" issue ann_again after
      (record after { sessions = new_session platform 2 issue ∷ [] }) ann_signed_in owners_only
      request 300 after.users (new_session platform 2 issue ∷ []) refl ann_login refl refl

resolve_cookie_names-IsAcceptable_example :
    let used = resolve_cookie_names names true in
    IsAcceptable (set_session_cookie used.session 77 true)
    × IsAcceptable (set_csrf_cookie used.csrf 88 true)
    × IsAcceptable (clear_session_cookie used.session true)
    × IsAcceptable (clear_csrf_cookie used.csrf true)
    × Clears (clear_session_cookie used.session true) (set_session_cookie used.session 77 true)
    × Clears (clear_csrf_cookie used.csrf true) (set_csrf_cookie used.csrf 88 true)
resolve_cookie_names-IsAcceptable_example =
    resolve_cookie_names-IsAcceptable names true 77 88 refl refl

-- A server that counts the requests of every key together.
abbrev server : Redis
server = record { State = ℕ; incr = λ k n. (suc n, suc n); expire = λ k seconds n. n }

server-Counts : Counts server
server-Counts = record {
  count = λ k n. n;
  answers = λ k n. refl;
  raises = λ k n. refl;
  expires = λ k seconds n. refl;
}

abbrev sign_in_limit : RateLimitOptions
sign_in_limit = record { limit = 10; window_seconds = 900 }

abbrev rated : RatedRequest
rated = record { method = "POST"; path = "/auth/login"; ip = none }

let_through_lem_example :
    let_through server sign_in_limit rated 25 3 ≡ (if ltb 25 (10 - 3) then 25 else 10 - 3)
unfolding server-Counts
let_through_lem_example = let_through_lem server sign_in_limit rated server-Counts 25 3

request_headers-jar_example :
    (request_headers Verb.post true none (jar csrf_cookie_name true (7 ∷ []))).csrf_token
    ≡ (if true then none else some (7 ∷ []))
unfolding is_mutating
request_headers-jar_example = request_headers-jar true true Verb.post none 7 [] refl
