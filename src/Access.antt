-- ===== src/Access.antt =====
-- The guards in front of the handlers of an organization: SessionAuthGuard and CsrfGuard of
-- apps/api/src/auth/guards, MembershipGuard and RolesGuard of apps/api/src/organizations/guards,
-- with `getMembership` of organizations.service.ts. Of an exception its status is kept.
pub mod Mediation
use fulfill_os.Prelude.{
  ℕ, zero, suc, Bool, true, false, not, Option, none, some, List, [], ◌∷◌, ◌&&◌, ◌||◌, ◌==◌, leb,
  if◌then◌else◌,
}
use fulfill_os.Platform.{Platform}
use fulfill_os.Sessions.{User, Session, AuthenticatedSession, validate_token, verify_csrf_token}

pub data MembershipRole : Type 0 where
  owner staff : MembershipRole

pub record Membership : Type 0 where
  pub organization_id : ℕ
  pub user_id : ℕ
  pub role : MembershipRole

pub data Method : Type 0 where
  get head options post put patch delete : Method

-- What the guards read of a request: `request.cookies`, by name, the route's parameter as text and as
-- PostgreSQL reads it, and the CSRF header, of which the first value counts.
pub record Request : Type 0 where
  pub method : Method
  pub cookies : List ℕ → Option ℕ
  pub organization_param : Option ℕ
  pub csrf_header : Option ℕ

-- What the decorators of a route say.
pub record Route : Type 0 where
  pub is_public : Bool
  pub required_roles : List MembershipRole

pub data Decision {ℓ} (A : Type ℓ) : Type ℓ where
  allowed : A → Decision A
  refused : ℕ → Decision A

abbrev pub is_empty : List ℕ → Bool
is_empty [] = true
is_empty (_ ∷ _) = false

-- `SAFE_METHODS`
unfoldable pub is_safe : Method → Bool
is_safe get = true
is_safe head = true
is_safe options = true
is_safe post = false
is_safe put = false
is_safe patch = false
is_safe delete = false

-- `UUID_PATTERN`: hexadecimal digits of either case, and four dashes.
abbrev pub is_hex : ℕ → Bool
is_hex c = leb b'0' c && leb c b'9' || leb b'a' c && leb c b'f' || leb b'A' c && leb c b'F'

unfoldable pub hex_run : ℕ → List ℕ → Option (List ℕ)
hex_run zero cs = some cs
hex_run (suc n) [] = none
hex_run (suc n) (c ∷ cs) = if is_hex c then hex_run n cs else none

unfoldable pub dashed : List ℕ → List ℕ → Bool
unfolding hex_run
dashed [] cs = false
dashed (n ∷ []) cs = elim (hex_run n cs) [ none ↦ false | some rest ↦ is_empty rest ]
dashed (n ∷ m ∷ ms) cs = elim (hex_run n cs) [
  | none ↦ false
  | some [] ↦ false
  | some (c ∷ rest) ↦ c == b'-' && dashed (m ∷ ms) rest
]

unfoldable pub is_uuid : List ℕ → Bool
unfolding dashed
is_uuid = dashed (8 ∷ 4 ∷ 4 ∷ 4 ∷ 12 ∷ [])

unfoldable pub same_role : MembershipRole → MembershipRole → Bool
same_role owner owner = true
same_role staff staff = true
same_role _ _ = false

unfoldable pub includes : List MembershipRole → MembershipRole → Bool
unfolding same_role
includes [] r = false
includes (x ∷ xs) r = same_role x r || includes xs r

unfoldable pub get_membership : ℕ → ℕ → List Membership → Option Membership
get_membership user organization [] = none
get_membership user organization (m ∷ ms) =
    if m.user_id == user && m.organization_id == organization
    then some m
    else get_membership user organization ms

module _ (p : Platform) where
  -- `request.authSession` and `request.authUser` stay unset on a public route without a session.
  unfoldable pub session_auth :
      Route
      → Request
      → ℕ
      → List User
      → List Session
      → Decision (Option AuthenticatedSession) × List Session
  session_auth route request now users sessions =
      let anonymous = if route.is_public then allowed none else refused 401 in
      elim (request.cookies p.session_cookie_name) [
        | none ↦ (anonymous, sessions)
        | some token ↦
            if is_empty (p.text_units token)
            then (anonymous, sessions)
            else let (found, t) = validate_token p token now users sessions in
              elim found [ none ↦ (anonymous, t) | some a ↦ (allowed (some a), t) ]
      ]

  -- An empty header is no candidate.
  unfoldable pub csrf_guard : Request → Option AuthenticatedSession → Decision (Unit {0})
  unfolding is_safe
  csrf_guard request auth = if is_safe request.method then allowed tt else elim auth [
    | none ↦ refused 403
    | some a ↦ elim request.csrf_header [
      | none ↦ refused 403
      | some candidate ↦
          if is_empty (p.text_units candidate) || not (verify_csrf_token p a.session candidate)
          then refused 403
          else allowed tt
    ]
  ]

  -- Without a session the guard reads a field of `undefined`, which is answered with 500.
  unfoldable pub membership_guard :
      Request → Option AuthenticatedSession → List Membership → Decision Membership
  unfolding is_uuid get_membership
  membership_guard request auth memberships = elim request.organization_param [
    | none ↦ refused 400
    | some organization ↦
        if not (is_uuid (p.text_units organization)) then refused 400 else elim auth [
          | none ↦ refused 500
          | some a ↦ elim (get_membership a.user.id (p.parse_uuid organization) memberships) [
            | none ↦ refused 404
            | some m ↦ allowed m
          ]
        ]
  ]

-- A route without @Roles() is open to every member.
unfoldable pub roles_guard : Route → Membership → Decision (Unit {0})
unfolding includes
roles_guard route m = elim route.required_roles [
  | [] ↦ allowed tt
  | r ∷ rs ↦ if includes (r ∷ rs) m.role then allowed tt else refused 403
]

-- What a handler is given.
pub record Grant : Type 0 where
  pub auth : Option AuthenticatedSession
  pub membership : Membership

-- The guards of a route of an organization, in their order: the global one, then those of
-- `@UseGuards(MembershipGuard, …)` and of the handler.
unfoldable pub authorize :
    Platform
    → Route
    → Request
    → ℕ
    → List User
    → List Membership
    → List Session
    → Decision Grant × List Session
unfolding session_auth membership_guard roles_guard csrf_guard
authorize p route request now users memberships sessions =
    let (first, t) = session_auth p route request now users sessions in
    elim first [
      | refused status ↦ (refused status, t)
      | allowed auth ↦ elim (membership_guard p request auth memberships) [
        | refused status ↦ (refused status, t)
        | allowed m ↦ elim (roles_guard route m) [
          | refused status ↦ (refused status, t)
          | allowed _ ↦ elim (csrf_guard p request auth) [
            | refused status ↦ (refused status, t)
            | allowed _ ↦ (allowed (record { auth = auth; membership = m }), t)
          ]
        ]
      ]
    ]
