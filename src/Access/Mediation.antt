-- ===== src/Access/Mediation.antt =====
-- What a request that passes the guards of an organization's route has shown: see `authorize`.
use fulfill_os.Prelude.{
  ℕ, ◌≡◌, refl, sym, true, Option, some, List, [], ◌∷◌, arith, ◌⊎◌, inl, inr, Option-cases,
  Bool-cases,
}
use fulfill_os.Platform.{Platform}
use fulfill_os.Sessions.{
  User, Session, AuthenticatedSession, validate_token, verify_csrf_token, sha256_hex,
}
use fulfill_os.Sessions.Lifecycle.{IsLive, validate-IsLive}
use fulfill_os.Access.{
  Membership, Request, Route, Decision, allowed, refused, Grant, is_safe, is_uuid, includes,
  get_membership, session_auth, csrf_guard, membership_guard, roles_guard, authorize,
}

-- Each guard, where it lets a request through.
get_membership-some :
    (user organization : ℕ) (ms : List Membership) (m : Membership)
    → get_membership user organization ms ≡ some m
    → (m.user_id ≡ user) × (m.organization_id ≡ organization)
unfolding get_membership
get_membership-some user organization [] m h = cc
get_membership-some user organization (x ∷ ms) m h =
    ground (arith, get_membership-some user organization ms m, h)

roles_guard-allowed :
    (route : Route) (m : Membership)
    → roles_guard route m ≡ allowed tt
    → (route.required_roles ≡ []) ⊎ (includes route.required_roles m.role ≡ true)
unfolding roles_guard
roles_guard-allowed route m h = ground (arith, h)

module _ (p : Platform) (request : Request) where
  csrf_guard-allowed :
      (a : AuthenticatedSession)
      → csrf_guard p request (some a) ≡ allowed tt
      → (is_safe request.method ≡ true)
        ⊎ ((candidate : ℕ) × (request.csrf_header ≡ some candidate)
            × (verify_csrf_token p a.session candidate ≡ true))
  unfolding csrf_guard
  csrf_guard-allowed a h = elim (Bool-cases (is_safe request.method)) [
    | inl safe ↦ inl safe
    | inr unsafe ↦ elim (Option-cases request.csrf_header) [
      | inl missing ↦ absurd (ground (arith, h, unsafe, missing))
      | inr (candidate, sent) ↦ inr (candidate, sent, ground (arith, h, unsafe, sent))
    ]
  ]

  membership_guard-allowed :
      (auth : Option AuthenticatedSession) (ms : List Membership) (m : Membership)
      → membership_guard p request auth ms ≡ allowed m
      → (a : AuthenticatedSession) × (organization : ℕ) × (auth ≡ some a)
        × (request.organization_param ≡ some organization)
        × (is_uuid (p.text_units organization) ≡ true)
        × (get_membership a.user.id (p.parse_uuid organization) ms ≡ some m)
  unfolding membership_guard
  membership_guard-allowed auth ms m h = elim (Option-cases request.organization_param) [
    | inl missing ↦ absurd (ground (arith, h, missing))
    | inr (organization, sent) ↦ elim (Option-cases auth) [
      | inl anonymous ↦ absurd (ground (arith, h, sent, anonymous))
      | inr (a, known) ↦
          (a, organization, known, sent, ground (arith, h, sent), ground (arith, h, sent, known))
    ]
  ]

  session_auth-some :
      (route : Route) (now : ℕ) (users : List User) (ss t : List Session) (a : AuthenticatedSession)
      → session_auth p route request now users ss ≡ (allowed (some a), t)
      → (token : ℕ) × (request.cookies p.session_cookie_name ≡ some token)
        × (validate_token p token now users ss ≡ (some a, t))
  unfolding session_auth
  session_auth-some route now users ss t a h =
      elim (Option-cases (request.cookies p.session_cookie_name)) [
        | inl missing ↦ absurd (ground (arith, h, missing))
        | inr (token, sent) ↦ (token, sent, ground (arith, h, sent))
      ]

Decision-cases :
    {A : Type 0} (d : Decision A)
    → ((x : A) × (d ≡ allowed x)) ⊎ ((status : ℕ) × (d ≡ refused status))
Decision-cases (allowed x) = inl (x, refl)
Decision-cases (refused status) = inr (status, refl)

module _ (p : Platform) (route : Route) (request : Request) (now : ℕ) (users : List User)
    (ms : List Membership) (ss : List Session) where
  -- What the guards have passed, and with what.
  abbrev Passed : List Session → Grant → Type 0
  Passed t g =
      (session_auth p route request now users ss ≡ (allowed g.auth, t))
      × (membership_guard p request g.auth ms ≡ allowed g.membership)
      × (roles_guard route g.membership ≡ allowed tt)
      × (csrf_guard p request g.auth ≡ allowed tt)

  authorize-Passed :
      (t : List Session) (g : Grant)
      → authorize p route request now users ms ss ≡ (allowed g, t)
      → Passed t g
  unfolding authorize
  authorize-Passed t g h = elim (Decision-cases (session_auth p route request now users ss).0) [
    | inr (status, e) ↦ absurd (ground (arith, h, e))
    | inl (auth, e1) ↦ elim (Decision-cases (membership_guard p request auth ms)) [
      | inr (status, e) ↦ absurd (ground (arith, h, e1, e))
      | inl (m, e2) ↦ elim (Decision-cases (roles_guard route m)) [
        | inr (status, e) ↦ absurd (ground (arith, h, e1, e2, e))
        | inl (_, e3) ↦ elim (Decision-cases (csrf_guard p request auth)) [
          | inr (status, e) ↦ absurd (ground (arith, h, e1, e2, e3, e))
          | inl (_, e4) ↦ ground (arith, h, e1, e2, e3, e4)
        ]
      ]
    ]
  ]

-- What a granted request has shown.
abbrev pub IsMediated :
    Platform → Route → Request → ℕ → List Session → List Session → Grant → Type 0
IsMediated p route request now ss t g =
    (a : AuthenticatedSession) × (token : ℕ) × (organization : ℕ) × (g.auth ≡ some a)
    × (request.cookies p.session_cookie_name ≡ some token)
    × IsLive now (sha256_hex p token) a
    × (request.organization_param ≡ some organization)
    × (is_uuid (p.text_units organization) ≡ true)
    × (g.membership.user_id ≡ a.user.id)
    × (g.membership.organization_id ≡ p.parse_uuid organization)
    × ((route.required_roles ≡ []) ⊎ (includes route.required_roles g.membership.role ≡ true))
    × ((is_safe request.method ≡ true)
        ⊎ ((candidate : ℕ) × (request.csrf_header ≡ some candidate)
            × (verify_csrf_token p a.session candidate ≡ true)))

-- A request that the guards grant carries, under the configured name of the session's cookie, the
-- token of a live session, its user is a member of the
-- organization that the route names, in a role that the route asks for, and unless its method is
-- safe it carries the CSRF token of that session.
pub authorize-IsMediated :
    (p : Platform) (route : Route) (request : Request) (now : ℕ) (users : List User)
    (ms : List Membership) (ss t : List Session) (g : Grant)
    → authorize p route request now users ms ss ≡ (allowed g, t)
    → IsMediated p route request now ss t g
authorize-IsMediated p route request now users ms ss t g h =
    let (first, second, third, fourth) = authorize-Passed p route request now users ms ss t g h in
    let (a, organization, known, named, uuid, member) =
      membership_guard-allowed p request g.auth ms g.membership second in
    let (token, sent, valid) =
      session_auth-some p request route now users ss t a (rw (sym known) first) in
    let (mine, its) =
      get_membership-some a.user.id (p.parse_uuid organization) ms g.membership member in
    (
      a,
      token,
      organization,
      known,
      sent,
      (validate-IsLive p token now now users ss a t valid).0,
      named,
      uuid,
      mine,
      its,
      roles_guard-allowed route g.membership third,
      csrf_guard-allowed p request a (rw (sym known) fourth),
    )
