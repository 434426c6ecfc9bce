-- ===== src/Auth/Admission.antt =====
-- From a registration, through a sign-in, to a request that the guards let through:
-- apps/api/src/auth/auth.service.ts with apps/api/src/auth/guards and apps/api/src/organizations/guards.
use fulfill_os.Prelude.{
  ℕ, ◌+◌, ◌<◌, ◌≡◌, refl, sym, ap, true, false, none, some, List, [], ◌∷◌, ◌⊎◌, inl, inr, arith,
  ◌==◌, Bool-cases,
}
use fulfill_os.Platform.{Platform}
use fulfill_os.Passwords.{Argon2}
use fulfill_os.Database.Tx.{ok}
use fulfill_os.Sessions.{
  User, Session, AuthenticatedSession, CreatedSession, Issue, new_session, find_user,
  verify_csrf_token, idle_timeout_ms, touch,
}
use fulfill_os.Sessions.Lifecycle.{find_live-new, validate-some}
use fulfill_os.Organizations.{get_organization}
use fulfill_os.Access.{
  Membership, owner, get_membership, Request, Route, allowed, is_empty, is_uuid, session_auth,
  csrf_guard, membership_guard, roles_guard, includes, Grant, authorize, is_safe,
}
use fulfill_os.Auth.{
  Accounts, RegisterBody, RegisteredIdentity, Draw, omit_password_hash, new_user, owner_membership,
  register,
}
use fulfill_os.Auth.Enrolled.{IsEnrolled, user_hash, register-accepted}

-- What a request carries that uses a session: both tokens, as texts that are not empty, that of the
-- session as the cookie of the name that the guard reads, and its organization, as the text of a
-- uuid.
pub record Carries (p : Platform) (s : CreatedSession) (organization : ℕ) (request : Request)
    : Type 0 where
  pub param : ℕ
  pub cookie : request.cookies p.session_cookie_name ≡ some s.token
  pub cookie_text : is_empty (p.text_units s.token) ≡ false
  pub csrf_header : request.csrf_header ≡ some s.csrf_token
  pub csrf_text : is_empty (p.text_units s.csrf_token) ≡ false
  pub organization_param : request.organization_param ≡ some param
  pub uuid_text : is_uuid (p.text_units param) ≡ true
  pub reads : p.parse_uuid param ≡ organization

module _ (p : Platform) (issue : Issue) (u : User) (m : Membership) (g : ℕ) (a : Accounts)
    (request : Request) (route : Route) (now : ℕ) where
  abbrev issued : CreatedSession
  issued = record {
    session = new_session p u.id issue;
    token = issue.token;
    csrf_token = issue.csrf_token;
  }

  abbrev its : AuthenticatedSession
  its = record { session = new_session p u.id issue; user = u }

  abbrev after_login : List Session
  after_login = new_session p u.id issue ∷ a.sessions

  session_auth-issued :
      Carries p issued g request
      → find_user u.id a.users ≡ some u
      → now < issue.now + idle_timeout_ms
      → session_auth p route request now a.users after_login
        ≡ (allowed (some its), touch p its.session now after_login)
  unfolding session_auth
  session_auth-issued c known early =
      let valid =
        validate-some p issue.token now now a.users after_login its
          (find_live-new p u.id issue u a.users a.sessions now known early) in
      rw (c.cookie, session_auth)
        (rw c.cookie_text (rw valid (ap (λ t. (allowed (some its), t)) (ap (λ r. r.1) valid))))

  csrf_guard-issued : Carries p issued g request → csrf_guard p request (some its) ≡ allowed tt
  unfolding csrf_guard
  csrf_guard-issued c =
      let same : verify_csrf_token p its.session issue.csrf_token ≡ true = ground arith in
      rw (c.csrf_header, csrf_guard)
        (rw (c.csrf_text, same)
          (elim (Bool-cases (is_safe request.method)) [
            | inl safe ↦ rw safe refl
            | inr unsafe ↦ rw unsafe refl
          ]))

  membership_guard-issued :
      Carries p issued g request
      → get_membership u.id g a.memberships ≡ some m
      → membership_guard p request (some its) a.memberships ≡ allowed m
  unfolding membership_guard
  membership_guard-issued c mine =
      let here : get_membership u.id (p.parse_uuid c.param) a.memberships ≡ some m =
        rw c.reads mine in
      rw (c.organization_param, membership_guard) (rw c.uuid_text (rw here refl))

  authorize-issued :
      Carries p issued g request
      → find_user u.id a.users ≡ some u
      → get_membership u.id g a.memberships ≡ some m
      → now < issue.now + idle_timeout_ms
      → roles_guard route m ≡ allowed tt
      → (authorize p route request now a.users a.memberships after_login).0
        ≡ allowed (record { auth = some its; membership = m })
  unfolding authorize
  authorize-issued c known mine early role =
      rw (session_auth-issued c known early, authorize)
        (rw (membership_guard-issued c mine) (rw role (rw (csrf_guard-issued c) refl)))

roles_guard-owner :
    (route : Route) (m : Membership)
    → m.role ≡ owner
    → (route.required_roles ≡ []) ⊎ (includes route.required_roles owner ≡ true)
    → roles_guard route m ≡ allowed tt
unfolding roles_guard
roles_guard-owner route m h (inl open_route) = rw (open_route, roles_guard) refl
roles_guard-owner route m h (inr named) = ground (arith, h, named)

module _ (p : Platform) (argon : Argon2) (draw : Draw) (dto : RegisterBody) where
  known_owner :
      (a a' : Accounts) (who : RegisteredIdentity)
      → IsEnrolled a
      → find_user draw.user_id a.users ≡ none
      → get_organization draw.organization_id a.organizations ≡ none
      → register p argon draw dto a ≡ (ok who, a')
      → (find_user draw.user_id a'.users
          ≡ some (new_user p argon draw dto (user_hash p argon draw dto)))
        × (get_membership draw.user_id draw.organization_id a'.memberships
            ≡ some (owner_membership p argon draw dto))
        × (who.user.id ≡ draw.user_id)
        × (who.organization_id ≡ draw.organization_id)
  unfolding find_user get_membership omit_password_hash
  known_owner a a' who e fresh_user fresh_organization ran =
      let (its, state, _, _, _) =
        register-accepted p argon draw dto a a' who e fresh_user fresh_organization ran in
      let mine : (draw.user_id == draw.user_id) ≡ true = ground arith in
      let ours : (draw.organization_id == draw.organization_id) ≡ true = ground arith in
      rw (its, state) (rw mine refl, rw (mine, ours) refl, refl, refl)

  -- On accounts whose keys and references hold, with fresh uuids, the user of an accepted
  -- registration gets through the guards of its new organization: in a state where the users and
  -- memberships are those that the registration left, every request that carries the tokens of a
  -- session created for that user, the session's under the name that the guard reads
  -- (SESSION_COOKIE_NAME, without a prefix), and the organization's uuid, before the session's idle window
  -- ends, on a route that asks for no role or for the owner's, is let through, as that user and as
  -- owner.
  pub register-authorize :
      (a a' : Accounts) (who : RegisteredIdentity) (issue : Issue) (request : Request)
      (route : Route) (now : ℕ) (sessions : List Session)
      → IsEnrolled a
      → find_user draw.user_id a.users ≡ none
      → get_organization draw.organization_id a.organizations ≡ none
      → register p argon draw dto a ≡ (ok who, a')
      → Carries p
          (record {
            session = new_session p who.user.id issue;
            token = issue.token;
            csrf_token = issue.csrf_token;
          })
          who.organization_id
          request
      → now < issue.now + idle_timeout_ms
      → (route.required_roles ≡ []) ⊎ (includes route.required_roles owner ≡ true)
      → (grant : Grant) × ((authorize p route request now a'.users a'.memberships
            (new_session p who.user.id issue ∷ sessions)).0
          ≡ allowed grant)
        × (grant.membership ≡ owner_membership p argon draw dto)
        × ((signed : AuthenticatedSession) × (grant.auth ≡ some signed)
            × (signed.user.id ≡ who.user.id))
  register-authorize a a' who issue request route now sessions e fresh_user fresh_organization ran
        carries early role =
      let (known, mine, same, ours) = known_owner a a' who e fresh_user fresh_organization ran in
      let u = new_user p argon draw dto (user_hash p argon draw dto) in
      let m = owner_membership p argon draw dto in
      let state = record a' { sessions = sessions } in
      (
        record {
          auth = some (record { session = new_session p u.id issue; user = u });
          membership = m;
        },
        rw same (
            authorize-issued p issue u m draw.organization_id state request route now
              (rw (← same, ← ours) carries) known mine early (roles_guard-owner route m refl role)),
        refl,
        (_, refl, sym same),
      )
