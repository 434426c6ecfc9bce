-- ===== src/Api/Mediated.antt =====
-- Whoever changes the stock tables through the routes of an organization has passed its guards.
use fulfill_os.Prelude.{ℕ, ◌≡◌, refl, ap, some, true, List, [], arith, ◌⊎◌, inl, inr}
use fulfill_os.Platform.{Platform, Env}
use fulfill_os.Database.{Db}
use fulfill_os.Sessions.{Session, AuthenticatedSession, verify_csrf_token}
use fulfill_os.Access.{
  MembershipRole, owner, staff, is_safe, includes, same_role, Request, Decision, allowed, refused,
  Grant, authorize,
}
use fulfill_os.Access.Mediation.{IsMediated, authorize-IsMediated}
use fulfill_os.Auth.{Accounts}
use fulfill_os.Api.{
  Call, products_page, one_product, new_product_call, inventory_list, adjustment_call, orders_page,
  one_order, fulfill_call, cancel_call, products_call, inventory_call, orders_call,
  reservations_call, dashboard_call, method_of, roles_of, guard_refusal, route_of, handle, Response,
  routed, serve, answered, organization_of, current_user,
}

Decision-split :
    {A : Type 0} {B : Type 0} (r : Decision A × B)
    → ((x : A) × (t : B) × (r ≡ (allowed x, t)))
      ⊎ ((status : ℕ) × (t : B) × (r ≡ (refused status, t)))
Decision-split (allowed x, t) = inl (x, t, refl)
Decision-split (refused status, t) = inr (status, t, refl)

-- A call that changes the catalog, or a count without an order.
abbrev pub IsForOwners : Call → Type 0
IsForOwners (products_call (new_product_call _)) = Unit
IsForOwners (inventory_call (adjustment_call _ _)) = Unit
IsForOwners _ = ⊥

includes-owner :
    (call : Call) (role : MembershipRole)
    → (roles_of call ≡ []) ⊎ (includes (roles_of call) role ≡ true)
    → IsForOwners call
    → role ≡ owner
unfolding roles_of includes same_role
includes-owner (products_call (products_page _)) role asked no_one = elim no_one [ ]
includes-owner (products_call (one_product _)) role asked no_one = elim no_one [ ]
includes-owner (products_call (new_product_call _)) owner asked _ = refl
includes-owner (products_call (new_product_call _)) staff asked _ = absurd (grind (arith, asked))
includes-owner (inventory_call inventory_list) role asked no_one = elim no_one [ ]
includes-owner (inventory_call (adjustment_call _ _)) owner asked _ = refl
includes-owner (inventory_call (adjustment_call _ _)) staff asked _ = absurd (grind (arith, asked))
includes-owner (orders_call _) role asked no_one = elim no_one [ ]
includes-owner (reservations_call _) role asked no_one = elim no_one [ ]
includes-owner dashboard_call role asked no_one = elim no_one [ ]

handle-is_safe :
    (p : Platform) (env : Env) (organization user : ℕ) (call : Call) (db : Db)
    → is_safe (method_of call) ≡ true
    → (handle p env organization user call db).1 ≡ db
unfolding is_safe method_of
handle-is_safe p env g user (products_call (products_page _)) db safe = refl
handle-is_safe p env g user (products_call (one_product _)) db safe = refl
handle-is_safe p env g user (products_call (new_product_call _)) db safe = cc
handle-is_safe p env g user (inventory_call inventory_list) db safe = refl
handle-is_safe p env g user (inventory_call (adjustment_call _ _)) db safe = cc
handle-is_safe p env g user (orders_call (orders_page _)) db safe = refl
handle-is_safe p env g user (orders_call (one_order _)) db safe = refl
handle-is_safe p env g user (orders_call (fulfill_call _ _)) db safe = cc
handle-is_safe p env g user (orders_call (cancel_call _ _)) db safe = cc
handle-is_safe p env g user (reservations_call _) db safe = cc
handle-is_safe p env g user dashboard_call db safe = refl

module _ (p : Platform) (env : Env) (call : Call) (request : Request) (now : ℕ)
    (accounts : Accounts) (db : Db) where
  -- The handler was run for a mediated grant: for the organization of its membership and the user
  -- of its session.
  abbrev pub IsGranted : Response → Type 0
  IsGranted r =
      (grant : Grant) × (a : AuthenticatedSession) × IsMediated p (route_of call)
        (routed call request) now accounts.sessions r.sessions grant
      × (grant.auth ≡ some a)
      × ((r.answer, r.db) ≡ handle p env grant.membership.organization_id a.user.id call db)
      × (IsForOwners call → grant.membership.role ≡ owner)
      × ((r.db ≡ db)
          ⊎ ((candidate : ℕ) × (request.csrf_header ≡ some candidate)
              × (verify_csrf_token p a.session candidate ≡ true)))

  serve-refused :
      (status : ℕ) (t : List Session)
      → authorize p
          (route_of call)
          (routed call request)
          now
          accounts.users
          accounts.memberships
          accounts.sessions
        ≡ (refused status, t)
      → serve p env call request now accounts db
        ≡ record { answer = guard_refusal status; sessions = t; db = db }
  unfolding serve
  serve-refused status t no_ = rw (no_, serve) refl

  serve-granted :
      (grant : Grant) (t : List Session)
      → authorize p
          (route_of call)
          (routed call request)
          now
          accounts.users
          accounts.memberships
          accounts.sessions
        ≡ (allowed grant, t)
      → serve p env call request now accounts db
        ≡ answered p env call request now (allowed grant) t db
  unfolding serve
  serve-granted grant t yes_ = rw (yes_, serve) refl

  granted :
      (grant : Grant) (t : List Session)
      → IsMediated p (route_of call) (routed call request) now accounts.sessions t grant
      → IsGranted (answered p env call request now (allowed grant) t db)
  granted grant t mediated =
      let (a, _, organization, known, _, _, named, _, _, its, role, csrf) = mediated in
      let done : (handle p env (organization_of p request) (current_user grant.auth) call db)
          ≡ handle p env grant.membership.organization_id a.user.id call db =
        rw (known, named, its) refl in
      (
        grant,
        a,
        mediated,
        known,
        done,
        includes-owner call grant.membership.role role,
        elim csrf [
          | inl safe ↦ inl (
              handle-is_safe p env (organization_of p request) (current_user grant.auth) call db
                safe)
          | inr token ↦ inr token
        ],
      )

  -- Whatever the request, either a guard refuses it with its status and the stock tables stay as
  -- they were, or the answer and the stock tables are those of the handler of its route, run for a
  -- granted request: one with the token of a live session, for its user and for an organization of
  -- which that user is a member, in a role that the route asks for. A product is created and stock
  -- is adjusted only for an owner, and the stock tables change only under the CSRF token of the
  -- session.
  pub serve-IsMediated :
      ((status : ℕ) × ((serve p env call request now accounts db).answer ≡ guard_refusal status)
        × ((serve p env call request now accounts db).db ≡ db))
      ⊎ IsGranted (serve p env call request now accounts db)
  serve-IsMediated =
      elim (Decision-split (
        authorize p (route_of call) (routed call request) now accounts.users accounts.memberships
          accounts.sessions)) [
            | inr (status, t, e) ↦ inl (
              status,
              ap (λ r. r.answer) (serve-refused status t e),
              ap (λ r. r.db) (serve-refused status t e),
            )
            | inl (grant, t, e) ↦ inr (
                rw (serve-granted grant t e) (
                  granted grant t (
                    authorize-IsMediated p (route_of call) (routed call request) now accounts.users
                      accounts.memberships accounts.sessions t grant e)))
          ]
