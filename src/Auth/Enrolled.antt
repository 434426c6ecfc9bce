-- ===== src/Auth/Enrolled.antt =====
-- `register` of apps/api/src/auth/auth.service.ts on every branch, and what its user can see.
use fulfill_os.Prelude.{
  ℕ, ◌≡◌, ◌≢◌, refl, sym, ap, ◌∙◌, true, false, String, none, some, List, [], ◌∷◌, ◌⊎◌, inl, inr,
  arith, ◌==◌, All, All-map, Bool-cases, Option-cases,
}
use fulfill_os.Platform.{Platform}
use fulfill_os.Passwords.{Argon2, has_length, hash_password}
use fulfill_os.Common.Body.{rejection, email_taken}
use fulfill_os.Common.PgError.{pg_error_code, is_unique_violation}
use fulfill_os.Database.Thrown.{
  unique_violation, pg_failure, users_email_normalized_key, http_exception, password_length,
}
use fulfill_os.Database.Tx.{Result, ok, err, transaction-ok, transaction-err}
use fulfill_os.Sessions.{User, find_user}
use fulfill_os.Organizations.{Organization, get_organization}
use fulfill_os.Access.{Membership, get_membership}
use fulfill_os.Auth.{
  Accounts, RegisterBody, RegisteredIdentity, Draw, omit_password_hash, find_email,
  insert_organization, insert_user, insert_membership, new_organization, new_user, owner_membership,
  enrol, register,
}

abbrev UsersKeyed : List User → Type 0
UsersKeyed [] = Unit
UsersKeyed (u ∷ us) =
    (find_user u.id us ≡ none) × (find_email u.email_normalized us ≡ none) × UsersKeyed us

abbrev OrganizationsKeyed : List Organization → Type 0
OrganizationsKeyed [] = Unit
OrganizationsKeyed (x ∷ xs) = (get_organization x.id xs ≡ none) × OrganizationsKeyed xs

abbrev MembershipsKeyed : List Membership → Type 0
MembershipsKeyed [] = Unit
MembershipsKeyed (m ∷ ms) =
    (get_membership m.user_id m.organization_id ms ≡ none) × MembershipsKeyed ms

-- A membership is that of a user in an organization.
abbrev pub IsKnown : List User → List Organization → Membership → Type 0
IsKnown users organizations m =
    (find_user m.user_id users ≢ none) × (get_organization m.organization_id organizations ≢ none)

-- The keys and the references of the tables.
pub record IsEnrolled (a : Accounts) : Type 0 where
  pub users_keyed : UsersKeyed a.users
  pub organizations_keyed : OrganizationsKeyed a.organizations
  pub memberships_keyed : MembershipsKeyed a.memberships
  pub known : All (IsKnown a.users a.organizations) a.memberships

no_membership :
    (i g : ℕ) (users : List User) (organizations : List Organization) (ms : List Membership)
    → find_user i users ≡ none
    → All (IsKnown users organizations) ms
    → get_membership i g ms ≡ none
unfolding get_membership
no_membership i g users organizations [] fresh k = refl
no_membership i g users organizations (m ∷ ms) fresh k =
    let rest = no_membership i g users organizations ms fresh k.1 in
    elim (Bool-cases (m.user_id == i)) [
      | inl same ↦ absurd (k.0.0 (ground (arith, same, fresh)))
      | inr other ↦ ground (arith, other, rest)
    ]

abbrev ok_pair : Result RegisteredIdentity → Accounts → Result RegisteredIdentity × Accounts
ok_pair r a = (r, a)

module _ (p : Platform) (argon : Argon2) (draw : Draw) (dto : RegisterBody) where
  abbrev pub user_hash : String
  user_hash = argon.hash draw.salt dto.password

  abbrev pub identity : RegisteredIdentity
  identity = record {
    user = omit_password_hash (new_user p argon draw dto user_hash);
    organization_id = draw.organization_id;
  }

  abbrev pub with_account : Accounts → Accounts
  with_account a = record a {
    users = new_user p argon draw dto user_hash ∷ a.users;
    organizations = new_organization p argon draw dto ∷ a.organizations;
    memberships = owner_membership p argon draw dto ∷ a.memberships;
  }

  -- What a registration has done, by its answer.
  abbrev pub Registered : Accounts → Result RegisteredIdentity → Accounts → Type 0
  Registered a answer a' =
      ((has_length argon dto.password ≡ true)
        × (find_email (p.lower_btrim dto.email) a.users ≡ none)
        × (answer ≡ ok identity)
        × (a' ≡ with_account a))
      ⊎ ((has_length argon dto.password ≡ true)
          × (find_email (p.lower_btrim dto.email) a.users ≢ none)
          × (answer ≡ err (http_exception 409 (rejection email_taken)))
          × (a' ≡ a))
      ⊎ ((has_length argon dto.password ≡ false) × (answer ≡ err password_length) × (a' ≡ a))

  module _ (a : Accounts) (fresh_user : find_user draw.user_id a.users ≡ none)
      (fresh_organization : get_organization draw.organization_id a.organizations ≡ none) where
    abbrev with_organization : Accounts
    with_organization = record a {
      organizations = new_organization p argon draw dto ∷ a.organizations;
    }

    abbrev with_user : Accounts
    with_user = record with_organization { users = new_user p argon draw dto user_hash ∷ a.users }

    organization-ok :
        insert_organization (new_organization p argon draw dto) a ≡ ok (tt, with_organization)
    unfolding insert_organization
    organization-ok = rw (fresh_organization, insert_organization) refl

    user-ok :
        find_email (p.lower_btrim dto.email) a.users ≡ none
        → insert_user (new_user p argon draw dto user_hash) with_organization ≡ ok (tt, with_user)
    unfolding insert_user
    user-ok untaken = rw (fresh_user, insert_user) (rw untaken refl)

    user-taken :
        (other : User)
        → find_email (p.lower_btrim dto.email) a.users ≡ some other
        → insert_user (new_user p argon draw dto user_hash) with_organization
          ≡ err (pg_failure unique_violation (some users_email_normalized_key))
    unfolding insert_user
    user-taken other taken = rw (fresh_user, insert_user) (rw taken refl)

    membership-ok :
        get_membership draw.user_id draw.organization_id a.memberships ≡ none
        → insert_membership (owner_membership p argon draw dto) with_user ≡ ok (tt, with_account a)
    unfolding insert_membership find_user get_organization
    membership-ok free =
        let u : (draw.user_id == draw.user_id) ≡ true = ground arith in
        let g : (draw.organization_id == draw.organization_id) ≡ true = ground arith in
        rw (free, insert_membership) (rw (u, g) refl)

    enrol-ok :
        find_email (p.lower_btrim dto.email) a.users ≡ none
        → get_membership draw.user_id draw.organization_id a.memberships ≡ none
        → enrol p argon draw dto user_hash a ≡ ok (identity, with_account a)
    unfolding enrol
    enrol-ok untaken free = rw organization-ok (rw (user-ok untaken) (rw (membership-ok free) refl))

    enrol-taken :
        (other : User)
        → find_email (p.lower_btrim dto.email) a.users ≡ some other
        → enrol p argon draw dto user_hash a
          ≡ err (pg_failure unique_violation (some users_email_normalized_key))
    unfolding enrol
    enrol-taken other taken = rw organization-ok (rw (user-taken other taken) refl)

  -- What the answer is, by how the password and the transaction went.
  register-short :
      (a : Accounts)
      → has_length argon dto.password ≡ false
      → register p argon draw dto a ≡ (err password_length, a)
  unfolding register hash_password
  register-short a outside = rw (outside, register) refl

  register-ok :
      (a : Accounts)
      → has_length argon dto.password ≡ true
      → enrol p argon draw dto user_hash a ≡ ok (identity, with_account a)
      → register p argon draw dto a ≡ (ok identity, with_account a)
  unfolding register hash_password
  register-ok a inside ran =
      rw (inside, register)
        (rw (transaction-ok (enrol p argon draw dto user_hash) a _ identity ran) refl)

  register-taken :
      (a : Accounts)
      → has_length argon dto.password ≡ true
      → enrol p argon draw dto user_hash a
        ≡ err (pg_failure unique_violation (some users_email_normalized_key))
      → register p argon draw dto a ≡ (err (http_exception 409 (rejection email_taken)), a)
  unfolding register hash_password pg_error_code is_unique_violation pg_failure
  register-taken a inside threw =
      rw (inside, register) (rw (transaction-err (enrol p argon draw dto user_hash) a _ threw) refl)

  with_account-IsEnrolled :
      (a : Accounts)
      → IsEnrolled a
      → find_user draw.user_id a.users ≡ none
      → get_organization draw.organization_id a.organizations ≡ none
      → find_email (p.lower_btrim dto.email) a.users ≡ none
      → IsEnrolled (with_account a)
  unfolding find_user get_organization
  with_account-IsEnrolled a e fresh_user fresh_organization untaken =
      let mine : (draw.user_id == draw.user_id) ≡ true = ground arith in
      let ours : (draw.organization_id == draw.organization_id) ≡ true = ground arith in
      let users = new_user p argon draw dto user_hash ∷ a.users in
      let organizations = new_organization p argon draw dto ∷ a.organizations in
      record {
        users_keyed = (fresh_user, untaken, e.users_keyed);
        organizations_keyed = (fresh_organization, e.organizations_keyed);
        memberships_keyed = (
          no_membership draw.user_id draw.organization_id a.users a.organizations a.memberships
              fresh_user e.known,
          e.memberships_keyed,
        );
        known = (
          (rw mine (λ h. cc), rw ours (λ h. cc)),
          All-map (IsKnown a.users a.organizations) (IsKnown users organizations) a.memberships
              (λ m k. (ground (arith, k.0), ground (arith, k.1))) e.known,
        );
      }

  -- On accounts whose keys and references hold, and with fresh uuids for its rows, a registration
  -- never throws another error than its own: a password out of range is refused, a taken email is
  -- answered with 409, and both change nothing; else it adds the user, the organization and the
  -- owner's membership. The keys and references hold after it.
  pub register_total :
      (a : Accounts)
      → IsEnrolled a
      → find_user draw.user_id a.users ≡ none
      → get_organization draw.organization_id a.organizations ≡ none
      → (answer : Result RegisteredIdentity) × (a' : Accounts) × (register p argon draw dto a
          ≡ (answer, a'))
        × IsEnrolled a'
        × Registered a answer a'
  register_total a e fresh_user fresh_organization =
      elim (Bool-cases (has_length argon dto.password)) [
        | inr outside ↦
            (err password_length, a, register-short a outside, e, inr (inr (outside, refl, refl)))
        | inl inside ↦ elim (Option-cases (find_email (p.lower_btrim dto.email) a.users)) [
          | inl untaken ↦
              let free =
                no_membership draw.user_id draw.organization_id a.users a.organizations
                  a.memberships fresh_user e.known in
              (
                ok identity,
                with_account a,
                register-ok a inside (enrol-ok a fresh_user fresh_organization untaken free),
                with_account-IsEnrolled a e fresh_user fresh_organization untaken,
                inl (inside, untaken, refl, refl),
              )
          | inr (other, taken) ↦ (
            err (http_exception 409 (rejection email_taken)),
            a,
            register-taken a inside (enrol-taken a fresh_user fresh_organization other taken),
            e,
            inr (inl (inside, cc, refl, refl)),
          )
        ]
      ]

  -- What an accepted registration is.
  pub register-accepted :
      (a a' : Accounts) (who : RegisteredIdentity)
      → IsEnrolled a
      → find_user draw.user_id a.users ≡ none
      → get_organization draw.organization_id a.organizations ≡ none
      → register p argon draw dto a ≡ (ok who, a')
      → (who ≡ identity)
        × (a' ≡ with_account a)
        × (has_length argon dto.password ≡ true)
        × IsEnrolled a'
        × (find_email (p.lower_btrim dto.email) a.users ≡ none)
  register-accepted a a' who e fresh_user fresh_organization ran =
      let (answer, a2, ran2, e2, did) = register_total a e fresh_user fresh_organization in
      let same : ok_pair answer a2 ≡ ok_pair (ok who) a' = sym ran2 ∙ ran in
      let its : answer ≡ ok who = ap (λ r. r.0) same in
      let state : a2 ≡ a' = ap (λ r. r.1) same in
      elim did [
        | inl (inside, untaken, answered, stored) ↦
            (cc (its, answered), sym state ∙ stored, inside, rw (← state) e2, untaken)
        | inr (inl (_, _, answered, _)) ↦ cc (its, answered)
        | inr (inr (_, answered, _)) ↦ cc (its, answered)
      ]
