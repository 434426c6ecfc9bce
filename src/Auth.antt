-- ===== src/Auth.antt =====
-- apps/api/src/auth/auth.service.ts, and `omitPasswordHash` of apps/api/src/common/user.util.ts, on
-- the tables `users`, `organizations`, `memberships` and `sessions`. A uuid is a number, an instant
-- a number of microseconds, and of a session of milliseconds.
pub mod Enrolled
pub mod Visible
pub mod Credentials
pub mod Admission
pub mod Handlers
use fulfill_os.Prelude.{
  ℕ, ◌≡◌, Bool, true, false, not, String, Option, none, some, List, [], ◌∷◌, ◌==◌, ◌&&◌, ◌||◌,
  same_text, if◌then◌else◌,
}
use fulfill_os.Platform.{Platform}
use fulfill_os.Passwords.{Argon2, hash_password, verify_password}
use fulfill_os.Common.Body.{rejection, email_taken, invalid_credentials}
use fulfill_os.Common.PgError.{pg_error_code, is_unique_violation}
use fulfill_os.Database.Thrown.{
  Thrown, unique_violation, foreign_key_violation, pg_failure, organizations_pkey, users_pkey,
  users_email_normalized_key, memberships_org_user_key, http_exception,
}
use fulfill_os.Database.Tx.{Result, ok, err, and_then, Tx, ◌>>=◌, ◌>>◌, pure, transaction}
use fulfill_os.Sessions.{
  User, Session, CreatedSession, Issue, find_user, create_session, revoke_by_token,
}
use fulfill_os.Organizations.{Organization, get_organization}
use fulfill_os.Access.{Membership, owner, get_membership}

pub record Accounts : Type 0 where
  pub users : List User
  pub organizations : List Organization
  pub memberships : List Membership
  pub sessions : List Session

pub record RegisterBody : Type 0 where
  pub email : String
  pub password : String
  pub display_name : String
  pub organization_name : String

pub record LoginBody : Type 0 where
  pub email : String
  pub password : String

-- `Omit<User, 'passwordHash'>`
pub record PublicUser : Type 0 where
  pub id : ℕ
  pub email : String
  pub email_normalized : String
  pub display_name : String
  pub created_at : ℕ
  pub updated_at : ℕ

unfoldable pub omit_password_hash : User → PublicUser
omit_password_hash u = record {
  id = u.id;
  email = u.email;
  email_normalized = u.email_normalized;
  display_name = u.display_name;
  created_at = u.created_at;
  updated_at = u.updated_at;
}

pub record RegisteredIdentity : Type 0 where
  pub user : PublicUser
  pub organization_id : ℕ

pub record SignedIn : Type 0 where
  pub user : PublicUser
  pub session : CreatedSession

-- What a registration draws: the uuids of its rows, the salt and the clock.
pub record Draw : Type 0 where
  pub organization_id : ℕ
  pub user_id : ℕ
  pub salt : ℕ
  pub now : ℕ

unfoldable pub find_email : String → List User → Option User
find_email email [] = none
find_email email (u ∷ us) =
    if same_text u.email_normalized email then some u else find_email email us

-- The inserts, under the keys and the references of their tables.
unfoldable pub insert_organization : Organization → Tx Accounts (Unit {0})
unfolding pg_failure get_organization
insert_organization x a = elim (get_organization x.id a.organizations) [
  | some _ ↦ err (pg_failure unique_violation (some organizations_pkey))
  | none ↦ ok (tt, record a { organizations = x ∷ a.organizations })
]

unfoldable pub insert_user : User → Tx Accounts (Unit {0})
unfolding pg_failure find_user find_email
insert_user u a = elim (find_user u.id a.users) [
  | some _ ↦ err (pg_failure unique_violation (some users_pkey))
  | none ↦ elim (find_email u.email_normalized a.users) [
    | some _ ↦ err (pg_failure unique_violation (some users_email_normalized_key))
    | none ↦ ok (tt, record a { users = u ∷ a.users })
  ]
]

abbrev is_known {ℓ} : {A : Type ℓ} → Option A → Bool
is_known none = false
is_known (some _) = true

unfoldable pub insert_membership : Membership → Tx Accounts (Unit {0})
unfolding pg_failure get_membership find_user get_organization
insert_membership m a = elim (get_membership m.user_id m.organization_id a.memberships) [
  | some _ ↦ err (pg_failure unique_violation (some memberships_org_user_key))
  | none ↦
      if is_known (find_user m.user_id a.users)
        && is_known (get_organization m.organization_id a.organizations)
      then ok (tt, record a { memberships = m ∷ a.memberships })
      else err (pg_failure foreign_key_violation none)
]

-- The `catch` of `register`.
abbrev pub email_error : {A : Type 0} → Result A → Result A
email_error (ok a) = ok a
email_error (err e) =
    if is_unique_violation (pg_error_code e)
    then err (http_exception 409 (rejection email_taken))
    else err e

module _ (p : Platform) (argon : Argon2) where
  module _ (draw : Draw) (dto : RegisterBody) where
    abbrev pub new_organization : Organization
    new_organization = record {
      id = draw.organization_id;
      name = dto.organization_name;
      created_at = draw.now;
      updated_at = draw.now;
    }

    abbrev pub new_user : String → User
    new_user hash = record {
      id = draw.user_id;
      email = dto.email;
      email_normalized = p.lower_btrim dto.email;
      display_name = dto.display_name;
      password_hash = hash;
      created_at = draw.now;
      updated_at = draw.now;
    }

    abbrev pub owner_membership : Membership
    owner_membership = record {
      organization_id = draw.organization_id;
      user_id = draw.user_id;
      role = owner;
    }

    unfoldable pub enrol : String → Tx Accounts RegisteredIdentity
    unfolding insert_organization insert_user insert_membership omit_password_hash
    enrol hash = do
      insert_organization new_organization
      insert_user (new_user hash)
      insert_membership owner_membership
      pure (record {
        user = omit_password_hash (new_user hash);
        organization_id = draw.organization_id;
      })

    unfoldable pub register : Accounts → Result RegisteredIdentity × Accounts
    register accounts = elim (hash_password argon draw.salt dto.password) [
      | err e ↦ (err e, accounts)
      | ok hash ↦
          let (result, after) = transaction (enrol hash) accounts in (email_error result, after)
    ]

  -- `user?.passwordHash ?? DUMMY_HASH`
  abbrev pub hash_to_verify : String → Option User → String
  hash_to_verify dummy_hash none = dummy_hash
  hash_to_verify dummy_hash (some u) = u.password_hash

  -- What follows the row of the email, or `undefined`.
  unfoldable pub sign_in :
      String → Issue → LoginBody → Option User → Accounts → Result SignedIn × Accounts
  unfolding verify_password create_session omit_password_hash
  sign_in dummy_hash issue dto user accounts =
      let matches = verify_password argon (hash_to_verify dummy_hash user) dto.password in
      elim user [
        | none ↦ (err (http_exception 401 (rejection invalid_credentials)), accounts)
        | some u ↦
            if not matches
            then (err (http_exception 401 (rejection invalid_credentials)), accounts)
            else elim (create_session p u.id issue accounts.sessions) [
              | err e ↦ (err e, accounts)
              | ok (session, sessions) ↦ (
                ok (record { user = omit_password_hash u; session = session }),
                record accounts { sessions = sessions },
              )
            ]
      ]

  unfoldable pub login : String → Issue → LoginBody → Accounts → Result SignedIn × Accounts
  unfolding find_email sign_in
  login dummy_hash issue dto accounts =
      sign_in dummy_hash issue dto (find_email (p.lower_trim dto.email) accounts.users) accounts

logout : Platform → ℕ → ℕ → Accounts → Accounts
unfolding revoke_by_token
logout p raw_token now accounts = record accounts {
  sessions = revoke_by_token p raw_token now accounts.sessions;
}
