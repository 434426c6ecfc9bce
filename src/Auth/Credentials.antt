-- ===== src/Auth/Credentials.antt =====
-- `login` of apps/api/src/auth/auth.service.ts on every branch.
use fulfill_os.Prelude.{
  ◌≡◌, refl, true, false, String, none, some, ◌∷◌, ◌⊎◌, inl, inr, same_text, same_text_iff,
  Bool-cases, Option-cases,
}
use fulfill_os.Platform.{Platform}
use fulfill_os.Passwords.{
  Argon2, VerifiesOwn, hash_password, verify_password, verify_password-hash_password,
}
use fulfill_os.Common.Body.{rejection, invalid_credentials}
use fulfill_os.Database.Thrown.{http_exception}
use fulfill_os.Database.Tx.{Result, ok, err}
use fulfill_os.Sessions.{
  User, CreatedSession, Issue, has_hash, sha256_hex, new_session, create_session, find_user,
}
use fulfill_os.Organizations.{get_organization}
use fulfill_os.Auth.{
  sign_in, Accounts, RegisterBody, LoginBody, RegisteredIdentity, SignedIn, Draw,
  omit_password_hash, find_email, new_user, register, login,
}
use fulfill_os.Auth.Enrolled.{IsEnrolled, user_hash, register-accepted}

module _ (p : Platform) (argon : Argon2) (dummy : String) (issue : Issue) (dto : LoginBody) where
  abbrev refusal : Result SignedIn
  refusal = err (http_exception 401 (rejection invalid_credentials))

  abbrev session_of : User → CreatedSession
  session_of u = record {
    session = new_session p u.id issue;
    token = issue.token;
    csrf_token = issue.csrf_token;
  }

  -- What a sign-in has done, by its answer.
  abbrev pub Answered : Accounts → Result SignedIn → Accounts → Type 0
  Answered a answer a' =
      ((u : User) × (find_email (p.lower_trim dto.email) a.users ≡ some u)
        × (verify_password argon u.password_hash dto.password ≡ true)
        × (answer ≡ ok (record { user = omit_password_hash u; session = session_of u }))
        × (a' ≡ record a { sessions = new_session p u.id issue ∷ a.sessions }))
      ⊎ (((find_email (p.lower_trim dto.email) a.users ≡ none)
            ⊎ ((u : User) × (find_email (p.lower_trim dto.email) a.users ≡ some u)
                × (verify_password argon u.password_hash dto.password ≡ false)))
          × (answer ≡ refusal)
          × (a' ≡ a))

  login-unknown :
      (a : Accounts)
      → find_email (p.lower_trim dto.email) a.users ≡ none
      → login p argon dummy issue dto a ≡ (refusal, a)
  unfolding login sign_in
  login-unknown a unknown = rw (unknown, login) refl

  login-wrong :
      (a : Accounts) (u : User)
      → find_email (p.lower_trim dto.email) a.users ≡ some u
      → verify_password argon u.password_hash dto.password ≡ false
      → login p argon dummy issue dto a ≡ (refusal, a)
  unfolding login sign_in
  login-wrong a u known wrong = rw (known, login) (rw wrong refl)

  login-right :
      (a : Accounts) (u : User)
      → find_email (p.lower_trim dto.email) a.users ≡ some u
      → verify_password argon u.password_hash dto.password ≡ true
      → has_hash (sha256_hex p issue.token) a.sessions ≡ false
      → login p argon dummy issue dto a ≡ (
        ok (record { user = omit_password_hash u; session = session_of u }),
        record a { sessions = new_session p u.id issue ∷ a.sessions },
      )
  unfolding login sign_in create_session
  login-right a u known right fresh = rw (known, login) (rw (right, fresh) refl)

  -- With a token whose hash no session has, a sign-in answers with the user of the email, and a new
  -- session of that user, where the password verifies against that user's hash; in every other case,
  -- an unknown email or a wrong password, it gives one and the same answer and changes nothing.
  pub login_total :
      (a : Accounts)
      → has_hash (sha256_hex p issue.token) a.sessions ≡ false
      → (answer : Result SignedIn) × (a' : Accounts) × (login p argon dummy issue dto a
          ≡ (answer, a'))
        × Answered a answer a'
  login_total a fresh = elim (Option-cases (find_email (p.lower_trim dto.email) a.users)) [
    | inl unknown ↦ (refusal, a, login-unknown a unknown, inr (inl unknown, refl, refl))
    | inr (u, known) ↦ elim (Bool-cases (verify_password argon u.password_hash dto.password)) [
      | inl right ↦ (_, _, login-right a u known right fresh, inl (u, known, right, refl, refl))
      | inr wrong ↦
          (refusal, a, login-wrong a u known wrong, inr (inr (u, known, wrong), refl, refl))
    ]
  ]

module _ (p : Platform) (argon : Argon2) (draw : Draw) (dto : RegisterBody) where
  -- On accounts whose keys and references hold, with fresh uuids and an argon2 whose hashes verify
  -- their own password, the user of an accepted registration can sign in: with the same password,
  -- and any spelling of the email that JavaScript normalizes as PostgreSQL normalized the registered
  -- one, the sign-in answers with the registered user and a new session of that user.
  pub login-register :
      (a a' : Accounts) (who : RegisteredIdentity) (dummy email : String) (issue : Issue)
      → IsEnrolled a
      → find_user draw.user_id a.users ≡ none
      → get_organization draw.organization_id a.organizations ≡ none
      → VerifiesOwn argon
      → register p argon draw dto a ≡ (ok who, a')
      → p.lower_trim email ≡ p.lower_btrim dto.email
      → has_hash (sha256_hex p issue.token) a'.sessions ≡ false
      → (s : SignedIn) × (login p argon dummy issue
            (record { email = email; password = dto.password })
            a'
          ≡ (ok s, record a' { sessions = s.session.session ∷ a'.sessions }))
        × (s.user ≡ who.user)
        × (s.session.session.user_id ≡ who.user.id)
        × (s.session.token ≡ issue.token)
  unfolding find_email hash_password omit_password_hash
  login-register a a' who dummy email issue e fresh_user fresh_organization own ran same fresh =
      let (its, state, inside, _, _) =
        register-accepted p argon draw dto a a' who e fresh_user fresh_organization ran in
      let u = new_user p argon draw dto (user_hash p argon draw dto) in
      let itself : same_text (p.lower_btrim dto.email) (p.lower_btrim dto.email) ≡ true =
        (same_text_iff (p.lower_btrim dto.email) (p.lower_btrim dto.email)).1 refl in
      let right : verify_password argon u.password_hash dto.password ≡ true =
        verify_password-hash_password argon own draw.salt dto.password u.password_hash
          (rw inside refl) in
      let known : find_email (p.lower_trim email) a'.users ≡ some u =
        rw (state, same) (rw itself refl) in
      (
        record {
          user = omit_password_hash u;
          session =
              session_of p argon dummy issue (record { email = email; password = dto.password }) u;
        },
        login-right p argon dummy issue (record { email = email; password = dto.password }) a' u
            known right fresh,
        rw its refl,
        rw its refl,
        refl,
      )
