-- ===== src/Sessions.antt =====
-- apps/api/src/auth/session.service.ts on the `sessions` table. Instants are milliseconds. A digest
-- is the number of its hexadecimal text, so that the comparison of two digests by bytes is that of
-- their numbers.
pub mod Lifecycle
use fulfill_os.Prelude.{
  ℕ, String, ◌+◌, ◌*◌, Bool, true, false, Option, none, some, List, [], ◌∷◌, ◌&&◌, ◌==◌, ltb,
  if◌then◌else◌,
}
use fulfill_os.Prelude.Int.{pos, sub_ℕ, ltb_ℤ}
use fulfill_os.Platform.{Platform}
use fulfill_os.Database.Thrown.{unique_violation, pg_failure, sessions_token_hash_key}
use fulfill_os.Database.Tx.{ok, err, Tx}

-- `email_normalized` is the generated column.
pub record User : Type 0 where
  pub id : ℕ
  pub email : String
  pub email_normalized : String
  pub display_name : String
  pub password_hash : String
  pub created_at : ℕ
  pub updated_at : ℕ

pub record Session : Type 0 where
  pub id : ℕ
  pub user_id : ℕ
  pub token_hash : ℕ
  pub csrf_secret_hash : ℕ
  pub created_at : ℕ
  pub last_activity_at : ℕ
  pub idle_expires_at : ℕ
  pub absolute_expires_at : ℕ
  pub revoked_at : Option ℕ

pub record AuthenticatedSession : Type 0 where
  pub session : Session
  pub user : User

pub record CreatedSession : Type 0 where
  pub session : Session
  pub token : ℕ
  pub csrf_token : ℕ

abbrev pub idle_timeout_ms : ℕ
idle_timeout_ms = 30 * 60 * 1000

abbrev pub absolute_timeout_ms : ℕ
absolute_timeout_ms = 8 * 60 * 60 * 1000

abbrev pub activity_touch_throttle_ms : ℕ
activity_touch_throttle_ms = 60 * 1000

-- What one sign-in is given: the new row's id, the clock, and the two calls of `randomToken`.
pub record Issue : Type 0 where
  pub new_id : ℕ
  pub now : ℕ
  pub token : ℕ
  pub csrf_token : ℕ

abbrev pub is_unset : Option ℕ → Bool
is_unset none = true
is_unset (some _) = false

unfoldable pub has_hash : ℕ → List Session → Bool
has_hash h [] = false
has_hash h (s ∷ t) = if s.token_hash == h then true else has_hash h t

unfoldable pub find_user : ℕ → List User → Option User
find_user i [] = none
find_user i (u ∷ us) = if u.id == i then some u else find_user i us

-- The conditions of `validateToken` on the row.
abbrev pub is_live : ℕ → ℕ → Session → Bool
is_live now h s =
    s.token_hash == h
    && is_unset s.revoked_at
    && ltb now s.idle_expires_at
    && ltb now s.absolute_expires_at

-- The first row of the join.
unfoldable pub find_live : List User → ℕ → ℕ → List Session → Option AuthenticatedSession
unfolding find_user
find_live users now h [] = none
find_live users now h (s ∷ t) =
    let rest = find_live users now h t in
    if is_live now h s
    then elim (find_user s.user_id users) [
      | none ↦ rest
      | some u ↦ some (record { session = s; user = u })
    ]
    else rest

-- `UPDATE sessions SET … WHERE …`
update_sessions : (Session → Bool) → (Session → Session) → List Session → List Session
update_sessions f g [] = []
update_sessions f g (s ∷ t) = (if f s then g s else s) ∷ update_sessions f g t

module _ (p : Platform) where
  abbrev pub sha256_hex : ℕ → ℕ
  sha256_hex value = p.sha256 (p.text_units value)

  abbrev pub new_session : ℕ → Issue → Session
  new_session user i = record {
    id = i.new_id;
    user_id = user;
    token_hash = sha256_hex i.token;
    csrf_secret_hash = sha256_hex i.csrf_token;
    created_at = i.now;
    last_activity_at = i.now;
    idle_expires_at = i.now + idle_timeout_ms;
    absolute_expires_at = i.now + absolute_timeout_ms;
    revoked_at = none;
  }

  unfoldable pub create_session : ℕ → Issue → Tx (List Session) CreatedSession
  unfolding pg_failure has_hash
  create_session user i sessions =
      if has_hash (sha256_hex i.token) sessions
      then err (pg_failure unique_violation (some sessions_token_hash_key))
      else ok (
        record { session = new_session user i; token = i.token; csrf_token = i.csrf_token },
        new_session user i ∷ sessions,
      )

  abbrev pub touched : ℕ → Session → Session
  touched now s = record s { last_activity_at = now; idle_expires_at = now + idle_timeout_ms }

  unfoldable pub touch : Session → ℕ → List Session → List Session
  unfolding update_sessions
  touch session now sessions =
      if ltb_ℤ (sub_ℕ now session.last_activity_at) (pos activity_touch_throttle_ms)
      then sessions
      else update_sessions (λ s. s.id == session.id) (touched now) sessions

  unfoldable pub validate_token :
      ℕ → ℕ → List User → List Session → Option AuthenticatedSession × List Session
  unfolding find_live touch
  validate_token raw_token now users sessions =
      elim (find_live users now (sha256_hex raw_token) sessions) [
        | none ↦ (none, sessions)
        | some row ↦ (some row, touch row.session now sessions)
      ]

  abbrev pub verify_csrf_token : Session → ℕ → Bool
  verify_csrf_token session candidate = session.csrf_secret_hash == sha256_hex candidate

  -- The token that `randomToken` gives is returned.
  unfoldable pub rotate_csrf_token : Session → ℕ → List Session → ℕ × List Session
  unfolding update_sessions
  rotate_csrf_token session token sessions = (
    token,
    update_sessions (λ s. s.id == session.id)
        (λ s. record s { csrf_secret_hash = sha256_hex token }) sessions,
  )

  unfoldable pub revoke_by_token : ℕ → ℕ → List Session → List Session
  unfolding update_sessions
  revoke_by_token raw_token now =
      update_sessions (λ s. s.token_hash == sha256_hex raw_token && is_unset s.revoked_at)
        (λ s. record s { revoked_at = some now })
