-- ===== src/Sessions/Lifecycle.antt =====
-- The life of a session of apps/api/src/auth/session.service.ts: what a valid token proves, and
-- when it stops to be one.
use fulfill_os.Prelude.{
  ℕ, ◌<◌, ◌+◌, ◌≡◌, refl, sym, ◌∙◌, true, Option, none, some, List, [], ◌∷◌, arith, ◌==◌, ◌&&◌, inl,
  inr, Option-cases, Bool-cases,
}
use fulfill_os.Platform.{Platform}
use fulfill_os.Database.Tx.{ok}
use fulfill_os.Sessions.{
  User, Session, AuthenticatedSession, CreatedSession, Issue, find_user, find_live, is_live,
  is_unset, update_sessions, sha256_hex, new_session, create_session, touch, touched,
  validate_token, revoke_by_token, idle_timeout_ms,
}

find_live-revoked :
    (users : List User) (h now later : ℕ) (t : List Session)
    → find_live users later h (
        update_sessions
          (λ s. s.token_hash == h && is_unset s.revoked_at)
          (λ s. record s { revoked_at = some now })
          t)
      ≡ none
unfolding find_live update_sessions
find_live-revoked users h now later [] = refl
find_live-revoked users h now later (s ∷ t) = ground (arith, find_live-revoked users h now later t)

find_user-id : (i : ℕ) (users : List User) (u : User) → find_user i users ≡ some u → u.id ≡ i
unfolding find_user
find_user-id i [] u h = cc
find_user-id i (x ∷ users) u h = ground (arith, find_user-id i users u)

-- What the row of a valid token is.
abbrev pub IsLive : ℕ → ℕ → AuthenticatedSession → Type 0
IsLive now h a =
    (a.session.token_hash ≡ h)
    × (a.session.revoked_at ≡ none)
    × (now < a.session.idle_expires_at)
    × (now < a.session.absolute_expires_at)
    × (a.user.id ≡ a.session.user_id)

is_live-IsLive :
    (now h : ℕ) (s : Session) (u : User)
    → is_live now h s ≡ true
    → u.id ≡ s.user_id
    → IsLive now h (record { session = s; user = u })
is_live-IsLive now h s u live same = ground (arith, live, same)

find_live-IsLive :
    (users : List User) (now h : ℕ) (t : List Session) (a : AuthenticatedSession)
    → find_live users now h t ≡ some a
    → IsLive now h a
unfolding find_live
find_live-IsLive users now h [] a found = cc
find_live-IsLive users now h (s ∷ t) a found = elim (Bool-cases (is_live now h s)) [
  | inr dead ↦ find_live-IsLive users now h t a (ground (arith, found, dead))
  | inl live ↦ elim (Option-cases (find_user s.user_id users)) [
    | inl missing ↦ find_live-IsLive users now h t a (ground (arith, found, live, missing))
    | inr (u, its) ↦
        let same : a ≡ record { session = s; user = u } = ground (arith, found, live, its) in
        rw same (is_live-IsLive now h s u live (find_user-id s.user_id users u its))
  ]
]

-- The fixed end of each session's life.
abbrev pub ends : List Session → List ℕ
ends [] = []
ends (s ∷ t) = s.absolute_expires_at ∷ ends t

ends-touched :
    (p : Platform) (i now : ℕ) (t : List Session)
    → ends (update_sessions (λ s. s.id == i) (touched p now) t) ≡ ends t
unfolding update_sessions
ends-touched p i now [] = refl
ends-touched p i now (s ∷ t) = ground (arith, ends-touched p i now t)

ends-touch :
    (p : Platform) (s : Session) (now : ℕ) (t : List Session) → ends (touch p s now t) ≡ ends t
unfolding touch
ends-touch p s now t = ground (arith, ends-touched p s.id now t)

abbrev pair_of : AuthenticatedSession → List Session → Option AuthenticatedSession × List Session
pair_of a t = (some a, t)

pair-injective :
    (a b : AuthenticatedSession) (s t : List Session)
    → pair_of a s ≡ pair_of b t
    → (a ≡ b) × (s ≡ t)
pair-injective a b s t h = (cc, cc)

module _ (p : Platform) (token now later : ℕ) (users : List User) (sessions : List Session) where
  -- A token that was revoked is never valid again, at any time.
  pub revoke-validate :
      (validate_token p token later users (revoke_by_token p token now sessions)).0 ≡ none
  unfolding validate_token revoke_by_token
  revoke-validate =
      rw (find_live-revoked users (sha256_hex p token) now later sessions, validate_token) refl

  validate-none :
      find_live users now (sha256_hex p token) sessions ≡ none
      → validate_token p token now users sessions ≡ (none, sessions)
  unfolding validate_token
  validate-none h = rw (h, validate_token) refl

  pub validate-some :
      (row : AuthenticatedSession)
      → find_live users now (sha256_hex p token) sessions ≡ some row
      → validate_token p token now users sessions ≡ (some row, touch p row.session now sessions)
  unfolding validate_token
  validate-some row h = rw (h, validate_token) refl

  -- A token that is accepted has a session of its hash that is not revoked, within both of its
  -- windows and of the user that is answered; and accepting it moves no session's absolute end.
  pub validate-IsLive :
      (a : AuthenticatedSession) (t : List Session)
      → validate_token p token now users sessions ≡ (some a, t)
      → IsLive now (sha256_hex p token) a × (ends t ≡ ends sessions)
  validate-IsLive a t h = elim (Option-cases (find_live users now (sha256_hex p token) sessions)) [
    | inl missing ↦ cc (validate-none missing)
    | inr (row, found) ↦
        let (same, state) =
          pair-injective row a (touch p row.session now sessions) t
            (sym (validate-some row found) ∙ h) in
        (
          rw (sym same) (find_live-IsLive users now (sha256_hex p token) sessions row found),
          rw (sym state) (ends-touch p row.session now sessions),
        )
  ]

module _ (p : Platform) (user : ℕ) (i : Issue) (u : User) (users : List User) where
  create_session-ok :
      (sessions t : List Session) (c : CreatedSession)
      → create_session p user i sessions ≡ ok (c, t)
      → (c ≡ record { session = new_session p user i; token = i.token; csrf_token = i.csrf_token })
        × (t ≡ new_session p user i ∷ sessions)
  unfolding create_session
  create_session-ok sessions t c made = ground (arith, made)

  pub find_live-new :
      (sessions : List Session) (now : ℕ)
      → find_user user users ≡ some u
      → now < i.now + idle_timeout_ms
      → find_live users now (sha256_hex p i.token) (new_session p user i ∷ sessions)
        ≡ some (record { session = new_session p user i; user = u })
  unfolding find_live
  find_live-new sessions now known early = ground (arith, known, early)

  -- Where a session was created for a user of the table, the token that was issued is accepted
  -- with that session and user at every time before its idle window ends.
  pub create-validate :
      (sessions t : List Session) (c : CreatedSession) (now : ℕ)
      → create_session p user i sessions ≡ ok (c, t)
      → find_user user users ≡ some u
      → now < i.now + idle_timeout_ms
      → (validate_token p c.token now users t).0 ≡ some (record { session = c.session; user = u })
  unfolding validate_token
  create-validate sessions t c now made known early =
      let (answer, state) = create_session-ok sessions t c made in
      rw (answer, state) (rw (find_live-new sessions now known early, validate_token) refl)
