-- ===== src/Passwords.antt =====
-- apps/api/src/auth/password.service.ts.
use fulfill_os.Prelude.{
  ℕ, ◌≡◌, refl, Bool, true, false, Option, none, some, String, ◌==◌, ◌||◌, ltb, if◌then◌else◌,
  arith, Bool-cases, inl, inr,
}
use fulfill_os.Database.Thrown.{password_length}
use fulfill_os.Database.Tx.{Result, ok, err}

-- `Buffer.byteLength` in UTF-8, and the `argon2` package under `ARGON2_OPTIONS`: `hash` with the
-- salt that it draws, and `verify`, which throws (`none`) on a text that is no hash.
pub record Argon2 : Type 0 where
  pub byte_length : String → ℕ
  pub hash : ℕ → String → String
  pub verify : String → String → Option Bool

-- A hash verifies the password that it is of.
abbrev pub VerifiesOwn : Argon2 → Type 0
VerifiesOwn a =
    (salt : ℕ) (password : String) → a.verify (a.hash salt password) password ≡ some true

abbrev pub max_password_bytes : ℕ
max_password_bytes = 1024

abbrev pub has_length : Argon2 → String → Bool
has_length a password =
    let bytes = a.byte_length password in
    if bytes == 0 || ltb max_password_bytes bytes then false else true

module _ (a : Argon2) where
  -- `assertLength`, then the hash.
  unfoldable pub hash_password : ℕ → String → Result String
  hash_password salt password =
      if has_length a password then ok (a.hash salt password) else err password_length

  unfoldable pub verify_password : String → String → Bool
  verify_password hash password =
      if ltb max_password_bytes (a.byte_length password)
      then false
      else elim (a.verify hash password) [ none ↦ false | some answer ↦ answer ]

  -- What is hashed is verified, in the whole range of lengths that is hashed.
  pub verify_password-hash_password :
      VerifiesOwn a
      → (salt : ℕ) (password hash : String) → hash_password salt password ≡ ok hash
      → verify_password hash password ≡ true
  unfolding hash_password verify_password
  verify_password-hash_password own salt password hash h =
      elim (Bool-cases (has_length a password)) [
        | inr outside ↦ absurd (ground (arith, h, outside))
        | inl inside ↦
            let same : hash ≡ a.hash salt password = ground (arith, h, inside) in
            let short : ltb max_password_bytes (a.byte_length password) ≡ false =
              ground (arith, inside) in
            rw (same, short) (rw (own salt password) refl)
      ]
