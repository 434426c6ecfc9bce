-- ===== src/Database/Tx.antt =====
-- Statements inside `db.transaction`: a state of tables, or an error. What an error leaves behind
-- is not seen, since PostgreSQL rolls the transaction back.
pub mod Keeps
use fulfill_os.Prelude.{◌≡◌, refl, ◌⊎◌, inl, inr}
use fulfill_os.Database.Thrown.{Thrown}

pub data Result {ℓ} (A : Type ℓ) : Type ℓ where
  ok : A → Result A
  err : Thrown → Result A

abbrev pub and_then {ℓ κ} : {A : Type ℓ} {B : Type κ} → Result A → (A → Result B) → Result B
and_then (ok a) f = f a
and_then (err e) f = err e

-- An action over the state `S`.
abbrev pub Tx : Type 0 → Type 0 → Type 0
Tx S A = S → Result (A × S)

infixl 5 ◌>>=◌ ◌>>◌
abbrev pub ◌>>=◌ : {S A B : Type 0} → Tx S A → (A → Tx S B) → Tx S B
◌>>=◌ m f s = and_then (m s) (λ r. f r.0 r.1)

abbrev pub ◌>>◌ : {S A B : Type 0} → Tx S A → Tx S B → Tx S B
m >> k = m >>= λ _. k

module _ {S A : Type 0} where
  abbrev pub pure : A → Tx S A
  pure a s = ok (a, s)

  abbrev pub throw : Thrown → Tx S A
  throw e s = err e

  abbrev pub gets : (S → A) → Tx S A
  gets f s = ok (f s, s)

  -- `db.transaction`: commits the final state, or rolls back to the first.
  unfoldable pub transaction : Tx S A → S → Result A × S
  transaction m s = elim (m s) [ ok r ↦ (ok r.0, r.1) | err e ↦ (err e, s) ]

  pub transaction-ok :
      (m : Tx S A) (s s' : S) (a : A) → m s ≡ ok (a, s') → transaction m s ≡ (ok a, s')
  unfolding transaction
  transaction-ok m s s' a ran = rw (ran, transaction) refl

  pub transaction-err :
      (m : Tx S A) (s : S) (e : Thrown) → m s ≡ err e → transaction m s ≡ (err e, s)
  unfolding transaction
  transaction-err m s e threw = rw (threw, transaction) refl

abbrev pub modify : {S : Type 0} → (S → S) → Tx S (Unit {0})
modify f s = ok (tt, f s)

pub Result-cases {ℓ} :
    {A : Type ℓ} (r : Result A) → ((a : A) × (r ≡ ok a)) ⊎ ((e : Thrown) × (r ≡ err e))
Result-cases (ok a) = inl (a, refl)
Result-cases (err e) = inr (e, refl)
