-- ===== src/Common/PgError.antt =====
-- apps/api/src/common/pg-error.util.ts.
use fulfill_os.Prelude.{Bool, true, false, Option, none, some}
use fulfill_os.Database.Thrown.{
  Thrown, query_error, SqlState, unique_violation, Constraint, PgFields,
}

-- `cause?.x ?? own.x`
unfoldable pub own_or_cause {ℓ} :
    {A : Type ℓ} → (PgFields → Option A) → Option PgFields → PgFields → Option A
own_or_cause get none own = get own
own_or_cause get (some cause) own = elim (get cause) [ none ↦ get own | some a ↦ some a ]

unfoldable pub pg_error_code : Thrown → Option SqlState
unfolding own_or_cause
pg_error_code (query_error f) = own_or_cause (λ c. c.code) f.cause f.own
pg_error_code _ = none

unfoldable pub pg_error_constraint : Thrown → Option Constraint
unfolding own_or_cause
pg_error_constraint (query_error f) = own_or_cause (λ c. c.constraint) f.cause f.own
pg_error_constraint _ = none

-- `=== PG_UNIQUE_VIOLATION`
unfoldable pub is_unique_violation : Option SqlState → Bool
is_unique_violation (some unique_violation) = true
is_unique_violation _ = false
