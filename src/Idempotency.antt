-- ===== src/Idempotency.antt =====
-- apps/api/src/idempotency/idempotency.util.ts, and the transaction that each guarded operation of
-- ReservationsService and InventoryService runs. Transactions are taken one after the other: the
-- read of `resolve_idempotency_conflict` sees the database that the failed transaction left.

pub mod Keys
pub mod Replay
pub mod Header
use fulfill_os.Prelude.{
  ℕ, Bool, true, false, not, Option, none, some, List, [], ◌∷◌, ◌&&◌, ltb, ◌==◌, if◌then◌else◌,
}
use fulfill_os.Common.Body.{
  Body, rejection, key_briefly_claimed, key_payload_differs, key_in_progress,
}
use fulfill_os.Common.Outcome.{OperationOutcome, unwrap_outcome}
use fulfill_os.Common.PgError.{pg_error_code, pg_error_constraint, is_unique_violation}
use fulfill_os.Database.{Db, KeyRow}
use fulfill_os.Database.Enums.{Operation, KeyState, in_progress, completed, failed, same_operation}
use fulfill_os.Database.Thrown.{
  Thrown, key_claimed, SqlState, unique_violation, Constraint,
  idempotency_keys_org_operation_key_key, pg_failure,
}
use fulfill_os.Database.Tx.{Result, ok, err, Tx, ◌>>=◌, ◌>>◌, pure, modify, transaction}

pub record IdempotencyRequest : Type 0 where
  pub organization_id : ℕ
  pub operation : Operation
  pub idempotency_key : ℕ
  pub request_fingerprint : ℕ

-- The columns of the unique constraint, and of the WHERE clauses below.
abbrev pub same_key : IdempotencyRequest → KeyRow → Bool
same_key r k =
    k.organization_id == r.organization_id
    && same_operation k.operation r.operation
    && k.idempotency_key == r.idempotency_key

unfoldable pub find_key : IdempotencyRequest → List KeyRow → Option KeyRow
find_key r [] = none
find_key r (k ∷ ks) = if same_key r k then some k else find_key r ks

-- The INSERT statement, under the unique constraint.
insert_key : IdempotencyRequest → Tx Db (Unit {0})
unfolding pg_failure
insert_key r db = elim (find_key r db.idempotency_keys) [
  | some k ↦ err (pg_failure unique_violation (some idempotency_keys_org_operation_key_key))
  | none ↦ ok (
    tt,
    record db {
      idempotency_keys =
          record {
            organization_id = r.organization_id;
            operation = r.operation;
            idempotency_key = r.idempotency_key;
            request_fingerprint = r.request_fingerprint;
            state = in_progress;
            response_status = none;
            response_body = none;
          }
          ∷ db.idempotency_keys;
    },
  )
]

is_key_constraint : Option Constraint → Bool
is_key_constraint (some idempotency_keys_org_operation_key_key) = true
is_key_constraint _ = false

-- The `catch` of `claimIdempotencyKey`.
claim_error : Thrown → Thrown
unfolding pg_error_code pg_error_constraint is_unique_violation is_key_constraint
claim_error e =
    if is_unique_violation (pg_error_code e) && is_key_constraint (pg_error_constraint e)
    then key_claimed
    else e

pub claim_idempotency_key : IdempotencyRequest → Tx Db (Unit {0})
unfolding insert_key claim_error
claim_idempotency_key r db = elim (insert_key r db) [ ok a ↦ ok a | err e ↦ err (claim_error e) ]

-- The UPDATE of `completeIdempotencyKey`, on every row of the key.
pub complete_rows : IdempotencyRequest → OperationOutcome → List KeyRow → List KeyRow
complete_rows r o [] = []
complete_rows r o (k ∷ ks) =
    (if same_key r k
      then record k {
        state = completed;
        response_status = some o.status;
        response_body = some o.body;
      }
      else k)
    ∷ complete_rows r o ks

pub complete_idempotency_key : IdempotencyRequest → OperationOutcome → Tx Db (Unit {0})
unfolding complete_rows
complete_idempotency_key r o =
    modify (λ db. record db { idempotency_keys = complete_rows r o db.idempotency_keys })

abbrev conflict : Body → OperationOutcome
conflict b = record { accepted = false; status = 409; body = b }

is_completed : KeyState → Bool
is_completed completed = true
is_completed in_progress = false
is_completed failed = false

status_or_500 : Option ℕ → ℕ
status_or_500 none = 500
status_or_500 (some status) = status

-- A missing body stands for the JSON null, which no completed row holds.
body_or : Option Body → Body
body_or none = rejection key_in_progress
body_or (some b) = b

resolve_existing : IdempotencyRequest → KeyRow → OperationOutcome
unfolding is_completed status_or_500 body_or
resolve_existing r k =
    if not (k.request_fingerprint == r.request_fingerprint)
    then conflict (rejection key_payload_differs)
    else if is_completed k.state
    then record {
      accepted = ltb (status_or_500 k.response_status) 400;
      status = status_or_500 k.response_status;
      body = body_or k.response_body;
    }
    else conflict (rejection key_in_progress)

pub resolve_idempotency_conflict : Db → IdempotencyRequest → OperationOutcome
unfolding find_key resolve_existing
resolve_idempotency_conflict db r = elim (find_key r db.idempotency_keys) [
  | none ↦ conflict (rejection key_briefly_claimed)
  | some k ↦ resolve_existing r k
]

-- The body of the transaction: claim, work, complete.
pub guarded_work : IdempotencyRequest → Tx Db OperationOutcome → Tx Db OperationOutcome
unfolding claim_idempotency_key complete_idempotency_key
guarded_work r work = do
  claim_idempotency_key r
  outcome ← work
  complete_idempotency_key r outcome
  pure outcome

-- After the transaction: unwrap its outcome, or resolve the conflict and unwrap that.
after_transaction : IdempotencyRequest → Result OperationOutcome → Db → Result Body × Db
after_transaction r (ok outcome) db = (unwrap_outcome outcome, db)
after_transaction r (err key_claimed) db = (unwrap_outcome (resolve_idempotency_conflict db r), db)
after_transaction r (err e) db = (err e, db)

-- The `try { transaction } catch` of every guarded operation.
pub guarded : IdempotencyRequest → Tx Db OperationOutcome → Db → Result Body × Db
guarded r work db =
    let (result, db') = transaction (guarded_work r work) db in after_transaction r result db'
