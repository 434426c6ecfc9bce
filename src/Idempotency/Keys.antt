-- ===== src/Idempotency/Keys.antt =====
-- The rows of `idempotency_keys` under the statements of apps/api/src/idempotency/
-- idempotency.util.ts.
use fulfill_os.Prelude.{ℕ, true, ◌≡◌, refl, none, some, List, [], ◌∷◌, arith}
use fulfill_os.Common.Outcome.{OperationOutcome}
use fulfill_os.Database.{Db, KeyRow}
use fulfill_os.Database.Enums.{Operation, same_operation, in_progress, completed}
use fulfill_os.Database.Tx.{ok, Tx}
use fulfill_os.Idempotency.{
  IdempotencyRequest, same_key, find_key, complete_rows, claim_idempotency_key,
}

pub same_operation_refl : (o : Operation) → same_operation o o ≡ true
unfolding same_operation
same_operation_refl o = ground arith

-- A transaction's work that leaves the table of keys alone.
abbrev pub LeavesKeys : Tx Db OperationOutcome → Type 0
LeavesKeys work =
    (db db' : Db) (o : OperationOutcome)
    → work db ≡ ok (o, db')
    → db'.idempotency_keys ≡ db.idempotency_keys

-- The row that a claim inserts.
abbrev pub claimed_row : IdempotencyRequest → KeyRow
claimed_row r = record {
  organization_id = r.organization_id;
  operation = r.operation;
  idempotency_key = r.idempotency_key;
  request_fingerprint = r.request_fingerprint;
  state = in_progress;
  response_status = none;
  response_body = none;
}

abbrev pub claimed_db : IdempotencyRequest → Db → Db
claimed_db r db = record db { idempotency_keys = claimed_row r ∷ db.idempotency_keys }

-- The row that a completed request leaves.
abbrev pub completed_row : IdempotencyRequest → OperationOutcome → KeyRow
completed_row r o = record (claimed_row r) {
  state = completed;
  response_status = some o.status;
  response_body = some o.body;
}

pub same_key-claimed_row : (r : IdempotencyRequest) → same_key r (claimed_row r) ≡ true
same_key-claimed_row r = ground (arith, same_operation_refl r.operation)

-- A free key is claimed.
pub claim_free :
    (r : IdempotencyRequest) (db : Db)
    → find_key r db.idempotency_keys ≡ none
    → claim_idempotency_key r db ≡ ok (tt, claimed_db r db)
unfolding claim_idempotency_key
claim_free r db h = rw (h, claim_idempotency_key) refl

-- Completion changes no row of another key, and completes none that is not there.
pub complete_rows-absent :
    (r : IdempotencyRequest) (o : OperationOutcome) (ks : List KeyRow)
    → find_key r ks ≡ none
    → complete_rows r o ks ≡ ks
unfolding find_key complete_rows
complete_rows-absent r o [] h = refl
complete_rows-absent r o (k ∷ ks) h = ground (arith, complete_rows-absent r o ks)

-- A claim and its completion put one completed row before the others.
pub complete_rows-claimed :
    (r : IdempotencyRequest) (o : OperationOutcome) (ks : List KeyRow)
    → find_key r ks ≡ none
    → complete_rows r o (claimed_row r ∷ ks) ≡ completed_row r o ∷ ks
unfolding complete_rows
complete_rows-claimed r o ks h =
    ground (arith, same_key-claimed_row r, complete_rows-absent r o ks h)

pub find_key-completed_row :
    (r : IdempotencyRequest) (o : OperationOutcome) (ks : List KeyRow)
    → find_key r (completed_row r o ∷ ks) ≡ some (completed_row r o)
unfolding find_key
find_key-completed_row r o ks = ground (arith, same_operation_refl r.operation)

-- The fingerprint is no part of the key.
pub find_key-completed_row_any :
    (r : IdempotencyRequest) (o : OperationOutcome) (f : ℕ) (ks : List KeyRow)
    → find_key (record r { request_fingerprint = f }) (completed_row r o ∷ ks)
      ≡ some (completed_row r o)
unfolding find_key
find_key-completed_row_any r o f ks = ground (arith, same_operation_refl r.operation)
