-- ===== src/Idempotency/Replay.antt =====
-- What a repeated request gets: `guarded` of apps/api/src/idempotency and the guarded operations.
use fulfill_os.Prelude.{
  ℕ, ◌≡◌, refl, ◌∙◌, ap, ◌≢◌, none, some, ◌∷◌, arith, ltb, inl, inr, Option-cases,
}
use fulfill_os.Common.Body.{rejection, key_payload_differs}
use fulfill_os.Common.Outcome.{OperationOutcome, unwrap_outcome}
use fulfill_os.Database.{Db, KeyRow}
use fulfill_os.Database.Thrown.{Thrown, key_claimed, http_exception}
use fulfill_os.Database.Tx.{ok, err, Tx, transaction, Result-cases}
use fulfill_os.Idempotency.{
  IdempotencyRequest, find_key, guarded, guarded_work, claim_idempotency_key,
  resolve_idempotency_conflict, after_transaction, resolve_existing,
}
use fulfill_os.Idempotency.Keys.{
  LeavesKeys, claimed_db, completed_row, claim_free, complete_rows-claimed, find_key-completed_row,
  find_key-completed_row_any,
}

-- The database after work that committed: its own changes, and the completed row.
abbrev pub completed_db : IdempotencyRequest → OperationOutcome → Db → Db → Db
completed_db r o before after = record after {
  idempotency_keys = completed_row r o ∷ before.idempotency_keys;
}

pub guarded_work-ok :
    (r : IdempotencyRequest) (work : Tx Db OperationOutcome) (db db1 : Db) (o : OperationOutcome)
    → LeavesKeys work
    → find_key r db.idempotency_keys ≡ none
    → work (claimed_db r db) ≡ ok (o, db1)
    → guarded_work r work db ≡ ok (o, completed_db r o db db1)
unfolding guarded_work
guarded_work-ok r work db db1 o keep free done =
    rw (claim_free r db free, done)
      (rw (keep (claimed_db r db) db1 o done, complete_rows-claimed r o db.idempotency_keys free)
        refl)

-- A claim of a key that is taken aborts the transaction.
pub guarded_work-taken :
    (r : IdempotencyRequest) (work : Tx Db OperationOutcome) (db : Db) (k : KeyRow)
    → find_key r db.idempotency_keys ≡ some k
    → guarded_work r work db ≡ err key_claimed
unfolding guarded_work claim_idempotency_key
guarded_work-taken r work db k h = rw (h, claim_idempotency_key) refl

-- Work that throws ends the transaction.
guarded_work-err :
    (r : IdempotencyRequest) (work : Tx Db OperationOutcome) (db : Db) (e : Thrown)
    → find_key r db.idempotency_keys ≡ none
    → work (claimed_db r db) ≡ err e
    → guarded_work r work db ≡ err e
unfolding guarded_work
guarded_work-err r work db e free thrown = rw (claim_free r db free, thrown) refl

-- What `guarded` answers, by how its transaction ended.
pub guarded-committed :
    (r : IdempotencyRequest) (work : Tx Db OperationOutcome) (db db' : Db) (o : OperationOutcome)
    → guarded_work r work db ≡ ok (o, db')
    → guarded r work db ≡ (unwrap_outcome o, db')
unfolding guarded transaction after_transaction
guarded-committed r work db db' o h = rw (h, transaction) refl

guarded-taken :
    (r : IdempotencyRequest) (work : Tx Db OperationOutcome) (db : Db) (k : KeyRow)
    → find_key r db.idempotency_keys ≡ some k
    → guarded r work db ≡ (unwrap_outcome (resolve_existing r k), db)
unfolding guarded transaction after_transaction resolve_idempotency_conflict
guarded-taken r work db k h =
    rw (guarded_work-taken r work db k h, transaction) (rw (h, resolve_idempotency_conflict) refl)

-- So nothing changes.
pub guarded-taken_db :
    (r : IdempotencyRequest) (work : Tx Db OperationOutcome) (db : Db) (k : KeyRow)
    → find_key r db.idempotency_keys ≡ some k
    → (guarded r work db).1 ≡ db
guarded-taken_db r work db k h = ap (λ a. a.1) (guarded-taken r work db k h)

-- The stored answer of a completed request is the answer that it gave.
resolve_existing-completed_row :
    (r : IdempotencyRequest) (o : OperationOutcome)
    → o.accepted ≡ ltb o.status 400
    → resolve_existing r (completed_row r o) ≡ o
unfolding resolve_existing
resolve_existing-completed_row r o same = ground arith

resolve_existing-payload_differs :
    (r : IdempotencyRequest) (o : OperationOutcome) (f : ℕ)
    → f ≢ r.request_fingerprint
    → unwrap_outcome (resolve_existing (record r { request_fingerprint = f }) (completed_row r o))
      ≡ err (http_exception 409 (rejection key_payload_differs))
unfolding resolve_existing unwrap_outcome
resolve_existing-payload_differs r o f differs = ground arith

-- An answer whose kind a stored status gives back: accepted exactly below 400.
abbrev pub IsReplayable : OperationOutcome → Type 0
IsReplayable o = o.accepted ≡ ltb o.status 400

module _ (r : IdempotencyRequest) (work : Tx Db OperationOutcome) (keep : LeavesKeys work) where
  -- A committed request held a free key, and leaves the key's completed row.
  pub guarded_work-eq-ok :
      (db db' : Db) (o : OperationOutcome)
      → guarded_work r work db ≡ ok (o, db')
      → (find_key r db.idempotency_keys ≡ none)
        × (db'.idempotency_keys ≡ completed_row r o ∷ db.idempotency_keys)
        × ((db1 : Db) × (work (claimed_db r db) ≡ ok (o, db1)) × (db' ≡ completed_db r o db db1))
  guarded_work-eq-ok db db' o h = elim (Option-cases (find_key r db.idempotency_keys)) [
    | inr (k, taken) ↦ cc (guarded_work-taken r work db k taken)
    | inl free ↦ elim (Result-cases (work (claimed_db r db))) [
      | inr (e, thrown) ↦ cc (guarded_work-err r work db e free thrown)
      | inl ((o', db1), done) ↦ ground (arith, guarded_work-ok r work db db1 o' keep free done)
    ]
  ]

  -- Work that leaves the keys alone, and returns a replayable answer on a free key, answers once:
  -- that answer is committed, and a later request of the same key and payload gets it, and changes
  -- nothing, on every database in which the key's row is as the first request has left it.
  pub guarded_once :
      (db db1 : Db) (o : OperationOutcome)
      → find_key r db.idempotency_keys ≡ none
      → IsReplayable o
      → work (claimed_db r db) ≡ ok (o, db1)
      → (guarded r work db ≡ (unwrap_outcome o, completed_db r o db db1))
        × ((work' : Tx Db OperationOutcome) (later : Db)
            → find_key r later.idempotency_keys
              ≡ find_key r (completed_db r o db db1).idempotency_keys
            → guarded r work' later ≡ (unwrap_outcome o, later))
  guarded_once db db1 o free same done =
      let h = guarded_work-ok r work db db1 o keep free done in
      (
        guarded-committed r work db (completed_db r o db db1) o h,
        λ work' later kept_row.
            guarded-taken r work' later (completed_row r o)
              (kept_row ∙ find_key-completed_row r o db.idempotency_keys)
            ∙ ap (λ a. (unwrap_outcome a, later)) (resolve_existing-completed_row r o same),
      )

  -- After a committed request whose work leaves the keys alone, the same key with another
  -- fingerprint is refused with 409, and nothing changes.
  pub guarded-payload_differs :
      (work' : Tx Db OperationOutcome) (db db' : Db) (o : OperationOutcome) (f : ℕ)
      → f ≢ r.request_fingerprint
      → guarded_work r work db ≡ ok (o, db')
      → guarded (record r { request_fingerprint = f }) work' db'
        ≡ (err (http_exception 409 (rejection key_payload_differs)), db')
  guarded-payload_differs work' db db' o f differs h =
      let (_, rows, _) = guarded_work-eq-ok db db' o h in
      let r' = record r { request_fingerprint = f } in
      guarded-taken r' work' db' (completed_row r o)
        (rw rows (find_key-completed_row_any r o f db.idempotency_keys))
      ∙ ap (λ a. (a, db')) (resolve_existing-payload_differs r o f differs)
