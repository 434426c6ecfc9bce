-- ===== src/Reservations/Once.antt =====
-- The guarded operations of ReservationsService (apps/api/src/reservations/
-- reservations.service.ts) on a free key: each does its work once, and a repetition gets
-- the answer of the first.
use fulfill_os.Prelude.{ℕ, ◌≡◌, ap, ◌∙◌, length, String, Option, none, List, ◌∷◌, arith, inl, inr}
use fulfill_os.Platform.{Platform, Env}
use fulfill_os.Common.Outcome.{OperationOutcome, unwrap_outcome}
use fulfill_os.Database.{Db}
use fulfill_os.Idempotency.{IdempotencyRequest, find_key, guarded}
use fulfill_os.Idempotency.Keys.{claimed_db, LeavesKeys}
use fulfill_os.Database.Tx.{Tx}
use fulfill_os.Database.Tx.Keeps.{Keeps}
use fulfill_os.OrderTable.Keys.{kept}
use fulfill_os.Idempotency.Replay.{completed_db, guarded_once, IsReplayable}
use fulfill_os.OrderTable.{order_by_id}
use fulfill_os.Reservations.Backed.{IsBacked}
use fulfill_os.Reservations.Create.{
  ReservationItem, CreateReservation, product_ids, reserve_stock, create_reservation,
  create_request, parsed_ids, matching_products, set_size,
}
use fulfill_os.Reservations.Create.Lines.{Quantified, set_size-NoRepeat}
use fulfill_os.Reservations.Create.Fits.{ReadsBack}
use fulfill_os.Reservations.Create.Safety.{Reserved, reserve_stock_total, Keeps-reserve_stock}
use fulfill_os.Reservations.Release.{release_request, release_stock, release_reservation}
use fulfill_os.Reservations.Release.Safety.{Released, release_stock_total, Keeps-release_stock}
use fulfill_os.Reservations.Fulfill.{fulfill_request, fulfill_stock, fulfill_order}
use fulfill_os.Reservations.Fulfill.Safety.{Fulfilled, fulfill_stock_total, Keeps-fulfill_stock}

pub LeavesKeys-kept : (work : Tx Db OperationOutcome) → Keeps kept work → LeavesKeys work
LeavesKeys-kept work keep db db' o h = ap (λ k. k.1) (keep.at db db' o h)

module _ (p : Platform) (env : Env) (g user i : ℕ) where
  Released-IsReplayable :
      (db db' : Db) (o : OperationOutcome) → Released p env g user i db o db' → IsReplayable o
  Released-IsReplayable db db' o (inl (accepted, (status, _), _, _, _)) =
      ground (arith, accepted, status)
  Released-IsReplayable db db' o (inr (refused, (status, _), _, _)) =
      ground (arith, refused, status)

  Released-without_claim :
      (r : IdempotencyRequest) (db db1 : Db) (o : OperationOutcome)
      → Released p env g user i (claimed_db r db) o db1
      → Released p env g user i db o (record db1 { idempotency_keys = db.idempotency_keys })
  Released-without_claim r db db1 o (inl did) = inl did
  Released-without_claim r db db1 o (inr (refused, status, same, missing)) = inr (
    refused,
    status,
    ap {A = Db} (λ d. record d { idempotency_keys = db.idempotency_keys }) same,
    missing,
  )

module _ (p : Platform) (env : Env) (organization user order_id key : ℕ) where
  -- On a database that keeps its invariant, a release under a free key does what `Released` says of
  -- its answer `o` (the key rows aside): an accepted one cancelled the pending order, gave back its lines, and holds the order's id, its status and the
  -- time of its cancellation; a refusal says that the organization has no such order, or the
  -- status that it has, and changed nothing. It keeps the invariant and the products. And a
  -- repetition of the request, by whomever, on any database in which the key's row is as it left it,
  -- gives `o` again and changes nothing.
  pub release_reservation_once :
      (db : Db)
      → IsBacked db
      → find_key (release_request p organization order_id key) db.idempotency_keys ≡ none
      → (o : OperationOutcome) × (db' : Db) × (release_reservation p env organization user order_id
            key db
          ≡ (unwrap_outcome o, db'))
        × IsBacked db'
        × (db'.products ≡ db.products)
        × Released p env organization user order_id db o
            (record db' { idempotency_keys = db.idempotency_keys })
        × ((later : Env) (anyone : ℕ) (afterwards : Db)
            → find_key (release_request p organization order_id key) afterwards.idempotency_keys
              ≡ find_key (release_request p organization order_id key) db'.idempotency_keys
            → release_reservation p later organization anyone order_id key afterwards
              ≡ (unwrap_outcome o, afterwards))
  unfolding release_reservation
  release_reservation_once db w free =
      let r = release_request p organization order_id key in
      let work = release_stock p env organization user order_id in
      let (o, db1, ran, w1, did) =
        release_stock_total p env organization user order_id (claimed_db r db) w in
      let (first, again) =
        guarded_once r work
          (LeavesKeys-kept work (Keeps-release_stock p env organization user order_id)) db db1 o
          free (Released-IsReplayable p env organization user order_id (claimed_db r db) db1 o did)
          ran in
      (
        o,
        completed_db r o db db1,
        first,
        w1,
        ap (λ k. k.0)
            ((Keeps-release_stock p env organization user order_id).at (claimed_db r db) db1 o ran),
        Released-without_claim p env organization user order_id r db db1 o did,
        λ later anyone. again (release_stock p later organization anyone order_id),
      )

module _ (p : Platform) (env : Env) (g user i : ℕ) where
  Fulfilled-IsReplayable :
      (db db' : Db) (o : OperationOutcome) → Fulfilled p env g user i db o db' → IsReplayable o
  Fulfilled-IsReplayable db db' o (inl (accepted, (status, _), _, _, _)) =
      ground (arith, accepted, status)
  Fulfilled-IsReplayable db db' o (inr (refused, (status, _), _, _)) =
      ground (arith, refused, status)

  Fulfilled-without_claim :
      (r : IdempotencyRequest) (db db1 : Db) (o : OperationOutcome)
      → Fulfilled p env g user i (claimed_db r db) o db1
      → Fulfilled p env g user i db o (record db1 { idempotency_keys = db.idempotency_keys })
  Fulfilled-without_claim r db db1 o (inl did) = inl did
  Fulfilled-without_claim r db db1 o (inr (refused, status, same, missing)) = inr (
    refused,
    status,
    ap {A = Db} (λ d. record d { idempotency_keys = db.idempotency_keys }) same,
    missing,
  )

module _ (p : Platform) (env : Env) (organization user order_id key : ℕ) where
  -- On a database that keeps its invariant, a fulfillment under a free key does what `Fulfilled` says of
  -- its answer `o` (the key rows aside): an accepted one completed the pending order, consumed its lines, and holds the order's id, its status and the
  -- time of its fulfillment; a refusal says that the organization has no such order, or the
  -- status that it has, and changed nothing. It keeps the invariant and the products. And a
  -- repetition of the request, by whomever, on any database in which the key's row is as it left it,
  -- gives `o` again and changes nothing.
  pub fulfill_order_once :
      (db : Db)
      → IsBacked db
      → find_key (fulfill_request p organization order_id key) db.idempotency_keys ≡ none
      → (o : OperationOutcome) × (db' : Db) × (fulfill_order p env organization user order_id key db
          ≡ (unwrap_outcome o, db'))
        × IsBacked db'
        × (db'.products ≡ db.products)
        × Fulfilled p env organization user order_id db o
            (record db' { idempotency_keys = db.idempotency_keys })
        × ((later : Env) (anyone : ℕ) (afterwards : Db)
            → find_key (fulfill_request p organization order_id key) afterwards.idempotency_keys
              ≡ find_key (fulfill_request p organization order_id key) db'.idempotency_keys
            → fulfill_order p later organization anyone order_id key afterwards
              ≡ (unwrap_outcome o, afterwards))
  unfolding fulfill_order
  fulfill_order_once db w free =
      let r = fulfill_request p organization order_id key in
      let work = fulfill_stock p env organization user order_id in
      let (o, db1, ran, w1, did) =
        fulfill_stock_total p env organization user order_id (claimed_db r db) w in
      let (first, again) =
        guarded_once r work
          (LeavesKeys-kept work (Keeps-fulfill_stock p env organization user order_id)) db db1 o
          free (Fulfilled-IsReplayable p env organization user order_id (claimed_db r db) db1 o did)
          ran in
      (
        o,
        completed_db r o db db1,
        first,
        w1,
        ap (λ k. k.0)
            ((Keeps-fulfill_stock p env organization user order_id).at (claimed_db r db) db1 o ran),
        Fulfilled-without_claim p env organization user order_id r db db1 o did,
        λ later anyone. again (fulfill_stock p later organization anyone order_id),
      )

Reserved-IsReplayable :
    (p : Platform) (env : Env) (g user : ℕ) (items : List ReservationItem) (db db' : Db)
    (o : OperationOutcome)
    → Reserved p env g user items db o db'
    → IsReplayable o
Reserved-IsReplayable p env g user items db db' o (inl (accepted, (status, _), _, _, _, _, _)) =
    ground (arith, accepted, status)
Reserved-IsReplayable p env g user items db db' o (inr (refused, (status, _), _)) =
    ground (arith, refused, status)

Reserved-without_claim :
    (p : Platform) (env : Env) (g user : ℕ) (items : List ReservationItem) (r : IdempotencyRequest)
    (db db1 : Db) (o : OperationOutcome)
    → Reserved p env g user items (claimed_db r db) o db1
    → Reserved p env g user items db o (record db1 { idempotency_keys = db.idempotency_keys })
Reserved-without_claim p env g user items r db db1 o (inl did) = inl did
Reserved-without_claim p env g user items r db db1 o (inr (refused, status, same)) =
    inr
      (refused, status, ap {A = Db} (λ d. record d { idempotency_keys = db.idempotency_keys }) same)

module _ (p : Platform) (env : Env) (organization user : ℕ) (i : ReservationItem)
    (is : List ReservationItem) (currency : Option String) (key : ℕ) where
  abbrev dto : CreateReservation
  dto = record { items = i ∷ is; currency = currency }

  -- A request that passes the two checks runs its guarded work.
  create_reservation-guarded :
      (later : Env) (anyone : ℕ) (db : Db)
      → set_size (product_ids (i ∷ is)) ≡ length (product_ids (i ∷ is))
      → matching_products organization (parsed_ids p (i ∷ is)) db.products
        ≡ set_size (product_ids (i ∷ is))
      → create_reservation p later organization anyone dto key db
        ≡ guarded
            (create_request p organization dto key)
            (reserve_stock p later organization anyone dto)
            db
  unfolding create_reservation
  create_reservation-guarded later anyone db distinct known = ground (arith, distinct, known)

  pub create_reservation_once :
      (db : Db)
      → ReadsBack p
      → IsBacked db
      → order_by_id env.new_id db.orders ≡ none
      → Quantified (i ∷ is)
      → set_size (product_ids (i ∷ is)) ≡ length (product_ids (i ∷ is))
      → matching_products organization (parsed_ids p (i ∷ is)) db.products
        ≡ set_size (product_ids (i ∷ is))
      → find_key (create_request p organization dto key) db.idempotency_keys ≡ none
      → (o : OperationOutcome) × (db' : Db) × (create_reservation p env organization user dto key db
          ≡ (unwrap_outcome o, db'))
        × IsBacked db'
        × (db'.products ≡ db.products)
        × Reserved p env organization user
            (i ∷ is)
            db
            o
            (record db' { idempotency_keys = db.idempotency_keys })
        × ((later : Env) (anyone : ℕ) (afterwards : Db)
            → matching_products organization (parsed_ids p (i ∷ is)) afterwards.products
              ≡ set_size (product_ids (i ∷ is))
            → find_key (create_request p organization dto key) afterwards.idempotency_keys
              ≡ find_key (create_request p organization dto key) db'.idempotency_keys
            → create_reservation p later organization anyone dto key afterwards
              ≡ (unwrap_outcome o, afterwards))
  create_reservation_once db reads w fresh q distinct known free =
      let r = create_request p organization dto key in
      let work = reserve_stock p env organization user dto in
      let keep = Keeps-reserve_stock p env organization user dto in
      let (o, db1, ran, w1, did) =
        reserve_stock_total p env organization user i is currency (claimed_db r db) reads w fresh
          (set_size-NoRepeat (product_ids (i ∷ is)) distinct) q in
      let (first, again) =
        guarded_once r work (LeavesKeys-kept work keep) db db1 o free
          (Reserved-IsReplayable p env organization user (i ∷ is) (claimed_db r db) db1 o did)
          ran in
      (
        o,
        completed_db r o db db1,
        create_reservation-guarded env user db distinct known ∙ first,
        w1,
        ap (λ k. k.0) (keep.at (claimed_db r db) db1 o ran),
        Reserved-without_claim p env organization user (i ∷ is) r db db1 o did,
        λ later anyone afterwards still kept_row.
            create_reservation-guarded later anyone afterwards distinct still
            ∙ again (reserve_stock p later organization anyone dto) afterwards kept_row,
      )
