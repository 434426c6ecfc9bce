-- ===== src/Consistency/Served.antt =====
-- What the guarded operations of apps/api/src/reservations/reservations.service.ts and apps/api/src/
-- inventory/inventory.service.ts do to the database, whatever their key and their checks say.
use fulfill_os.Prelude.{
  ℕ, Bool, ◌≤◌, ◌≡◌, refl, String, Option, none, some, List, ◌∷◌, ◌⊎◌, inl, inr, length,
  Option-cases, Bool-cases, ==_iff, true, false, ◌==◌,
}
use fulfill_os.Prelude.Int.{pos_part}
use fulfill_os.Platform.{Platform, Env}
use fulfill_os.Common.PostgresInt.{pg_int4_max}
use fulfill_os.Common.Outcome.{OperationOutcome, unwrap_outcome}
use fulfill_os.Common.Body.{Body}
use fulfill_os.Database.Tx.{Result, ok, err}
use fulfill_os.Database.{Db, KeyRow}
use fulfill_os.Catalog.{IsCatalogued}
use fulfill_os.Stocks.{stock_by_id}
use fulfill_os.OrderTable.{order_by_id}
use fulfill_os.Idempotency.{find_key, IdempotencyRequest}
use fulfill_os.Idempotency.Replay.{guarded-taken_db}
use fulfill_os.Reservations.Create.{
  ReservationItem, CreateReservation, product_ids, create_reservation, create_request, parsed_ids,
  matching_products, set_size, reserve_stock,
}
use fulfill_os.Reservations.Create.Lines.{Quantified}
use fulfill_os.Reservations.Create.Fits.{ReadsBack}
use fulfill_os.Reservations.Create.Safety.{Reserved}
use fulfill_os.Reservations.Release.{release_request, release_reservation, release_stock}
use fulfill_os.Reservations.Release.Safety.{Released}
use fulfill_os.Reservations.Fulfill.{fulfill_request, fulfill_order, fulfill_stock}
use fulfill_os.Reservations.Fulfill.Safety.{Fulfilled}
use fulfill_os.Reservations.Once.{
  create_reservation_once, release_reservation_once, fulfill_order_once,
}
use fulfill_os.Inventory.{AdjustInventory, adjust_request, adjust_stock, apply_adjustment}
use fulfill_os.Inventory.Once.{adjust_stock_once}
use fulfill_os.Reservations.Backed.{IsBacked}
use fulfill_os.Inventory.Safety.{Adjusted}

-- The answer is a result, and no exception.
abbrev pub is_ok : {A : Type 0} → Result A → Bool
is_ok (ok _) = true
is_ok (err _) = false

-- Nothing is changed, and then an answer without an exception is one that the key had stored; or
-- the work was done, and the key's row is added.
abbrev pub Serves :
    (Db → OperationOutcome → Db → Type 0) → IdempotencyRequest → Db → Result Body × Db → Type 0
Serves Did request db r =
    ((r.1 ≡ db) × (find_key request db.idempotency_keys ≡ none → is_ok r.0 ≡ false))
    ⊎ ((o : OperationOutcome) × (r.0 ≡ unwrap_outcome o)
        × IsBacked r.1
        × (r.1.products ≡ db.products)
        × Did db o (record r.1 { idempotency_keys = db.idempotency_keys }))

module _ (p : Platform) (env : Env) (g user i key : ℕ) (db : Db) (w : IsBacked db) where
  pub release_reservation-Serves :
      Serves
        (Released p env g user i)
        (release_request p g i key)
        db
        (release_reservation p env g user i key db)
  unfolding release_reservation
  release_reservation-Serves =
      elim (Option-cases (find_key (release_request p g i key) db.idempotency_keys)) [
        | inr (k, claimed) ↦ inl (
          guarded-taken_db (release_request p g i key) (release_stock p env g user i) db k claimed,
          λ free. cc (free, claimed),
        )
        | inl free ↦
            let (o, db', ran, w', same, did, _) =
              release_reservation_once p env g user i key db w free in
            rw ran (inr (o, refl, w', same, did))
      ]

  pub fulfill_order-Serves :
      Serves
        (Fulfilled p env g user i)
        (fulfill_request p g i key)
        db
        (fulfill_order p env g user i key db)
  unfolding fulfill_order
  fulfill_order-Serves =
      elim (Option-cases (find_key (fulfill_request p g i key) db.idempotency_keys)) [
        | inr (k, claimed) ↦ inl (
          guarded-taken_db (fulfill_request p g i key) (fulfill_stock p env g user i) db k claimed,
          λ free. cc (free, claimed),
        )
        | inl free ↦
            let (o, db', ran, w', same, did, _) = fulfill_order_once p env g user i key db w free in
            rw ran (inr (o, refl, w', same, did))
      ]

module _ (p : Platform) (env : Env) (g : ℕ) (dto : AdjustInventory) (key : ℕ) where
  pub adjust_stock-Serves :
      (db : Db)
      → IsBacked db
      → IsCatalogued db.products db.inventory
      → stock_by_id env.new_inventory_id db.inventory ≡ none
      → pos_part dto.delta ≤ pg_int4_max
      → Serves
          (λ old o new. IsCatalogued new.products new.inventory × Adjusted p env g dto old o new)
          (adjust_request p g dto key)
          db
          (adjust_stock p env g dto key db)
  unfolding adjust_stock
  adjust_stock-Serves db w c fresh range =
      elim (Option-cases (find_key (adjust_request p g dto key) db.idempotency_keys)) [
        | inr (k, claimed) ↦ inl (
          guarded-taken_db (adjust_request p g dto key) (apply_adjustment p env g dto) db k claimed,
          λ free. cc (free, claimed),
        )
        | inl free ↦
            let (o, db', ran, w', same, c', did, _) =
              adjust_stock_once p env g dto key db w c fresh range free in
            rw ran (inr (o, refl, w', same, (c', did)))
      ]

module _ (p : Platform) (env : Env) (g user : ℕ) (i : ReservationItem) (is : List ReservationItem)
    (currency : Option String) (key : ℕ) where
  abbrev order_dto : CreateReservation
  order_dto = record { items = i ∷ is; currency = currency }

  -- A request that fails a product check changes nothing.
  create_reservation-unchecked :
      (db : Db)
      → (set_size (product_ids (i ∷ is)) == length (product_ids (i ∷ is))) ≡ false
      → ((create_reservation p env g user order_dto key db).1 ≡ db)
        × (is_ok (create_reservation p env g user order_dto key db).0 ≡ false)
  unfolding create_reservation
  create_reservation-unchecked db repeated = rw (repeated, create_reservation) (refl, refl)

  create_reservation-unknown :
      (db : Db)
      → (set_size (product_ids (i ∷ is)) == length (product_ids (i ∷ is))) ≡ true
      → (matching_products g (parsed_ids p (i ∷ is)) db.products == set_size (product_ids (i ∷ is)))
        ≡ false
      → ((create_reservation p env g user order_dto key db).1 ≡ db)
        × (is_ok (create_reservation p env g user order_dto key db).0 ≡ false)
  unfolding create_reservation
  create_reservation-unknown db distinct unknown =
      rw (distinct, unknown, create_reservation) (refl, refl)

  create_reservation-claimed :
      (db : Db) (k : KeyRow)
      → find_key (create_request p g order_dto key) db.idempotency_keys ≡ some k
      → (set_size (product_ids (i ∷ is)) == length (product_ids (i ∷ is))) ≡ true
      → (matching_products g (parsed_ids p (i ∷ is)) db.products == set_size (product_ids (i ∷ is)))
        ≡ true
      → (create_reservation p env g user order_dto key db).1 ≡ db
  unfolding create_reservation
  create_reservation-claimed db k claimed distinct known =
      rw (distinct, known, create_reservation)
        (guarded-taken_db (create_request p g order_dto key) (reserve_stock p env g user order_dto)
          db k claimed)

  pub create_reservation-Serves :
      (db : Db)
      → ReadsBack p
      → IsBacked db
      → order_by_id env.new_id db.orders ≡ none
      → Quantified (i ∷ is)
      → Serves
          (Reserved p env g user (i ∷ is))
          (create_request p g order_dto key)
          db
          (create_reservation p env g user order_dto key db)
  create_reservation-Serves db reads w fresh q =
      let ids = product_ids (i ∷ is) in
      let matches = matching_products g (parsed_ids p (i ∷ is)) db.products in
      elim (Bool-cases (set_size ids == length ids)) [
        | inr repeated ↦
            let (same, threw) = create_reservation-unchecked db repeated in
            inl (same, λ free. threw)
        | inl distinct ↦ elim (Bool-cases (matches == set_size ids)) [
          | inr unknown ↦
              let (same, threw) = create_reservation-unknown db distinct unknown in
              inl (same, λ free. threw)
          | inl known ↦
              elim (Option-cases
                (find_key (create_request p g order_dto key) db.idempotency_keys)) [
                  | inr (k, claimed) ↦ inl (
                    create_reservation-claimed db k claimed distinct known,
                    λ free. cc (free, claimed),
                  )
                  | inl free ↦
                      let (o, db', ran, w', same, did, _) =
                        create_reservation_once p env g user i is currency key db reads w fresh q
                          ((==_iff (set_size ids) (length ids)).0 distinct)
                          ((==_iff matches (set_size ids)).0 known) free in
                      rw ran (inr (o, refl, w', same, did))
                ]
        ]
      ]
