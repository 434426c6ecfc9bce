-- ===== src/Examples/Witnesses.antt =====
-- The theorems about apps/api/src/reservations, apps/api/src/inventory and apps/api/src/idempotency
-- at work on the shop.
use fulfill_os.Prelude.{ℕ, ◌≡◌, refl, none, List, [], ◌∷◌, arith}
use fulfill_os.Prelude.Int.{pos}
use fulfill_os.Common.Body.{rejection, key_payload_differs}
use fulfill_os.Common.Outcome.{OperationOutcome, unwrap_outcome}
use fulfill_os.Database.{Db}
use fulfill_os.Database.Enums.{reservation_release}
use fulfill_os.Database.Thrown.{http_exception}
use fulfill_os.Database.Tx.{ok, err, Tx}
use fulfill_os.Platform.{Env}
use fulfill_os.Stocks.{stock_by_id, stock_of}
use fulfill_os.OrderTable.{order_by_id}
use fulfill_os.Catalog.{product_of, IsCatalogued}
use fulfill_os.Idempotency.{IdempotencyRequest, find_key, guarded}
use fulfill_os.Idempotency.Keys.{claimed_row, LeavesKeys}
use fulfill_os.Idempotency.Replay.{
  completed_db, guarded_once, guarded_work-ok, guarded-payload_differs,
}
use fulfill_os.Inventory.{AdjustInventory, adjust_request, apply_adjustment, adjust_stock}
use fulfill_os.Inventory.Once.{adjust_stock_once}
use fulfill_os.Inventory.Safety.{Adjusted, apply_adjustment_total}
use fulfill_os.Reservations.Backed.{IsBacked}
use fulfill_os.Reservations.Create.{ReservationItem, reserve_stock}
use fulfill_os.Reservations.Create.Safety.{Reserved, reserve_stock_total}
use fulfill_os.Reservations.Release.{
  release_request, release_stock, release_answer, release_reservation,
}
use fulfill_os.Reservations.Release.Safety.{Released, release_stock_total, Keeps-release_stock}
use fulfill_os.Reservations.Fulfill.{fulfill_request, fulfill_stock, fulfill_answer, fulfill_order}
use fulfill_os.Reservations.Fulfill.Safety.{Fulfilled, fulfill_stock_total}
use fulfill_os.Reservations.Once.{release_reservation_once, fulfill_order_once, LeavesKeys-kept}
use fulfill_os.Reservations.Race.{IsSettled, release-IsSettled, fulfill-IsSettled}
use fulfill_os.Examples.Shop.{product, platform, env, shop, shop-IsBacked}
use fulfill_os.Examples.Runs.{
  shop_released, shop_fulfilled, release_result, fulfill_result, release_run, fulfill_run,
}

abbrev item : ReservationItem
item = record { product_id = 12; quantity = 2 }

abbrev rest : List ReservationItem
rest = record { product_id = 11; quantity = 7 } ∷ []

reserve_stock_total_example :
    (o : OperationOutcome) × (db' : Db) × (reserve_stock platform env 1 2
        (record { items = item ∷ rest; currency = none })
        shop
      ≡ ok (o, db'))
    × IsBacked db'
    × Reserved platform env 1 2 (item ∷ rest) shop o db'
unfolding order_by_id
reserve_stock_total_example =
    reserve_stock_total platform env 1 2 item rest none shop (λ x. refl) shop-IsBacked refl
      (refl, (refl, tt)) (omega arith, (omega arith, tt))

release_stock_total_example :
    (o : OperationOutcome) × (db' : Db) × (release_stock platform env 1 2 7 shop ≡ ok (o, db'))
    × IsBacked db'
    × Released platform env 1 2 7 shop o db'
release_stock_total_example = release_stock_total platform env 1 2 7 shop shop-IsBacked

fulfill_stock_total_example :
    (o : OperationOutcome) × (db' : Db) × (fulfill_stock platform env 1 2 7 shop ≡ ok (o, db'))
    × IsBacked db'
    × Fulfilled platform env 1 2 7 shop o db'
fulfill_stock_total_example = fulfill_stock_total platform env 1 2 7 shop shop-IsBacked

release_reservation_once_example :
    (o : OperationOutcome) × (db' : Db) × (release_reservation platform env 1 2 7 99 shop
      ≡ (unwrap_outcome o, db'))
    × IsBacked db'
    × (db'.products ≡ shop.products)
    × Released platform env 1 2 7 shop o (record db' { idempotency_keys = [] })
    × ((later : Env) (anyone : ℕ) (afterwards : Db)
        → find_key (release_request platform 1 7 99) afterwards.idempotency_keys
          ≡ find_key (release_request platform 1 7 99) db'.idempotency_keys
        → release_reservation platform later 1 anyone 7 99 afterwards
          ≡ (unwrap_outcome o, afterwards))
unfolding find_key
release_reservation_once_example =
    release_reservation_once platform env 1 2 7 99 shop shop-IsBacked refl

fulfill_order_once_example :
    (o : OperationOutcome) × (db' : Db) × (fulfill_order platform env 1 2 7 99 shop
      ≡ (unwrap_outcome o, db'))
    × IsBacked db'
    × (db'.products ≡ shop.products)
    × Fulfilled platform env 1 2 7 shop o (record db' { idempotency_keys = [] })
    × ((later : Env) (anyone : ℕ) (afterwards : Db)
        → find_key (fulfill_request platform 1 7 99) afterwards.idempotency_keys
          ≡ find_key (fulfill_request platform 1 7 99) db'.idempotency_keys
        → fulfill_order platform later 1 anyone 7 99 afterwards ≡ (unwrap_outcome o, afterwards))
unfolding find_key
fulfill_order_once_example = fulfill_order_once platform env 1 2 7 99 shop shop-IsBacked refl

release-IsSettled_example : IsSettled 7 (shop_released [])
unfolding release_answer
release-IsSettled_example =
    release-IsSettled platform env 1 2 7 shop (shop_released []) release_result shop-IsBacked
      (release_run []) refl

fulfill-IsSettled_example : IsSettled 7 (shop_fulfilled [])
unfolding fulfill_answer
fulfill-IsSettled_example =
    fulfill-IsSettled platform env 1 2 7 shop (shop_fulfilled []) fulfill_result shop-IsBacked
      (fulfill_run []) refl

shop-IsCatalogued : IsCatalogued shop.products shop.inventory
unfolding product_of stock_of
shop-IsCatalogued = record {
  products_keyed = (refl, (refl, (refl, tt)));
  of_product = λ q s h. (product q, ground (arith, h), ground (arith, h));
}

abbrev more : AdjustInventory
more = record { product_id = 11; delta = pos 4; reason = "Delivery" }

apply_adjustment_total_example :
    (o : OperationOutcome) × (db' : Db) × (apply_adjustment platform env 1 more shop ≡ ok (o, db'))
    × IsBacked db'
    × IsCatalogued db'.products db'.inventory
    × Adjusted platform env 1 more shop o db'
unfolding stock_by_id
apply_adjustment_total_example =
    apply_adjustment_total platform env 1 more shop shop-IsBacked shop-IsCatalogued refl
      (omega arith)

adjust_stock_once_example :
    (o : OperationOutcome) × (db' : Db) × (adjust_stock platform env 1 more 99 shop
      ≡ (unwrap_outcome o, db'))
    × IsBacked db'
    × (db'.products ≡ shop.products)
    × IsCatalogued db'.products db'.inventory
    × Adjusted platform env 1 more shop o (record db' { idempotency_keys = [] })
    × ((later : Env) (afterwards : Db)
        → find_key (adjust_request platform 1 more 99) afterwards.idempotency_keys
          ≡ find_key (adjust_request platform 1 more 99) db'.idempotency_keys
        → adjust_stock platform later 1 more 99 afterwards ≡ (unwrap_outcome o, afterwards))
unfolding stock_by_id find_key
adjust_stock_once_example =
    adjust_stock_once platform env 1 more 99 shop shop-IsBacked shop-IsCatalogued refl (omega arith)
      refl

abbrev request : IdempotencyRequest
request = record {
  organization_id = 1;
  operation = reservation_release;
  idempotency_key = 99;
  request_fingerprint = 1234;
}

abbrev work : Tx Db OperationOutcome
work = release_stock platform env 1 2 7

work-LeavesKeys : LeavesKeys work
work-LeavesKeys = LeavesKeys-kept work (Keeps-release_stock platform env 1 2 7)

guarded_once_example :
    (guarded request work shop ≡ (
      unwrap_outcome release_result,
      completed_db request release_result shop (shop_released (claimed_row request ∷ [])),
    ))
    × ((work' : Tx Db OperationOutcome) (afterwards : Db)
        → find_key request afterwards.idempotency_keys
          ≡ find_key request
              (completed_db request release_result shop
                (shop_released (claimed_row request ∷ []))).idempotency_keys
        → guarded request work' afterwards ≡ (unwrap_outcome release_result, afterwards))
unfolding release_answer find_key
guarded_once_example =
    guarded_once request work work-LeavesKeys shop (shop_released (claimed_row request ∷ []))
      release_result refl refl (release_run (claimed_row request ∷ []))

guarded-payload_differs_example :
    guarded
      (record request { request_fingerprint = 5 })
      work
      (completed_db request release_result shop (shop_released (claimed_row request ∷ [])))
    ≡ (
      err (http_exception 409 (rejection key_payload_differs)),
      completed_db request release_result shop (shop_released (claimed_row request ∷ [])),
    )
unfolding find_key
guarded-payload_differs_example =
    guarded-payload_differs request work work-LeavesKeys work shop
      (completed_db request release_result shop (shop_released (claimed_row request ∷ [])))
      release_result 5 (ground arith)
      (guarded_work-ok request work shop (shop_released (claimed_row request ∷ [])) release_result
        work-LeavesKeys refl (release_run (claimed_row request ∷ [])))
