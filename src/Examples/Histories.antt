-- ===== src/Examples/Histories.antt =====
-- A history of the stock services of apps/api/src from the empty database: a product is created with
-- twenty units, and five are reserved.
use fulfill_os.Prelude.{false, ◌⊎◌, ℕ, ◌≤◌, ◌+◌, ◌≡◌, refl, true, none, some, List, [], ◌∷◌, arith}
use fulfill_os.Common.Outcome.{OperationOutcome}
use fulfill_os.Common.Pagination.{found}
use fulfill_os.Common.PostgresInt.{pg_int4_max}
use fulfill_os.Database.{Db, empty_db}
use fulfill_os.Database.Tx.{Result, ok}
use fulfill_os.Stocks.{stock_of, stock_by_id}
use fulfill_os.Catalog.{product_of, find_sku}
use fulfill_os.OrderTable.{order_by_id}
use fulfill_os.Database.Tx.{transaction}
use fulfill_os.Stocks.{insert_stock, checked_counts}
use fulfill_os.Products.{
  write_product, insert_product, CreateProduct, ProductDetail, create_product, get_product,
  new_detail,
}
use fulfill_os.Products.Create.{
  Created, with_product, create_product_total, get_product-create_product,
}
use fulfill_os.Reservations.Backed.{reserved_of, on_hand_of}
use fulfill_os.Reservations.Held.{held}
use fulfill_os.OrderTable.{insert_order, insert_items, insert_item, positive_quantities}
use fulfill_os.Database.{Stock}
use fulfill_os.Stocks.{
  update_stock, set_counts, lock_rows, sort_by_product, insert_by_product, locked_row, for_lines,
}
use fulfill_os.Reservations.Create.Commit.{reserved_db}
use fulfill_os.Reservations.Create.{
  ReservationItem, CreateReservation, reserve_stock, created, shortfalls, available_of,
  write_reservation, reserve_lines, reserve_line, reserve_scope, has_product, new_items, new_order,
  price_of, unit_price, created_entry, parsed_ids, new_movements,
}
use fulfill_os.Reservations.Release.{release_stock}
use fulfill_os.Reservations.Undo.{release_stock-reserve_stock}
use fulfill_os.Ledger.{put_in, taken_out, on_hand_delta, reserved_delta}
use fulfill_os.Consistency.{IsConsistent}
use fulfill_os.Consistency.History.{
  Request, new_product_request, reservation_request, served, Reaches, stays, serves,
  empty-IsConsistent, Reaches-IsConsistent, Reaches-bounds,
}
use fulfill_os.Warehouse.{Steps, Idle, shelf}
use fulfill_os.Warehouse.Refines.{event_of, is_accepted, IsUnclaimed, served-Steps}
use fulfill_os.Examples.Shop.{platform, env}

abbrev widget : CreateProduct
widget = record {
  sku = "WIDGET-1";
  name = "Widget";
  description = none;
  unit_price_cents = 500;
  initial_on_hand = some 20;
}

abbrev creation : Request
creation = new_product_request 1 widget

abbrev line : ReservationItem
line = record { product_id = 8; quantity = 5 }

abbrev booking : Request
booking = reservation_request 1 2 line [] none 99

-- The database that the creation leaves, written out.
abbrev store : Db
store = with_product platform env 1 widget empty_db

create_product_total_example :
    (answer : Result ProductDetail) × (db' : Db) × (create_product platform env 1 widget empty_db
      ≡ (answer, db'))
    × IsConsistent db'
    × Created platform env 1 widget empty_db answer db'
unfolding product_of stock_by_id
create_product_total_example =
    create_product_total platform env 1 widget empty_db empty-IsConsistent refl refl (omega arith)
      (omega arith)

get_product-create_product_example :
    ((new_detail platform env 1 widget).id ≡ 8)
    × (get_product platform 1 8 store ≡ found (new_detail platform env 1 widget))
unfolding product_of stock_by_id create_product transaction write_product insert_stock
get_product-create_product_example =
    get_product-create_product platform env 1 widget empty_db store
      (new_detail platform env 1 widget) empty-IsConsistent refl refl (ground arith) (ground arith)
      refl

abbrev booked : Db
booked = served platform env booking (served platform env creation empty_db)

created_history : Reaches platform empty_db (served platform env creation empty_db)
unfolding product_of stock_by_id
created_history = serves env creation stays (refl, refl, omega arith, omega arith)

created_run : served platform env creation empty_db ≡ store
unfolding create_product write_product insert_product product_of find_sku insert_stock
    checked_counts stock_by_id stock_of transaction
created_run = refl

fresh_order : order_by_id env.new_id (served platform env creation empty_db).orders ≡ none
unfolding order_by_id
fresh_order = rw created_run refl

history : Reaches platform empty_db booked
history = serves env booking created_history (fresh_order, (omega arith, tt))

abbrev booking_dto : CreateReservation
booking_dto = record { items = line ∷ []; currency = none }

abbrev locked : List Stock
locked = record { id = 103; organization_id = 1; product_id = 8; on_hand = 20; reserved = 0 } ∷ []

abbrev store_reserved : Db
store_reserved =
    reserved_db platform env 1 2 line [] none store locked
      (record { id = 103; organization_id = 1; product_id = 8; on_hand = 20; reserved = 5 } ∷ [])

reserve_run :
    reserve_stock platform env 1 2 booking_dto store
    ≡ ok (created platform env 1 2 booking_dto locked store.products, store_reserved)
unfolding reserve_stock shortfalls available_of write_reservation reserve_lines reserve_line
    reserve_scope has_product new_items new_order price_of unit_price created_entry parsed_ids
    product_of stock_by_id update_stock set_counts checked_counts lock_rows sort_by_product
    insert_by_product locked_row for_lines insert_order insert_items insert_item order_by_id
    new_movements positive_quantities
reserve_run = refl

store-IsConsistent : IsConsistent store
store-IsConsistent = rw (← created_run) (
    Reaches-IsConsistent platform empty_db (served platform env creation empty_db) (λ x. refl)
      empty-IsConsistent created_history)

release_stock-reserve_stock_example :
    (o2 : OperationOutcome) × (db2 : Db) × (release_stock platform env 1 3 8 store_reserved
      ≡ ok (o2, db2))
    × (o2.accepted ≡ true)
    × ((q : ℕ) → stock_of q db2.inventory ≡ stock_of q store.inventory)
unfolding order_by_id created
release_stock-reserve_stock_example =
    release_stock-reserve_stock platform env env 1 2 3 line [] none store store_reserved
      (created platform env 1 2 booking_dto locked store.products) (λ x. refl)
      store-IsConsistent.backed refl (refl, tt) (omega arith, tt) reserve_run refl

Reaches-IsConsistent_example : IsConsistent booked
Reaches-IsConsistent_example =
    Reaches-IsConsistent platform empty_db booked (λ x. refl) empty-IsConsistent history

Reaches-bounds_example :
    (reserved_of (stock_of 8 booked.inventory) ≡ held booked.orders 8 booked.order_items)
    × (reserved_of (stock_of 8 booked.inventory) ≤ on_hand_of (stock_of 8 booked.inventory))
    × (on_hand_of (stock_of 8 booked.inventory) ≤ pg_int4_max)
    × (on_hand_of (stock_of 8 booked.inventory) + taken_out on_hand_delta 8 booked.movements
        ≡ put_in on_hand_delta 8 booked.movements)
    × (reserved_of (stock_of 8 booked.inventory) + taken_out reserved_delta 8 booked.movements
        ≡ put_in reserved_delta 8 booked.movements)
Reaches-bounds_example = Reaches-bounds platform booked (λ x. refl) history 8

served-Steps_example :
    Steps
      (event_of platform env booking store)
      (shelf store)
      (shelf (served platform env booking store))
    ⊎ (Idle (shelf store) (shelf (served platform env booking store))
        × (IsUnclaimed platform booking store → is_accepted platform env booking store ≡ false))
unfolding order_by_id
served-Steps_example =
    served-Steps platform env booking store (λ x. refl) store-IsConsistent (refl, (omega arith, tt))
