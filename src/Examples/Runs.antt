-- ===== src/Examples/Runs.antt =====
-- Runs of apps/api/src/reservations/reservations.service.ts on the shop.
use fulfill_os.Prelude.{◌≡◌, refl, List, [], ◌∷◌}
use fulfill_os.Common.Outcome.{OperationOutcome}
use fulfill_os.Database.{Db, KeyRow}
use fulfill_os.Database.Enums.{is_pending}
use fulfill_os.Database.Thrown.{invariant_violated}
use fulfill_os.Database.Tx.{ok, err}
use fulfill_os.Stocks.{
  stock_by_id, for_lines, update_stock, set_counts, checked_counts, lock_rows, sort_by_product,
  insert_by_product, locked_row,
}
use fulfill_os.OrderTable.{find_order, update_orders, items_of, insert_item}
use fulfill_os.Reservations.Movements.{insert_any_movements}
use fulfill_os.Reservations.Release.{
  release_stock, cancel_order, release_answer, release_order, release_line, release_movements,
  release_entry,
}
use fulfill_os.Reservations.Fulfill.{
  fulfill_stock, complete_order, fulfill_answer, consume_order, fulfill_line, fulfill_movements,
  fulfill_entry,
}
use fulfill_os.Examples.Shop.{platform, env, shop, order, lines}

abbrev pub shop_released : List KeyRow → Db
shop_released ks = record shop {
  inventory =
      record { id = 101; organization_id = 1; product_id = 11; on_hand = 10; reserved = 0 }
      ∷ record { id = 102; organization_id = 1; product_id = 12; on_hand = 5; reserved = 0 }
      ∷ [];
  orders = cancel_order 50 order ∷ [];
  movements = release_movements platform env 1 2 7 lines;
  audit_log = release_entry platform env 1 2 7 ∷ [];
  idempotency_keys = ks;
}

abbrev pub release_result : OperationOutcome
release_result = release_answer platform env 1 2 7 (cancel_order 50 order)

pub release_run :
    (ks : List KeyRow)
    → release_stock platform env 1 2 7 (record shop { idempotency_keys = ks })
      ≡ ok (release_result, shop_released ks)
unfolding release_stock release_order release_line release_movements find_order update_orders
    items_of insert_item for_lines update_stock stock_by_id set_counts checked_counts lock_rows
    sort_by_product insert_by_product locked_row insert_any_movements is_pending
release_run ks = refl

abbrev pub shop_fulfilled : List KeyRow → Db
shop_fulfilled ks = record shop {
  inventory =
      record { id = 101; organization_id = 1; product_id = 11; on_hand = 7; reserved = 0 }
      ∷ record { id = 102; organization_id = 1; product_id = 12; on_hand = 5; reserved = 0 }
      ∷ [];
  orders = complete_order 50 order ∷ [];
  movements = fulfill_movements platform env 1 2 7 lines;
  audit_log = fulfill_entry platform env 1 2 7 ∷ [];
  idempotency_keys = ks;
}

abbrev pub fulfill_result : OperationOutcome
fulfill_result = fulfill_answer platform env 1 2 7 (complete_order 50 order)

pub fulfill_run :
    (ks : List KeyRow)
    → fulfill_stock platform env 1 2 7 (record shop { idempotency_keys = ks })
      ≡ ok (fulfill_result, shop_fulfilled ks)
unfolding fulfill_stock consume_order fulfill_line fulfill_movements find_order update_orders
    items_of insert_item for_lines update_stock stock_by_id set_counts checked_counts lock_rows
    sort_by_product insert_by_product locked_row insert_any_movements is_pending
fulfill_run ks = refl

-- A shop whose stock row was lost: the loop's check throws.
abbrev broken_shop : List KeyRow → Db
broken_shop ks = record shop { inventory = []; idempotency_keys = ks }

broken_run :
    (ks : List KeyRow)
    → release_stock platform env 1 2 7 (broken_shop ks) ≡ err (invariant_violated 11)
unfolding release_stock release_order release_line find_order items_of insert_item for_lines
    lock_rows sort_by_product locked_row is_pending
broken_run ks = refl
