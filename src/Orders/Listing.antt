-- ===== src/Orders/Listing.antt =====
-- `listOrders` of apps/api/src/orders/orders.service.ts, from page to page.
use fulfill_os.Prelude.{
  ℕ, ◌≤◌, ◌≡◌, ◌≢◌, Bool, ◌==◌, Option, none, some, List, [], ◌∷◌, arith, All, filterb,
}
use fulfill_os.Platform.{Platform}
use fulfill_os.Database.{Db, Order}
use fulfill_os.OrderTable.{order_by_id}
use fulfill_os.Common.Pagination.{normalize_limit, sort_newest, CursorPage, QueryCursor, Read}
use fulfill_os.Common.Pagination.Sorting.{IdsDiffer}
use fulfill_os.Reservations.Backed.{OrdersKeyed}
use fulfill_os.Orders.{OrderSummary, order_fields, list_orders}

absent-differs : (i : ℕ) (os : List Order) → order_by_id i os ≡ none → All (λ o. i ≢ o.id) os
unfolding order_by_id
absent-differs i [] h = tt
absent-differs i (o ∷ os) h = (ground (arith, h), absent-differs i os (ground (arith, h)))

pub OrdersKeyed-IdsDiffer : (os : List Order) → OrdersKeyed os → IdsDiffer order_fields os
OrdersKeyed-IdsDiffer [] k = tt
OrdersKeyed-IdsDiffer (o ∷ os) k = (absent-differs o.id os k.0, OrdersKeyed-IdsDiffer os k.1)

pub normalize_limit_bounds :
    (limit : Option ℕ) → (1 ≤ normalize_limit limit) × (normalize_limit limit ≤ 100)
unfolding normalize_limit
normalize_limit_bounds none = (omega arith, omega arith)
normalize_limit_bounds (some limit) = ground arith

abbrev pub mine : ℕ → Order → Bool
mine organization o = o.organization_id == organization

module _ (p : Platform) (organization : ℕ) (limit : Option ℕ) (db : Db) where
  -- The listing of one caller, by its cursor.
  abbrev pub ask_orders : QueryCursor → Read (CursorPage OrderSummary)
  ask_orders q = list_orders p organization (record { limit = limit; cursor = q }) db

  abbrev pub mine_newest_first : List Order
  mine_newest_first = sort_newest order_fields (filterb (mine organization) db.orders)
