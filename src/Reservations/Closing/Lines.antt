-- ===== src/Reservations/Closing/Lines.antt =====
-- The lines of a pending order under the loops of `releaseStock` and `fulfillStock`
-- (apps/api/src/reservations/reservations.service.ts): every line finds its row locked, and the row
-- holds at least the line's quantity.
use fulfill_os.Prelude.{
  ℕ, ◌-◌, ◌≤◌, ◌≡◌, refl, ◌∙◌, true, Option, some, List, [], ◌∷◌, arith, All, All-map, All-zip,
  contains, products_of,
}
use fulfill_os.Common.PostgresInt.{pg_int4_max}
use fulfill_os.Database.{Db, Stock, Order, OrderItem}
use fulfill_os.Database.Tx.{Result}
use fulfill_os.OrderTable.{find_order, is_pending_order, items_of}
use fulfill_os.Stocks.{stock_of, in_scope, lock_rows}
use fulfill_os.Stocks.Lookup.{IsKeyed, product-stock_of, with_counts}
use fulfill_os.Stocks.Locking.{locked_row-lock_rows}
use fulfill_os.Stocks.Bounds.{IsBounded, stock_of-IsSound}
use fulfill_os.Stocks.Lines.{Covered, IsRound, Moves, moved, for_lines-Moves}
use fulfill_os.Reservations.Held.{line_products, line_quantity, All-items_of, items_of-NoRepeat}
use fulfill_os.Reservations.Backed.{HasOrder, HasStock, TablesBacked, IsBacked}
use fulfill_os.Reservations.Closing.{
  Closes, closed, find_order-pending, closed-OrdersKeyed, HasOrder-closed, held-closed,
}

-- Every line of a list is named by it, with its quantity or more.
lines_named : (xs : List OrderItem) → All (λ x. contains x.product_id (line_products xs) ≡ true) xs
lines_named [] = tt
lines_named (x ∷ xs) = (
  ground arith,
  All-map (λ y. contains y.product_id (line_products xs) ≡ true)
      (λ y. contains y.product_id (line_products (x ∷ xs)) ≡ true) xs (λ y h. ground (arith, h))
      (lines_named xs),
)

lines_counted : (xs : List OrderItem) → All (λ x. x.quantity ≤ line_quantity x.product_id xs) xs
lines_counted [] = tt
lines_counted (x ∷ xs) = (
  ground arith,
  All-map (λ y. y.quantity ≤ line_quantity y.product_id xs)
      (λ y. y.quantity ≤ line_quantity y.product_id (x ∷ xs)) xs (λ y h. ground (arith, h))
      (lines_counted xs),
)

-- A row allows a line if it has reserved that much.
abbrev pub CanTake : Stock → ℕ → Type 0
CanTake s n = (n ≤ s.reserved) × (s.reserved ≤ s.on_hand) × (s.on_hand ≤ pg_int4_max)

abbrev pub less_reserved : Stock → ℕ → ℕ
less_reserved s n = s.reserved - n

abbrev pub product : OrderItem → ℕ
product x = x.product_id

abbrev pub quantity : OrderItem → ℕ
quantity x = x.quantity

-- The lines of an order, and the rows that its closing locks.
abbrev pub lines_of : ℕ → Db → List OrderItem
lines_of i db = items_of i db.order_items

abbrev pub rows_of : ℕ → ℕ → Db → List Stock
rows_of i g db = lock_rows (in_scope g (products_of product (lines_of i db))) db.inventory

module _ (body : OrderItem → Option Stock → List Stock → Result (List Stock))
    (on_hand : Stock → ℕ → ℕ) where
  abbrev pub Taken : List OrderItem → List Stock → List Stock → Type 0
  Taken = Moves product quantity body on_hand less_reserved CanTake

  abbrev pub IsTaking : Type 0
  IsTaking = IsRound product quantity body on_hand less_reserved CanTake

  abbrev pub taken : ℕ → Option Stock → Option Stock
  taken = moved product quantity body on_hand less_reserved CanTake

  module _ (i g : ℕ) (set : Order → Order) (closes : Closes set) (db : Db) (o : Order)
      (w : IsBacked db) (pending_order : find_order (is_pending_order i g) db.orders ≡ some o) where
    -- What is known of a line of the order.
    abbrev Line : OrderItem → Type 0
    Line x =
        ((HasStock db.inventory x × HasOrder db.orders x) × (x.order_id ≡ i))
        × ((contains x.product_id (line_products (lines_of i db)) ≡ true)
            × (x.quantity ≤ line_quantity x.product_id (lines_of i db)))

    lines-Line : All Line (lines_of i db)
    lines-Line =
        All-zip (λ x. (HasStock db.inventory x × HasOrder db.orders x) × (x.order_id ≡ i))
          (λ x.
            (contains x.product_id (line_products (lines_of i db)) ≡ true)
            × (x.quantity ≤ line_quantity x.product_id (lines_of i db)))
          (lines_of i db)
          (All-items_of (λ x. HasStock db.inventory x × HasOrder db.orders x) i db.order_items
            (All-zip (HasStock db.inventory) (HasOrder db.orders) db.order_items w.stocked w.owned))
          (All-zip (λ x. contains x.product_id (line_products (lines_of i db)) ≡ true)
            (λ x. x.quantity ≤ line_quantity x.product_id (lines_of i db)) (lines_of i db)
            (lines_named (lines_of i db)) (lines_counted (lines_of i db)))

    -- Its row is the organization's, and in the scope of the lock.
    Line-in_scope :
        (x : OrderItem) (s : Stock)
        → Line x
        → stock_of x.product_id db.inventory ≡ some s
        → in_scope g (products_of product (lines_of i db)) s ≡ true
    Line-in_scope x s ((((r, found, same), (o', its, owner)), e), (named, _)) h =
        let (at, mine, _) = find_order-pending i g db.orders o w.orders_keyed pending_order in
        let stored = product-stock_of x.product_id db.inventory s h in
        ground (arith, found, same, h, owner, mine, named, stored, rw e at its, at)

    Line-CanTake :
        (x : OrderItem) (s : Stock)
        → Line x
        → stock_of x.product_id db.inventory ≡ some s
        → CanTake s x.quantity
    Line-CanTake x s l h =
        let sound = stock_of-IsSound x.product_id db.inventory s w.bounded h in
        let all_lines =
          held-closed i g set closes x.product_id db.orders o db.order_items w.orders_keyed
            pending_order in
        (omega (arith, l.1.1, all_lines, rw h at (w.backed x.product_id)), sound.0, sound.1)

    Covered-lines :
        (xs : List OrderItem)
        → All Line xs
        → Covered product quantity body on_hand less_reserved CanTake xs
            (rows_of i g db)
            db.inventory
    Covered-lines [] a = tt
    Covered-lines (x ∷ xs) (l, a) =
        let (s, found, _) = l.0.0.0 in
        (
          (
            s,
            locked_row-lock_rows (in_scope g (products_of product (lines_of i db))) x.product_id
                db.inventory s w.keyed found (Line-in_scope x s l found),
            found,
            Line-CanTake x s l found,
          ),
          Covered-lines xs a,
        )

    -- The loop takes every line from its row.
    pub lines-Taken : IsTaking → Taken (lines_of i db) (rows_of i g db) db.inventory
    lines-Taken taking =
        for_lines-Moves product quantity body on_hand less_reserved CanTake (lines_of i db)
          (rows_of i g db) db.inventory taking w.keyed w.bounded
          (items_of-NoRepeat i db.order_items (λ p. w.distinct i p))
          (Covered-lines (lines_of i db) lines-Line)

    HasStock-taken :
        (t' : List Stock) (x : OrderItem)
        → ((q : ℕ)
            → stock_of q t' ≡ taken (line_quantity q (lines_of i db)) (stock_of q db.inventory))
        → HasStock db.inventory x
        → HasStock t' x
    HasStock-taken t' x at (s, found, same) =
        let n = line_quantity x.product_id (lines_of i db) in
        (with_counts (on_hand s n) (s.reserved - n) s, at x.product_id ∙ rw found refl, same)

    -- The tables after the order is closed and its lines are taken keep the invariant.
    pub TablesBacked-close :
        (t' : List Stock)
        → IsKeyed t'
        → IsBounded t'
        → ((q : ℕ)
            → stock_of q t' ≡ taken (line_quantity q (lines_of i db)) (stock_of q db.inventory))
        → TablesBacked t' (closed i g set closes db.orders) db.order_items
    TablesBacked-close t' k b at = record {
      keyed = k;
      bounded = b;
      orders_keyed = closed-OrdersKeyed i g set closes db.orders w.orders_keyed;
      owned =
          All-map (HasOrder db.orders) (HasOrder (closed i g set closes db.orders)) db.order_items
            (HasOrder-closed i g set closes db.orders) w.owned;
      stocked =
          All-map (HasStock db.inventory) (HasStock t') db.order_items (λ x. HasStock-taken t' x at)
            w.stocked;
      distinct = w.distinct;
      backed = λ q. rw (at q) (
          ground (
            arith,
            w.backed q,
            held-closed i g set closes q db.orders o db.order_items w.orders_keyed pending_order,
          ));
    }
