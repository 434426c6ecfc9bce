-- ===== src/Reservations/Create/Commit.antt =====
-- `reserveStock` of apps/api/src/reservations/reservations.service.ts as a whole: it never throws
-- on a database that keeps its invariant, and keeps the invariant.
use fulfill_os.Prelude.{
  ℕ, ◌+◌, ◌≤◌, true, ◌≡◌, refl, ◌∙◌, String, Option, none, some, List, [], ◌∷◌, ◌++◌, arith, ◌==◌,
  inl, inr, Bool-cases, ==_iff, All, All-map, All-append,
}
use mathlib.Core.Path.{subst}
use fulfill_os.Database.Enums.{is_pending}
use fulfill_os.Platform.{Platform, Env}
use fulfill_os.Database.{Db, Product, Stock, Order, OrderItem}
use fulfill_os.Database.Tx.{ok}
use fulfill_os.OrderTable.{order_by_id, items_of, insert_order-fresh, insert_items-ok}
use fulfill_os.Stocks.{stock_of, lock_rows}
use fulfill_os.Stocks.Lookup.{IsKeyed}
use fulfill_os.Stocks.Bounds.{IsBounded}
use fulfill_os.Stocks.Lines.{NoRepeat, moved, quantity_of}
use fulfill_os.Reservations.Held.{
  line_quantity, line_quantity-items_of, is_open, held, held_by-append, count_lines,
  count_lines-append, NoRepeat-count, count,
}
use fulfill_os.Reservations.Backed.{HasOrder, HasStock, TablesBacked, IsBacked, reserved_of}
use fulfill_os.Reservations.Create.{
  new_movements, ReservationItem, CreateReservation, product_ids, reserve_line, reserve_lines,
  new_items, new_order, created, created_entry, write_reservation,
}
use fulfill_os.Reservations.Create.Lines.{
  item_product, item_quantity, reserve_on_hand, reserve_reserved, CanReserve, Quantified,
}
use fulfill_os.Reservations.Create.Fits.{
  Fits, quantity_of-no_stock, added, Fixed, positive-added, held_by-added, count_lines-added,
  HasOrder-added, HasOrder-cons, held_by-fresh, count_lines-fresh, held-cons, scope,
}

-- A product's row after `n` more units of it are reserved.
abbrev pub raised : ℕ → Option Stock → Option Stock
raised = moved item_product item_quantity reserve_line reserve_on_hand reserve_reserved CanReserve

abbrev pub requested : ℕ → List ReservationItem → ℕ
requested = quantity_of item_product item_quantity

-- There is a pending order of that id and organization.
abbrev pub HasNewOrder : ℕ → ℕ → List Order → Type 0
HasNewOrder i g orders =
    (o : Order) × (order_by_id i orders ≡ some o)
    × (o.organization_id ≡ g)
    × (is_pending o.status ≡ true)

HasStock-raised :
    (n : ℕ → ℕ) (t t' : List Stock) (x : OrderItem)
    → ((q : ℕ) → stock_of q t' ≡ raised (n q) (stock_of q t))
    → HasStock t x
    → HasStock t' x
HasStock-raised n t t' x at (s, found, same) =
    (record s { reserved = s.reserved + n x.product_id }, at x.product_id ∙ rw found refl, same)

module _ (p : Platform) (env : Env) (organization user : ℕ) (locked : List Stock)
    (products : List Product) where
  HasStock-added :
      (items : List ReservationItem) (t t' : List Stock) (is : List ReservationItem)
      → ((q : ℕ) → stock_of q t' ≡ raised (requested q items) (stock_of q t))
      → All (Fits p organization items products t) is
      → All (HasStock t') (added p env organization user locked products is)
  unfolding new_items
  HasStock-added items t t' [] at a = tt
  HasStock-added items t t' (i ∷ is) at (f, a) =
      let (s, found, same) = f.1 in
      (
        (
          record s { reserved = s.reserved + requested i.product_id items },
          rw f.0 (at i.product_id ∙ rw found refl),
          same,
        ),
        HasStock-added items t t' is at a,
      )

module _ (p : Platform) (env : Env) (organization user : ℕ) (items : List ReservationItem)
    (currency : Option String) (db : Db) where
  abbrev pub order : Order
  order = new_order p env organization user currency

  abbrev pub request_rows : List Stock
  request_rows = lock_rows (scope p organization items db.products db.inventory) db.inventory

  abbrev pub lines : List OrderItem
  lines = added p env organization user request_rows db.products items

  Fits-Fixed :
      All (Fits p organization items db.products db.inventory) items
      → All (Fixed p env organization user request_rows db.products) items
  Fits-Fixed fits =
      All-map (Fits p organization items db.products db.inventory)
        (Fixed p env organization user request_rows db.products) items (λ i f. f.0) fits

  module _ (w : IsBacked db) (fresh : order_by_id env.new_id db.orders ≡ none) where
    open_order : is_open (order ∷ db.orders) env.new_id ≡ true
    unfolding order_by_id new_order is_pending
    open_order = ground arith

    distinct-reserve :
        (j q : ℕ)
        → NoRepeat (product_ids items)
        → All (Fits p organization items db.products db.inventory) items
        → count_lines j q (lines ++ db.order_items) ≤ 1
    unfolding new_order
    distinct-reserve j q distinct fits =
        rw
          (
            count_lines-append j q lines db.order_items,
            count_lines-added p env organization user request_rows db.products j q items
                (Fits-Fixed fits),
          )
          (elim (Bool-cases (env.new_id == j)) [
            | inl same ↦ rw same (
                subst (λ i. count q (product_ids items) + count_lines i q db.order_items ≤ 1)
                  ((==_iff env.new_id j).0 same)
                  (omega (
                    arith,
                    NoRepeat-count q (product_ids items) distinct,
                    count_lines-fresh order db.orders fresh q db.order_items w.owned,
                  )))
            | inr other ↦ rw other (omega (arith, w.distinct j q))
          ])

    backed-reserve :
        (q : ℕ) (t' : List Stock)
        → All (Fits p organization items db.products db.inventory) items
        → ((q : ℕ) → stock_of q t' ≡ raised (requested q items) (stock_of q db.inventory))
        → reserved_of (stock_of q t') ≡ held (order ∷ db.orders) q (lines ++ db.order_items)
    unfolding new_order
    backed-reserve q t' fits at =
        rw
          (
            at q,
            held_by-append (is_open (order ∷ db.orders)) q lines db.order_items,
            held_by-added p env organization user request_rows db.products
                (is_open (order ∷ db.orders)) q items open_order (Fits-Fixed fits),
            held-cons order db.orders fresh q db.order_items w.owned,
          )
          (ground (
            arith,
            w.backed q,
            quantity_of-no_stock p organization items db.products db.inventory q items fits,
          ))

  pub HasNewOrder-order : HasNewOrder env.new_id organization (order ∷ db.orders)
  unfolding new_order order_by_id is_pending
  HasNewOrder-order = (order, ground arith, refl, refl)

  -- The lines of the new order are the ones that were asked for.
  pub lines_of-reserve :
      (q : ℕ)
      → IsBacked db
      → order_by_id env.new_id db.orders ≡ none
      → All (Fits p organization items db.products db.inventory) items
      → line_quantity q (items_of env.new_id (lines ++ db.order_items)) ≡ requested q items
  unfolding new_order
  lines_of-reserve q w fresh fits =
      let itself : (env.new_id == env.new_id) ≡ true = ground arith in
      rw
        (
          line_quantity-items_of env.new_id q (lines ++ db.order_items),
          held_by-append (λ j. j == env.new_id) q lines db.order_items,
          held_by-added p env organization user request_rows db.products (λ j. j == env.new_id) q
              items itself (Fits-Fixed fits),
          held_by-fresh order db.orders fresh q db.order_items w.owned,
        )
        (omega arith)

  -- The tables after the writes keep the invariant.
  pub TablesBacked-reserve :
      (t' : List Stock)
      → IsBacked db
      → order_by_id env.new_id db.orders ≡ none
      → NoRepeat (product_ids items)
      → All (Fits p organization items db.products db.inventory) items
      → IsKeyed t'
      → IsBounded t'
      → ((q : ℕ) → stock_of q t' ≡ raised (requested q items) (stock_of q db.inventory))
      → TablesBacked t' (order ∷ db.orders) (lines ++ db.order_items)
  unfolding new_order
  TablesBacked-reserve t' w fresh distinct fits k b at = record {
    keyed = k;
    bounded = b;
    orders_keyed = (fresh, w.orders_keyed);
    owned =
        All-append (HasOrder (order ∷ db.orders)) lines db.order_items
          (HasOrder-added p env organization user request_rows db.products order db.orders items
            refl refl)
          (All-map (HasOrder db.orders) (HasOrder (order ∷ db.orders)) db.order_items
            (HasOrder-cons order db.orders fresh) w.owned);
    stocked =
        All-append (HasStock t') lines db.order_items
          (HasStock-added p env organization user request_rows db.products items db.inventory t'
            items at fits)
          (All-map (HasStock db.inventory) (HasStock t') db.order_items
            (λ x. HasStock-raised (λ q. requested q items) db.inventory t' x at) w.stocked);
    distinct = λ j q. distinct-reserve w fresh j q distinct fits;
    backed = λ q. backed-reserve w fresh q t' fits at;
  }

-- The writes, once the loop has run, commit these tables.
module _ (p : Platform) (env : Env) (organization user : ℕ) (i : ReservationItem)
    (is : List ReservationItem) (currency : Option String) (db : Db) where
  abbrev pub dto : CreateReservation
  dto = record { items = i ∷ is; currency = currency }

  -- The database after the writes.
  abbrev pub reserved_db : List Stock → List Stock → Db
  reserved_db rows t' = record db {
    inventory = t';
    orders = new_order p env organization user currency ∷ db.orders;
    order_items = added p env organization user rows db.products (i ∷ is) ++ db.order_items;
    movements = new_movements p env organization user (i ∷ is) ++ db.movements;
    audit_log = created_entry p env organization user ∷ db.audit_log;
  }

  pub write_reservation-ok :
      (rows t' : List Stock)
      → order_by_id env.new_id db.orders ≡ none
      → Quantified (i ∷ is)
      → reserve_lines (i ∷ is) rows db.inventory ≡ ok t'
      → write_reservation p env organization user dto rows db
        ≡ ok (created p env organization user dto rows db.products, reserved_db rows t')
  unfolding write_reservation new_order new_items new_movements
  write_reservation-ok rows t' fresh q ran = rw ran (
      rw (insert_order-fresh (new_order p env organization user currency) db.orders fresh) (
        rw
          (insert_items-ok _ _ db.order_items
            (positive-added p env organization user rows db.products (i ∷ is) q))
          refl))
