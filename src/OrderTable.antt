-- ===== src/OrderTable.antt =====
-- The statements on `orders`, `order_items`, `inventory_movements` and `audit_log` that
-- apps/api/src/reservations/reservations.service.ts issues.
pub mod Keys
use fulfill_os.Prelude.{
  arith, ◌≡◌, refl, ℕ, Bool, true, Option, none, some, List, [], ◌∷◌, ◌++◌, ◌&&◌, ltb, leb, ◌==◌,
  if◌then◌else◌,
}
use fulfill_os.Database.{Db, Order, OrderItem, Movement, AuditEntry, Stock}
use fulfill_os.Database.Enums.{is_pending}
use fulfill_os.Database.Thrown.{
  unique_violation, check_violation, pg_failure, empty_values, orders_pkey,
  order_items_quantity_positive,
}
use fulfill_os.Database.Tx.{Result, ok, err, and_then, Tx}

unfoldable pub order_by_id : ℕ → List Order → Option Order
order_by_id i [] = none
order_by_id i (o ∷ os) = if o.id == i then some o else order_by_id i os

-- `INSERT INTO orders`, under the primary key.
unfoldable pub insert_order : Order → List Order → Result (List Order)
unfolding order_by_id pg_failure
insert_order o os = elim (order_by_id o.id os) [
  | some _ ↦ err (pg_failure unique_violation (some orders_pkey))
  | none ↦ ok (o ∷ os)
]

-- `WHERE id = i AND organization_id = g`, and `AND status = 'pending'`.
abbrev pub is_order : ℕ → ℕ → Order → Bool
is_order i g o = o.id == i && o.organization_id == g

abbrev pub is_pending_order : ℕ → ℕ → Order → Bool
is_pending_order i g o = o.id == i && o.organization_id == g && is_pending o.status

unfoldable pub find_order : (Order → Bool) → List Order → Option Order
find_order f [] = none
find_order f (o ∷ os) = if f o then some o else find_order f os

-- `UPDATE orders SET … WHERE …`
unfoldable pub update_orders : (Order → Bool) → (Order → Order) → List Order → List Order
update_orders f g [] = []
update_orders f g (o ∷ os) = (if f o then g o else o) ∷ update_orders f g os

-- `SELECT … FROM order_items WHERE order_id = i ORDER BY product_id ASC`
unfoldable pub insert_item : OrderItem → List OrderItem → List OrderItem
insert_item i [] = i ∷ []
insert_item i (x ∷ xs) = if leb i.product_id x.product_id then i ∷ x ∷ xs else x ∷ insert_item i xs

unfoldable pub items_of : ℕ → List OrderItem → List OrderItem
unfolding insert_item
items_of i [] = []
items_of i (x ∷ xs) = if x.order_id == i then insert_item x (items_of i xs) else items_of i xs

-- `CHECK (quantity > 0)` on every row.
unfoldable pub positive_quantities : List OrderItem → Bool
positive_quantities [] = true
positive_quantities (x ∷ xs) = ltb 0 x.quantity && positive_quantities xs

unfoldable pub insert_items : List OrderItem → List OrderItem → Result (List OrderItem)
unfolding positive_quantities pg_failure
insert_items [] table = err empty_values
insert_items (x ∷ xs) table =
    if positive_quantities (x ∷ xs)
    then ok ((x ∷ xs) ++ table)
    else err (pg_failure check_violation (some order_items_quantity_positive))

-- A fresh order, and lines of positive quantity, are inserted.
pub order_by_id-id : (i : ℕ) (os : List Order) (o : Order) → order_by_id i os ≡ some o → o.id ≡ i
unfolding order_by_id
order_by_id-id i [] o h = cc
order_by_id-id i (x ∷ os) o h = ground (arith, order_by_id-id i os o, h)

pub insert_order-fresh :
    (o : Order) (os : List Order) → order_by_id o.id os ≡ none → insert_order o os ≡ ok (o ∷ os)
unfolding insert_order
insert_order-fresh o os h = rw (h, insert_order) refl

pub insert_items-ok :
    (x : OrderItem) (xs table : List OrderItem)
    → positive_quantities (x ∷ xs) ≡ true
    → insert_items (x ∷ xs) table ≡ ok ((x ∷ xs) ++ table)
unfolding insert_items
insert_items-ok x xs table h = rw (h, insert_items) refl

-- The statements over the whole database.
abbrev pub on_inventory : (List Stock → Result (List Stock)) → Tx Db (Unit {0})
on_inventory f db = and_then (f db.inventory) (λ t. ok (tt, record db { inventory = t }))

abbrev pub on_orders : (List Order → Result (List Order)) → Tx Db (Unit {0})
on_orders f db = and_then (f db.orders) (λ t. ok (tt, record db { orders = t }))

abbrev pub on_items : (List OrderItem → Result (List OrderItem)) → Tx Db (Unit {0})
on_items f db = and_then (f db.order_items) (λ t. ok (tt, record db { order_items = t }))

-- drizzle-orm refuses an INSERT of no rows.
abbrev pub append_movements : List Movement → List Movement → Result (List Movement)
append_movements [] table = err empty_values
append_movements (m ∷ ms) table = ok ((m ∷ ms) ++ table)

abbrev pub insert_movements : List Movement → Tx Db (Unit {0})
insert_movements ms db =
    and_then (append_movements ms db.movements) (λ t. ok (tt, record db { movements = t }))

abbrev pub insert_audit : AuditEntry → Tx Db (Unit {0})
insert_audit e db = ok (tt, record db { audit_log = e ∷ db.audit_log })
