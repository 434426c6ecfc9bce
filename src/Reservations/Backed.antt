-- ===== src/Reservations/Backed.antt =====
-- The invariant of the stock tables of apps/api/src/database/schema: what the CHECK, UNIQUE and
-- FOREIGN KEY constraints promise, and that the reserved stock of every product is exactly what
-- the lines of the pending orders hold.
use fulfill_os.Prelude.{ℕ, ◌≤◌, ◌≡◌, Option, none, some, List, [], ◌∷◌, All}
use fulfill_os.Database.{Db, Stock, Order, OrderItem}
use fulfill_os.OrderTable.{order_by_id}
use fulfill_os.Stocks.{stock_of}
use fulfill_os.Stocks.Lookup.{IsKeyed}
use fulfill_os.Stocks.Bounds.{IsBounded}
use fulfill_os.Reservations.Held.{held, count_lines}

abbrev pub reserved_of : Option Stock → ℕ
reserved_of none = 0
reserved_of (some s) = s.reserved

abbrev pub on_hand_of : Option Stock → ℕ
on_hand_of none = 0
on_hand_of (some s) = s.on_hand

-- No order id stands twice.
abbrev pub OrdersKeyed : List Order → Type 0
OrdersKeyed [] = Unit
OrdersKeyed (o ∷ os) = (order_by_id o.id os ≡ none) × OrdersKeyed os

-- A line belongs to an order, and its product to a stock row, of the line's organization.
abbrev pub HasOrder : List Order → OrderItem → Type 0
HasOrder orders x =
    (o : Order) × (order_by_id x.order_id orders ≡ some o) × (o.organization_id ≡ x.organization_id)

abbrev pub HasStock : List Stock → OrderItem → Type 0
HasStock inventory x =
    (s : Stock) × (stock_of x.product_id inventory ≡ some s)
    × (s.organization_id ≡ x.organization_id)

pub record TablesBacked (inventory : List Stock) (orders : List Order) (items : List OrderItem)
    : Type 0 where
  pub keyed : IsKeyed inventory
  pub bounded : IsBounded inventory
  pub orders_keyed : OrdersKeyed orders
  pub owned : All (HasOrder orders) items
  pub stocked : All (HasStock inventory) items
  pub distinct : (i p : ℕ) → count_lines i p items ≤ 1
  pub backed : (p : ℕ) → reserved_of (stock_of p inventory) ≡ held orders p items

abbrev pub IsBacked : Db → Type 0
IsBacked db = TablesBacked db.inventory db.orders db.order_items
