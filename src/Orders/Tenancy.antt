-- ===== src/Orders/Tenancy.antt =====
-- Whose order `getOrder` of apps/api/src/orders/orders.service.ts answers with.
use fulfill_os.Prelude.{ℕ, ◌≡◌, some, List, [], ◌∷◌, arith, inl, inr, Option-cases}
use fulfill_os.Platform.{Platform}
use fulfill_os.Database.{Db, Order}
use fulfill_os.OrderTable.{is_order, find_order}
use fulfill_os.Orders.{OrderDetail, get_order}
use fulfill_os.Common.Pagination.{found}

find_order_mine :
    (i g : ℕ) (os : List Order) (o : Order)
    → find_order (is_order i g) os ≡ some o
    → (o.id ≡ i) × (o.organization_id ≡ g)
unfolding find_order
find_order_mine i g [] o h = cc
find_order_mine i g (x ∷ os) o h = ground (arith, find_order_mine i g os o, h)

-- An order that `get_order` answers with is a row of the organization that asked, of the id that
-- was asked for, in the status and currency of that row.
pub get_order_mine :
    (p : Platform) (organization i : ℕ) (db : Db) (d : OrderDetail)
    → get_order p organization i db ≡ found d
    → (o : Order) × (find_order (is_order i organization) db.orders ≡ some o)
      × (o.id ≡ i)
      × (o.organization_id ≡ organization)
      × (d.id ≡ i)
      × (d.status ≡ o.status)
      × (d.currency ≡ o.currency)
unfolding get_order
get_order_mine p g i db d h = elim (Option-cases (find_order (is_order i g) db.orders)) [
  | inl missing ↦ absurd (ground (arith, h, missing))
  | inr (o, row) ↦
      let (same, mine) = find_order_mine i g db.orders o row in
      (
        o,
        row,
        same,
        mine,
        ground (arith, h, row, same),
        ground (arith, h, row),
        ground (arith, h, row),
      )
]
