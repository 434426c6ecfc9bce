-- ===== src/Dashboard.antt =====
-- apps/api/src/dashboard/dashboard.service.ts: the figures of an organization, each a count over a
-- table.
use fulfill_os.Prelude.{
  ℕ, ◌+◌, suc, Bool, true, false, ◌≡◌, refl, List, [], ◌∷◌, ◌&&◌, ◌==◌, if◌then◌else◌, arith,
  length, filterb, not,
}
use fulfill_os.Prelude.Int.{pos, sub_ℕ, ltb_ℤ}
use fulfill_os.Database.{Db, Product, Stock, Order}
use fulfill_os.Database.Enums.{OrderStatus, pending, fulfilled, cancelled}

pub record DashboardSummary : Type 0 where
  pub total_products : ℕ
  pub pending_orders : ℕ
  pub fulfilled_orders : ℕ
  pub cancelled_orders : ℕ
  pub low_stock_products : ℕ

abbrev pub low_stock_threshold : ℕ
low_stock_threshold = 5

same_status : OrderStatus → OrderStatus → Bool
same_status pending pending = true
same_status fulfilled fulfilled = true
same_status cancelled cancelled = true
same_status _ _ = false

count_products : ℕ → List Product → ℕ
count_products g [] = 0
count_products g (x ∷ xs) =
    if x.organization_id == g then suc (count_products g xs) else count_products g xs

-- The group of a status, where a group that is not there counts 0.
count_orders : ℕ → OrderStatus → List Order → ℕ
unfolding same_status
count_orders g status [] = 0
count_orders g status (o ∷ os) =
    if o.organization_id == g && same_status o.status status
    then suc (count_orders g status os)
    else count_orders g status os

-- `on_hand - reserved <= LOW_STOCK_THRESHOLD`
abbrev pub is_low : Stock → Bool
is_low s = not (ltb_ℤ (pos low_stock_threshold) (sub_ℕ s.on_hand s.reserved))

count_low : ℕ → List Stock → ℕ
count_low g [] = 0
count_low g (s ∷ t) =
    if s.organization_id == g && is_low s then suc (count_low g t) else count_low g t

pub get_summary : ℕ → Db → DashboardSummary
unfolding count_products count_orders count_low
get_summary g db = record {
  total_products = count_products g db.products;
  pending_orders = count_orders g pending db.orders;
  fulfilled_orders = count_orders g fulfilled db.orders;
  cancelled_orders = count_orders g cancelled db.orders;
  low_stock_products = count_low g db.inventory;
}

abbrev pub of_organization : ℕ → Order → Bool
of_organization g o = o.organization_id == g

count_orders-length :
    (g : ℕ) (os : List Order)
    → count_orders g pending os + count_orders g fulfilled os + count_orders g cancelled os
      ≡ length (filterb (of_organization g) os)
unfolding count_orders same_status
count_orders-length g [] = refl
count_orders-length g (o ∷ os) = ground (arith, count_orders-length g os)

-- The three figures of orders add up to the number of the organization's orders.
pub summary-length :
    (g : ℕ) (db : Db)
    → (get_summary g db).pending_orders
        + (get_summary g db).fulfilled_orders
        + (get_summary g db).cancelled_orders
      ≡ length (filterb (of_organization g) db.orders)
unfolding get_summary
summary-length g db = count_orders-length g db.orders
