-- ===== src/Inventory/Lookup.antt =====
-- The statements of apps/api/src/inventory/inventory.service.ts on `inventory`: the row that an
-- adjustment finds, and the tables that it leaves.
use fulfill_os.Prelude.{ℕ, ◌≤◌, ◌≡◌, refl, ◌∙◌, none, some, List, [], ◌∷◌, arith, All-map}
use fulfill_os.Prelude.Int.{pos}
use fulfill_os.Common.PostgresInt.{pg_int4_max}
use fulfill_os.Database.{Stock, Order, OrderItem}
use fulfill_os.Database.Tx.{ok}
use fulfill_os.Stocks.{stock_of, stock_by_id, set_counts, insert_stock}
use fulfill_os.Stocks.Lookup.{IsKeyed, with_counts, checked_counts-ok}
use fulfill_os.Stocks.Bounds.{IsBounded}
use fulfill_os.Reservations.Backed.{TablesBacked, HasStock, reserved_of}
use fulfill_os.Inventory.{find_stock}

-- The row of a product of the organization is found under both conditions.
pub find_stock-some :
    (i g : ℕ) (t : List Stock) (s : Stock)
    → stock_of i t ≡ some s
    → s.organization_id ≡ g
    → find_stock i g t ≡ some s
unfolding find_stock stock_of
find_stock-some i g [] s h mine = cc
find_stock-some i g (x ∷ t) s h mine = ground (arith, find_stock-some i g t s)

pub find_stock-none : (i g : ℕ) (t : List Stock) → stock_of i t ≡ none → find_stock i g t ≡ none
unfolding find_stock stock_of
find_stock-none i g [] h = refl
find_stock-none i g (x ∷ t) h = ground (arith, find_stock-none i g t)

pub stock_by_id-set_counts :
    (i a b : ℕ) (t : List Stock) (s : Stock)
    → stock_by_id i t ≡ some s
    → stock_by_id i (set_counts i a b t) ≡ some (with_counts a b s)
unfolding stock_by_id set_counts
stock_by_id-set_counts i a b [] s h = cc
stock_by_id-set_counts i a b (x ∷ t) s h = ground (arith, stock_by_id-set_counts i a b t s)

-- A fresh row within the constraints is inserted.
pub insert_stock-ok :
    (i g product n : ℕ) (t : List Stock)
    → n ≤ pg_int4_max
    → stock_by_id i t ≡ none
    → stock_of product t ≡ none
    → insert_stock i g product (pos n) (pos 0) t
      ≡ ok (
          record { id = i; organization_id = g; product_id = product; on_hand = n; reserved = 0 }
          ∷ t)
unfolding insert_stock
insert_stock-ok i g product n t m fresh free =
    rw (checked_counts-ok n 0 (omega arith) m) (rw (fresh, insert_stock) (rw free refl))

-- A table that keeps every reserved count, and the organization of every row, keeps the invariant.
pub TablesBacked-same_reserved :
    (t t' : List Stock) (orders : List Order) (items : List OrderItem)
    → TablesBacked t orders items
    → IsKeyed t'
    → IsBounded t'
    → ((q : ℕ) → reserved_of (stock_of q t') ≡ reserved_of (stock_of q t))
    → ((q : ℕ) (s : Stock)
        → stock_of q t ≡ some s
        → (s' : Stock) × (stock_of q t' ≡ some s') × (s'.organization_id ≡ s.organization_id))
    → TablesBacked t' orders items
TablesBacked-same_reserved t t' orders items w k b same rows = record {
  keyed = k;
  bounded = b;
  orders_keyed = w.orders_keyed;
  owned = w.owned;
  stocked =
      All-map (HasStock t) (HasStock t') items
        (λ x (s, found, its).
          let (s', found', org) = rows x.product_id s found in (s', found', org ∙ its))
        w.stocked;
  distinct = w.distinct;
  backed = λ q. same q ∙ w.backed q;
}
