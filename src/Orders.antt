-- ===== src/Orders.antt =====
-- apps/api/src/orders/orders.service.ts: the read side of orders, and the state transitions that it
-- hands to ReservationsService.
pub mod Tenancy
pub mod Listing
use fulfill_os.Prelude.{
  ℕ, suc, Bool, String, Option, none, some, List, [], ◌∷◌, ◌&&◌, ◌||◌, ◌==◌, ltb, if◌then◌else◌,
  filterb, take,
}
use fulfill_os.Platform.{Platform, Env}
use fulfill_os.Common.Body.{Body}
use fulfill_os.Common.Pagination.{
  PageQuery, QueryCursor, absent, undecodable, decoded, Read, found, refused, invalid_cursor,
  order_not_found, CursorFields, CursorPage, normalize_limit, keyset_before, sort_newest, paginate,
}
use fulfill_os.Database.{Db, Product, Order, OrderItem}
use fulfill_os.Database.Enums.{OrderStatus}
use fulfill_os.Database.Tx.{Result}
use fulfill_os.Catalog.{product_of}
use fulfill_os.OrderTable.{is_order, find_order, items_of}
use fulfill_os.Reservations.Release.{release_reservation}
use fulfill_os.Reservations.Fulfill.{fulfill_order}

pub record OrderSummary : Type 0 where
  pub id : ℕ
  pub status : OrderStatus
  pub currency : String
  pub created_at : ℕ

pub record OrderItemDetail : Type 0 where
  pub product_id : ℕ
  pub sku : String
  pub name : String
  pub quantity : ℕ
  pub unit_price_cents : ℕ

pub record OrderDetail : Type 0 where
  pub id : ℕ
  pub status : OrderStatus
  pub currency : String
  pub created_at : ℕ
  pub updated_at : ℕ
  pub cancelled_at : Option ℕ
  pub fulfilled_at : Option ℕ
  pub items : List OrderItemDetail

abbrev pub order_fields : Order → CursorFields
order_fields o = record { created_at = o.created_at; id = o.id }

module _ (p : Platform) where
  abbrev pub summary_of : Order → OrderSummary
  summary_of o = record {
    id = o.id;
    status = o.status;
    currency = o.currency;
    created_at = p.to_date o.created_at;
  }

  pub summaries_of : List Order → List OrderSummary
  summaries_of [] = []
  summaries_of (o ∷ os) = summary_of o ∷ summaries_of os

  -- The rows of the statement under its clause.
  pub order_rows : (Order → Bool) → ℕ → List Order → List OrderSummary
  unfolding sort_newest summaries_of
  order_rows where_clause limit orders =
      summaries_of (take (suc limit) (sort_newest order_fields (filterb where_clause orders)))

  abbrev pub summary_fields : OrderSummary → CursorFields
  summary_fields s = record { created_at = s.created_at; id = s.id }

  pub list_orders : ℕ → PageQuery → Db → Read (CursorPage OrderSummary)
  unfolding normalize_limit paginate order_rows
  list_orders organization query db =
      let limit = normalize_limit query.limit in
      elim query.cursor [
        | undecodable ↦ refused invalid_cursor
        | absent ↦ found (
            paginate summary_fields
              (order_rows (λ o. o.organization_id == organization) limit db.orders) limit)
        | decoded c ↦ found (
            paginate summary_fields
              (order_rows
                (λ o. o.organization_id == organization && keyset_before c o.created_at o.id) limit
                db.orders)
              limit)
      ]

  -- The inner join of the lines with `products`.
  unfoldable pub details_of : List Product → List OrderItem → List OrderItemDetail
  unfolding product_of
  details_of products [] = []
  details_of products (x ∷ xs) =
      let rest = details_of products xs in
      elim (product_of x.product_id products) [
        | none ↦ rest
        | some y ↦
            record {
              product_id = x.product_id;
              sku = y.sku;
              name = y.name;
              quantity = x.quantity;
              unit_price_cents = x.unit_price_cents;
            }
            ∷ rest
      ]

  abbrev date_of : Option ℕ → Option ℕ
  date_of none = none
  date_of (some t) = some (p.to_date t)

  unfoldable pub get_order : ℕ → ℕ → Db → Read OrderDetail
  unfolding find_order items_of details_of
  get_order organization order_id db =
      elim (find_order (is_order order_id organization) db.orders) [
        | none ↦ refused order_not_found
        | some o ↦ found (record {
          id = o.id;
          status = o.status;
          currency = o.currency;
          created_at = p.to_date o.created_at;
          updated_at = p.to_date o.updated_at;
          cancelled_at = date_of o.cancelled_at;
          fulfilled_at = date_of o.fulfilled_at;
          items = details_of db.products (items_of order_id db.order_items);
        })
      ]

  -- `OrdersService.fulfillOrder` and `cancelOrder` hand their arguments on.
  abbrev pub fulfill : Env → ℕ → ℕ → ℕ → ℕ → Db → Result Body × Db
  fulfill = fulfill_order p

  abbrev pub cancel : Env → ℕ → ℕ → ℕ → ℕ → Db → Result Body × Db
  cancel = release_reservation p
