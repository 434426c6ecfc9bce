-- ===== src/Products.antt =====
-- apps/api/src/products/products.service.ts: a product is created together with its stock row, and
-- listed and read.
pub mod Create
use fulfill_os.Prelude.{
  ℕ, suc, ◌+◌, Bool, true, false, String, Option, none, some, List, [], ◌∷◌, ◌&&◌, ◌==◌, ltb,
  if◌then◌else◌, filterb, take, same_text,
}
use fulfill_os.Prelude.Int.{ℤ, pos, sub_ℕ}
use fulfill_os.Platform.{Platform, Env}
use fulfill_os.Common.Body.{rejection, sku_taken, product_not_found}
use fulfill_os.Common.PgError.{pg_error_code, is_unique_violation}
use fulfill_os.Common.PostgresInt.{pg_int4_max}
use fulfill_os.Common.Pagination.{
  PageQuery, QueryCursor, absent, undecodable, decoded, Read, found, refused, invalid_cursor,
  product_missing, CursorFields, CursorPage, normalize_limit, keyset_before, sort_newest, paginate,
}
use fulfill_os.Database.{Db, Product, Stock, Movement}
use fulfill_os.Database.Enums.{ProductStatus, active, on_hand_adjustment}
use fulfill_os.Database.Thrown.{
  Thrown, unique_violation, numeric_out_of_range, pg_failure, products_pkey,
  products_org_sku_normalized_key, http_exception,
}
use fulfill_os.Database.Tx.{Result, ok, err, and_then, Tx, ◌>>=◌, ◌>>◌, pure, transaction}
use fulfill_os.Catalog.{product_of, find_product, find_sku}
use fulfill_os.Reservations.Backed.{on_hand_of, reserved_of}
use fulfill_os.Stocks.{stock_of, insert_stock}
use fulfill_os.OrderTable.{on_inventory, insert_movements}

pub record ProductSummary : Type 0 where
  pub id : ℕ
  pub sku : String
  pub name : String
  pub unit_price_cents : ℕ
  pub status : ProductStatus
  pub created_at : ℕ

pub record ProductDetail : Type 0 where
  pub id : ℕ
  pub sku : String
  pub name : String
  pub description : Option String
  pub unit_price_cents : ℕ
  pub status : ProductStatus
  pub created_at : ℕ
  pub on_hand : ℕ
  pub reserved : ℕ
  pub available : ℤ

-- The body of apps/api/src/products/dto/create-product.dto.ts.
pub record CreateProduct : Type 0 where
  pub sku : String
  pub name : String
  pub description : Option String
  pub unit_price_cents : ℕ
  pub initial_on_hand : Option ℕ

abbrev pub or_zero : Option ℕ → ℕ
or_zero none = 0
or_zero (some n) = n

-- `INSERT INTO products`, under the column's range, the primary key and the SKU's unique index.
unfoldable pub insert_product : Product → List Product → Result (List Product)
unfolding pg_failure product_of find_sku
insert_product x products =
    if ltb pg_int4_max x.unit_price_cents
    then err (pg_failure numeric_out_of_range none)
    else elim (product_of x.id products) [
      | some _ ↦ err (pg_failure unique_violation (some products_pkey))
      | none ↦ elim (find_sku x.organization_id x.sku_normalized products) [
        | some _ ↦ err (pg_failure unique_violation (some products_org_sku_normalized_key))
        | none ↦ ok (x ∷ products)
      ]
    ]

abbrev pub on_products : (List Product → Result (List Product)) → Tx Db (Unit {0})
on_products f db = and_then (f db.products) (λ t. ok (tt, record db { products = t }))

-- The `catch` of `createProduct`.
abbrev pub sku_error : Thrown → Thrown
sku_error e =
    if is_unique_violation (pg_error_code e) then http_exception 409 (rejection sku_taken) else e

abbrev pub caught : {A : Type 0} → Result A → Result A
caught (ok a) = ok a
caught (err e) = err (sku_error e)

module _ (p : Platform) (env : Env) (organization : ℕ) (dto : CreateProduct) where
  -- The row, with its generated columns and defaults.
  abbrev pub new_product : Product
  new_product = record {
    id = env.new_id;
    organization_id = organization;
    sku = dto.sku;
    sku_normalized = p.lower_btrim dto.sku;
    name = dto.name;
    description = dto.description;
    unit_price_cents = dto.unit_price_cents;
    status = active;
    created_at = env.now;
  }

  abbrev pub initial_movement : Movement
  initial_movement = record {
    organization_id = organization;
    product_id = env.new_id;
    movement_type = on_hand_adjustment;
    on_hand_delta = pos (or_zero dto.initial_on_hand);
    reserved_delta = pos 0;
    reason = "Initial stock at product creation";
    reference = none;
  }

  abbrev pub new_detail : ProductDetail
  new_detail = record {
    id = new_product.id;
    sku = new_product.sku;
    name = new_product.name;
    description = new_product.description;
    unit_price_cents = new_product.unit_price_cents;
    status = new_product.status;
    created_at = p.to_date new_product.created_at;
    on_hand = or_zero dto.initial_on_hand;
    reserved = 0;
    available = sub_ℕ (or_zero dto.initial_on_hand) 0;
  }

  unfoldable pub write_product : Tx Db ProductDetail
  unfolding insert_product
  write_product = do
    on_products (insert_product new_product)
    on_inventory (
        insert_stock env.new_inventory_id organization env.new_id
          (pos (or_zero dto.initial_on_hand)) (pos 0))
    if ltb 0 (or_zero dto.initial_on_hand)
        then insert_movements (initial_movement ∷ [])
        else pure tt
    pure new_detail

  unfoldable pub create_product : Db → Result ProductDetail × Db
  create_product db = let (result, db') = transaction write_product db in (caught result, db')

module _ (p : Platform) where
  abbrev pub product_fields : Product → CursorFields
  product_fields x = record { created_at = x.created_at; id = x.id }

  abbrev pub product_summary : Product → ProductSummary
  product_summary x = record {
    id = x.id;
    sku = x.sku;
    name = x.name;
    unit_price_cents = x.unit_price_cents;
    status = x.status;
    created_at = p.to_date x.created_at;
  }

  pub product_summaries : List Product → List ProductSummary
  product_summaries [] = []
  product_summaries (x ∷ xs) = product_summary x ∷ product_summaries xs

  pub product_rows : (Product → Bool) → ℕ → List Product → List ProductSummary
  unfolding sort_newest product_summaries
  product_rows where_clause limit products =
      product_summaries
        (take (suc limit) (sort_newest product_fields (filterb where_clause products)))

  abbrev pub product_cursor : ProductSummary → CursorFields
  product_cursor s = record { created_at = s.created_at; id = s.id }

  unfoldable pub list_products : ℕ → PageQuery → Db → Read (CursorPage ProductSummary)
  unfolding normalize_limit paginate product_rows
  list_products organization query db =
      let limit = normalize_limit query.limit in
      elim query.cursor [
        | undecodable ↦ refused invalid_cursor
        | absent ↦ found (
            paginate product_cursor
              (product_rows (λ x. x.organization_id == organization) limit db.products) limit)
        | decoded c ↦ found (
            paginate product_cursor
              (product_rows
                (λ x. x.organization_id == organization && keyset_before c x.created_at x.id) limit
                db.products)
              limit)
      ]

  -- The outer join: a product without a stock row counts nothing.
  pub get_product : ℕ → ℕ → Db → Read ProductDetail
  unfolding find_product stock_of
  get_product organization i db = elim (find_product i organization db.products) [
    | none ↦ refused product_missing
    | some x ↦
        let on_hand = on_hand_of (stock_of x.id db.inventory) in
        let reserved = reserved_of (stock_of x.id db.inventory) in
        found (record {
          id = x.id;
          sku = x.sku;
          name = x.name;
          description = x.description;
          unit_price_cents = x.unit_price_cents;
          status = x.status;
          created_at = p.to_date x.created_at;
          on_hand = on_hand;
          reserved = reserved;
          available = sub_ℕ on_hand reserved;
        })
  ]
