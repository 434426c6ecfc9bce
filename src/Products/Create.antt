-- ===== src/Products/Create.antt =====
-- `createProduct` of apps/api/src/products/products.service.ts: a product is never left without its
-- stock row, and the read finds what the creation answered.
use fulfill_os.Prelude.{
  sym, ◌∙◌, ℕ, ◌≤◌, ◌≡◌, refl, ◌≢◌, true, false, none, some, List, [], ◌∷◌, ◌++◌, arith, ◌==◌, ltb,
  inl, inr, ◌⊎◌, Bool-cases, Option-cases, ==_iff, if◌then◌else◌,
}
use fulfill_os.Platform.{Platform, Env}
use fulfill_os.Common.Body.{rejection, sku_taken}
use fulfill_os.Common.Pagination.{found}
use fulfill_os.Common.PgError.{pg_error_code, is_unique_violation}
use fulfill_os.Common.PostgresInt.{pg_int4_max}
use fulfill_os.Database.{Db, Product, Stock, Movement}
use fulfill_os.Database.Thrown.{
  http_exception, unique_violation, products_org_sku_normalized_key, pg_failure,
}
use fulfill_os.Database.Tx.{Result, ok, err, transaction-ok, transaction-err}
use fulfill_os.Catalog.{product_of, find_product, find_sku, IsCatalogued}
use fulfill_os.Stocks.{stock_of, stock_by_id}
use fulfill_os.Inventory.Lookup.{insert_stock-ok}
use fulfill_os.Inventory.Branches.{insert-backed}
use fulfill_os.Ledger.{IsExplained-append, put_in, taken_out, on_hand_delta, reserved_delta}
use fulfill_os.Consistency.{IsConsistent}
use fulfill_os.Products.{
  ProductDetail, CreateProduct, or_zero, insert_product, new_product, initial_movement, new_detail,
  write_product, create_product, get_product,
}

-- A fresh product keeps the owners of the rows.
insert_product-IsCatalogued :
    (x : Product) (products : List Product) (inventory : List Stock)
    → product_of x.id products ≡ none
    → IsCatalogued products inventory
    → IsCatalogued (x ∷ products) inventory
unfolding product_of
insert_product-IsCatalogued x products inventory fresh c = record {
  products_keyed = (fresh, c.products_keyed);
  of_product = λ q s row.
      let (y, known, mine) = c.of_product q s row in (y, ground (arith, known, fresh), mine);
}

-- A product that is not in the catalogue has no row.
pub no_row :
    (i : ℕ) (products : List Product) (inventory : List Stock)
    → product_of i products ≡ none
    → IsCatalogued products inventory
    → stock_of i inventory ≡ none
no_row i products inventory fresh c = elim (Option-cases (stock_of i inventory)) [
  | inl free ↦ free
  | inr (s, row) ↦ let (y, known, _) = c.of_product i s row in cc
]

module _ (p : Platform) (env : Env) (g : ℕ) (dto : CreateProduct) where
  abbrev pub first_row : Stock
  first_row = record {
    id = env.new_inventory_id;
    organization_id = g;
    product_id = env.new_id;
    on_hand = or_zero dto.initial_on_hand;
    reserved = 0;
  }

  -- The movements of the creation: none for an empty row.
  abbrev pub first_movements : List Movement
  first_movements =
      if ltb 0 (or_zero dto.initial_on_hand) then initial_movement p env g dto ∷ [] else []

  abbrev pub with_product : Db → Db
  with_product db = record db {
    products = new_product p env g dto ∷ db.products;
    inventory = first_row ∷ db.inventory;
    movements = first_movements ++ db.movements;
  }

  -- What a creation has done, by its answer.
  abbrev pub Created : Db → Result ProductDetail → Db → Type 0
  Created db answer db' =
      ((find_sku g (p.lower_btrim dto.sku) db.products ≡ none)
        × (answer ≡ ok (new_detail p env g dto))
        × (db' ≡ with_product db))
      ⊎ ((find_sku g (p.lower_btrim dto.sku) db.products ≢ none)
          × (answer ≡ err (http_exception 409 (rejection sku_taken)))
          × (db' ≡ db))

  module _ (db : Db) (price : dto.unit_price_cents ≤ pg_int4_max) where
    write_product-ok :
        product_of env.new_id db.products ≡ none
        → find_sku g (p.lower_btrim dto.sku) db.products ≡ none
        → stock_of env.new_id db.inventory ≡ none
        → stock_by_id env.new_inventory_id db.inventory ≡ none
        → or_zero dto.initial_on_hand ≤ pg_int4_max
        → write_product p env g dto db ≡ ok (new_detail p env g dto, with_product db)
    unfolding write_product insert_product
    write_product-ok fresh untaken free unused range =
        let cheap : ltb pg_int4_max dto.unit_price_cents ≡ false = ground arith in
        rw (cheap, write_product)
          (rw fresh (
            rw untaken (
              rw
                (insert_stock-ok env.new_inventory_id g env.new_id (or_zero dto.initial_on_hand)
                  db.inventory range unused free)
                (elim (Bool-cases (ltb 0 (or_zero dto.initial_on_hand))) [
                  | inl some_stock ↦ rw some_stock refl
                  | inr empty ↦ rw empty refl
                ]))))

    write_product-taken :
        (other : Product)
        → product_of env.new_id db.products ≡ none
        → find_sku g (p.lower_btrim dto.sku) db.products ≡ some other
        → write_product p env g dto db
          ≡ err (pg_failure unique_violation (some products_org_sku_normalized_key))
    unfolding write_product insert_product
    write_product-taken other fresh taken =
        let cheap : ltb pg_int4_max dto.unit_price_cents ≡ false = ground arith in
        rw (cheap, write_product) (rw fresh (rw taken refl))

    create_product-ok :
        (detail : ProductDetail) (db' : Db)
        → write_product p env g dto db ≡ ok (detail, db')
        → create_product p env g dto db ≡ (ok detail, db')
    unfolding create_product
    create_product-ok detail db' ran =
        rw (transaction-ok (write_product p env g dto) db db' detail ran, create_product) refl

    create_product-refused :
        write_product p env g dto db
          ≡ err (pg_failure unique_violation (some products_org_sku_normalized_key))
        → create_product p env g dto db ≡ (err (http_exception 409 (rejection sku_taken)), db)
    unfolding create_product pg_error_code is_unique_violation pg_failure
    create_product-refused threw =
        rw (transaction-err (write_product p env g dto) db _ threw, create_product) refl

  first_movements_delta :
      (q : ℕ)
      → (put_in on_hand_delta q first_movements
          ≡ (if env.new_id == q then or_zero dto.initial_on_hand else 0))
        × (taken_out on_hand_delta q first_movements ≡ 0)
        × (put_in reserved_delta q first_movements ≡ 0)
        × (taken_out reserved_delta q first_movements ≡ 0)
  first_movements_delta q = elim (Bool-cases (ltb 0 (or_zero dto.initial_on_hand))) [
    | inl stocked ↦ rw stocked (ground arith)
    | inr empty ↦ rw empty (ground (arith, empty))
  ]

  with_product-IsConsistent :
      (db : Db)
      → IsConsistent db
      → product_of env.new_id db.products ≡ none
      → find_sku g (p.lower_btrim dto.sku) db.products ≡ none
      → stock_by_id env.new_inventory_id db.inventory ≡ none
      → or_zero dto.initial_on_hand ≤ pg_int4_max
      → IsConsistent (with_product db)
  unfolding product_of stock_of
  with_product-IsConsistent db c fresh untaken unused range =
      let x = new_product p env g dto in
      let free = no_row env.new_id db.products db.inventory fresh c.catalogued in
      let itself : (env.new_id == env.new_id) ≡ true = ground arith in
      let (backed, catalogued) =
        insert-backed env.new_id (record db { products = x ∷ db.products }) c.backed
          (insert_product-IsCatalogued x db.products db.inventory fresh c.catalogued) first_row x
          free unused refl range (rw itself refl) refl in
      record {
        backed = backed;
        catalogued = catalogued;
        skus = (untaken, c.skus);
        explained =
            IsExplained-append db.inventory (first_row ∷ db.inventory) first_movements db.movements
              (first_movements ++ db.movements) c.explained refl
              (λ q.
                let (added, a, b, d) = first_movements_delta q in
                rw (added, a, b, d)
                  (elim (Bool-cases (env.new_id == q)) [
                    | inl same ↦ rw same (ground (arith, free, same, ==_iff env.new_id q))
                    | inr other ↦ rw other (omega arith, omega arith)
                  ]));
      }

  -- On a consistent database, with fresh ids for the product and its row, and a price and an initial
  -- count in the range of their columns, a creation never throws another error than its 409: where
  -- the organization has no product of the normalized SKU it adds the product, its stock row and the
  -- movement that explains it, and else it answers 409 and changes nothing. The database that it
  -- leaves is consistent.
  pub create_product_total :
      (db : Db)
      → IsConsistent db
      → product_of env.new_id db.products ≡ none
      → stock_by_id env.new_inventory_id db.inventory ≡ none
      → dto.unit_price_cents ≤ pg_int4_max
      → or_zero dto.initial_on_hand ≤ pg_int4_max
      → (answer : Result ProductDetail) × (db' : Db) × (create_product p env g dto db
          ≡ (answer, db'))
        × IsConsistent db'
        × Created db answer db'
  create_product_total db c fresh unused price range =
      elim (Option-cases (find_sku g (p.lower_btrim dto.sku) db.products)) [
        | inl untaken ↦
            let free = no_row env.new_id db.products db.inventory fresh c.catalogued in
            (
              ok (new_detail p env g dto),
              with_product db,
              create_product-ok db price (new_detail p env g dto) (with_product db)
                  (write_product-ok db price fresh untaken free unused range),
              with_product-IsConsistent db c fresh untaken unused range,
              inl (untaken, refl, refl),
            )
        | inr (other, taken) ↦ (
          err (http_exception 409 (rejection sku_taken)),
          db,
          create_product-refused db price (write_product-taken db price other fresh taken),
          c,
          inr (cc, refl, refl),
        )
      ]

  pub Created-eq :
      (db : Db) (r r' : Result ProductDetail × Db)
      → r ≡ r'
      → Created db r.0 r.1
      → Created db r'.0 r'.1
  Created-eq db r r' e did = rw (← e) did

  -- What an answer with a product has done.
  Created-get_product :
      (db db' : Db) (detail : ProductDetail)
      → Created db (ok detail) db'
      → (detail.id ≡ env.new_id) × (get_product p g env.new_id db' ≡ found detail)
  unfolding get_product find_product stock_of
  Created-get_product db db' detail (inl (_, answered, stored)) =
      let itself : (env.new_id == env.new_id) ≡ true = ground arith in
      let mine : (g == g) ≡ true = ground arith in
      (ground (arith, answered), rw (stored, get_product) (rw (itself, mine) (cc answered)))
  Created-get_product db db' detail (inr (_, answered, _)) = cc answered

  -- On a consistent database, with fresh ids for the product and its row, and a price and an initial
  -- count in the range of their columns: where create_product answers with a product, that product
  -- has the fresh id, and a read of it from the database that create_product leaves finds what was
  -- answered.
  pub get_product-create_product :
      (db db' : Db) (detail : ProductDetail)
      → IsConsistent db
      → product_of env.new_id db.products ≡ none
      → stock_by_id env.new_inventory_id db.inventory ≡ none
      → dto.unit_price_cents ≤ pg_int4_max
      → or_zero dto.initial_on_hand ≤ pg_int4_max
      → create_product p env g dto db ≡ (ok detail, db')
      → (detail.id ≡ env.new_id) × (get_product p g env.new_id db' ≡ found detail)
  get_product-create_product db db' detail c fresh unused price range ran =
      let (answer, db1, ran1, _, did) = create_product_total db c fresh unused price range in
      Created-get_product db db' detail
        (Created-eq db (answer, db1) (ok detail, db') (sym ran1 ∙ ran) did)
