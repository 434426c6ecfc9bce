-- ===== src/Inventory/Branches.antt =====
-- The two branches of `applyAdjustment` of apps/api/src/inventory/inventory.service.ts.
use fulfill_os.Prelude.{
  ℕ, ◌≤◌, ◌≡◌, refl, Bool, true, false, not, ◌&&◌, none, some, ◌∷◌, arith, ◌==◌, if◌then◌else◌, inl,
  inr, Bool-cases,
}
use fulfill_os.Prelude.Int.{ℤ, pos, pos_part, ltb_ℤ, ◌+ℤ◌}
use fulfill_os.Platform.{Platform, Env}
use fulfill_os.Common.PostgresInt.{pg_int4_max}
use fulfill_os.Common.Body.{
  Message, rejection, negative_on_hand, below_reserved, stock_overflow, no_inventory_record,
}
use fulfill_os.Common.Outcome.{OperationOutcome}
use fulfill_os.Database.{Db, Product, Stock}
use fulfill_os.Database.Tx.{ok}
use fulfill_os.Catalog.{product_of, IsCatalogued}
use fulfill_os.Stocks.{stock_of, stock_by_id, set_counts}
use fulfill_os.Stocks.Lookup.{
  IsKeyed, with_counts, stock_of-set_counts, set_counts-IsKeyed, stock_by_id-stock_of,
}
use fulfill_os.Stocks.Bounds.{set_counts-IsBounded, update_stock-ok}
use fulfill_os.Reservations.Backed.{TablesBacked, IsBacked}
use fulfill_os.Inventory.{
  AdjustInventory, first_stock, change_stock, returned, adjusted, adjustment, finish,
}
use fulfill_os.Inventory.Lookup.{
  stock_by_id-set_counts, insert_stock-ok, TablesBacked-same_reserved,
}

-- The counts that an adjustment may leave: between what is reserved and the column's maximum.
abbrev pub fits : ℕ → ℤ → Bool
fits reserved n = not (ltb_ℤ n (pos reserved)) && not (ltb_ℤ (pos pg_int4_max) n)

abbrev pub rejected : ℕ → Message → OperationOutcome
rejected status m = record { accepted = false; status = status; body = rejection m }

pub fits-pos :
    (reserved : ℕ) (n : ℤ)
    → fits reserved n ≡ true
    → (n ≡ pos (pos_part n)) × (reserved ≤ pos_part n) × (pos_part n ≤ pg_int4_max)
fits-pos reserved n h = ground arith

abbrev pub new_row : Platform → Env → ℕ → AdjustInventory → ℕ → Stock
new_row p env g dto n = record {
  id = env.new_inventory_id;
  organization_id = g;
  product_id = p.parse_uuid dto.product_id;
  on_hand = n;
  reserved = 0;
}

module _ (p : Platform) (env : Env) (g : ℕ) (dto : AdjustInventory) (x : Product) where
  -- The branch with a row.
  pub change_stock-ok :
      (db : Db) (s : Stock) (n : ℕ)
      → IsKeyed db.inventory
      → stock_of (p.parse_uuid dto.product_id) db.inventory ≡ some s
      → pos s.on_hand +ℤ dto.delta ≡ pos n
      → s.reserved ≤ n
      → n ≤ pg_int4_max
      → change_stock p env g dto x s db
        ≡ ok (
          adjusted p env g dto x (with_counts n s.reserved s),
          record db {
            inventory = set_counts s.id n s.reserved db.inventory;
            movements = adjustment p env g dto ∷ db.movements;
          },
        )
  unfolding change_stock finish
  change_stock-ok db s n k h sum low high =
      let in_table = stock_by_id-stock_of (p.parse_uuid dto.product_id) db.inventory s k h in
      let sign : ltb_ℤ (pos n) (pos 0) ≡ false = ground arith in
      let above : ltb_ℤ (pos n) (pos s.reserved) ≡ false = ground arith in
      let below : ltb_ℤ (pos pg_int4_max) (pos n) ≡ false = ground arith in
      rw (sum, change_stock)
        (rw (sign, above, below)
          (rw
            (update_stock-ok (p.parse_uuid dto.product_id) n s.reserved db.inventory s (λ _. pos n)
              (λ r. pos r.reserved) k h refl refl low high)
            (rw (stock_by_id-set_counts s.id n s.reserved db.inventory s in_table, returned) refl)))

  pub change_stock-refused :
      (db : Db) (s : Stock)
      → fits s.reserved (pos s.on_hand +ℤ dto.delta) ≡ false
      → (o : OperationOutcome) × (change_stock p env g dto x s db ≡ ok (o, db))
        × (o.accepted ≡ false)
        × (400 ≤ o.status)
  unfolding change_stock
  change_stock-refused db s h =
      let n = pos s.on_hand +ℤ dto.delta in
      elim (Bool-cases (ltb_ℤ n (pos 0))) [
        | inl negative ↦ (
          rejected 409 (negative_on_hand s.on_hand dto.delta),
          rw (negative, change_stock) refl,
          refl,
          omega arith,
        )
        | inr sound ↦ elim (Bool-cases (ltb_ℤ n (pos s.reserved))) [
          | inl low ↦ (
            rejected 409 (below_reserved s.on_hand s.reserved dto.delta),
            rw (sound, low, change_stock) refl,
            refl,
            omega arith,
          )
          | inr enough ↦
              let high : ltb_ℤ (pos pg_int4_max) n ≡ true = ground (arith, h, enough) in
              (
                rejected 422 stock_overflow,
                rw (sound, enough, high, change_stock) refl,
                refl,
                omega arith,
              )
        ]
      ]

  -- The branch with no row.
  pub first_stock-ok :
      (db : Db) (n : ℕ)
      → stock_of (p.parse_uuid dto.product_id) db.inventory ≡ none
      → stock_by_id env.new_inventory_id db.inventory ≡ none
      → dto.delta ≡ pos n
      → n ≤ pg_int4_max
      → first_stock p env g dto x db
        ≡ ok (
          adjusted p env g dto x (new_row p env g dto n),
          record db {
            inventory = new_row p env g dto n ∷ db.inventory;
            movements = adjustment p env g dto ∷ db.movements;
          },
        )
  unfolding first_stock finish stock_by_id
  first_stock-ok db n free fresh d high =
      let itself : (env.new_inventory_id == env.new_inventory_id) ≡ true = ground arith in
      let sign : ltb_ℤ (pos n) (pos 0) ≡ false = ground arith in
      rw (d, first_stock)
        (rw
          (
            sign,
            insert_stock-ok env.new_inventory_id g (p.parse_uuid dto.product_id) n db.inventory high
                fresh free,
          )
          (rw (itself, returned) refl))

  pub first_stock-refused :
      (db : Db)
      → ltb_ℤ dto.delta (pos 0) ≡ true
      → first_stock p env g dto x db ≡ ok (rejected 409 no_inventory_record, db)
  unfolding first_stock
  first_stock-refused db h = rw (h, first_stock) refl

-- The tables that the two branches write.
module _ (i : ℕ) (db : Db) (w : IsBacked db) (c : IsCatalogued db.products db.inventory) where
  -- The same row with another count.
  pub set_counts-backed :
      (s : Stock) (n : ℕ)
      → stock_of i db.inventory ≡ some s
      → s.reserved ≤ n
      → n ≤ pg_int4_max
      → TablesBacked (set_counts s.id n s.reserved db.inventory) db.orders db.order_items
        × IsCatalogued db.products (set_counts s.id n s.reserved db.inventory)
  set_counts-backed s n h low high =
      let at = λ (q : ℕ). stock_of-set_counts i q n s.reserved db.inventory s w.keyed h in
      (
        TablesBacked-same_reserved db.inventory (set_counts s.id n s.reserved db.inventory)
            db.orders db.order_items w (set_counts-IsKeyed s.id n s.reserved db.inventory w.keyed)
            (set_counts-IsBounded s.id n s.reserved db.inventory low high w.bounded)
            (λ q. ground (arith, at q, h))
            (λ q r found. (
              if i == q then with_counts n s.reserved s else r,
              ground (arith, at q, found, h),
              ground (arith, found, h),
            )),
        record {
          products_keyed = c.products_keyed;
          of_product = λ q r found.
              let (x, known, mine) = c.of_product i s h in
              elim (Bool-cases (i == q)) [
                | inl same ↦
                    (x, ground (arith, known, same), ground (arith, at q, found, mine, same))
                | inr other ↦ c.of_product q r (ground (arith, at q, found, other))
              ];
        },
      )

  -- A row more.
  pub insert-backed :
      (row : Stock) (x : Product)
      → stock_of row.product_id db.inventory ≡ none
      → stock_by_id row.id db.inventory ≡ none
      → row.reserved ≡ 0
      → row.on_hand ≤ pg_int4_max
      → product_of row.product_id db.products ≡ some x
      → x.organization_id ≡ row.organization_id
      → TablesBacked (row ∷ db.inventory) db.orders db.order_items
        × IsCatalogued db.products (row ∷ db.inventory)
  unfolding stock_of
  insert-backed row x free fresh empty high known mine = (
    TablesBacked-same_reserved db.inventory (row ∷ db.inventory) db.orders db.order_items w
        (fresh, free, w.keyed) ((omega arith, high), w.bounded) (λ q. ground (arith, free, empty))
        (λ q r found. (r, ground (arith, free, found), refl)),
    record {
      products_keyed = c.products_keyed;
      of_product = λ q r found. elim (Bool-cases (row.product_id == q)) [
        | inl same ↦ (x, ground (arith, known, same), ground (arith, found, mine, same))
        | inr other ↦ c.of_product q r (ground (arith, found, other))
      ];
    },
  )
