-- ===== src/Inventory.antt =====
-- apps/api/src/inventory/inventory.service.ts: on-hand adjustments and the stock listing.
pub mod Lookup
pub mod Branches
pub mod Safety
pub mod Once
use fulfill_os.Prelude.{
  ℕ, String, true, false, Option, none, some, List, [], ◌∷◌, ◌==◌, ◌&&◌, if◌then◌else◌,
}
use fulfill_os.Prelude.Int.{ℤ, pos, ◌+ℤ◌, sub_ℕ, ltb_ℤ}
use fulfill_os.Platform.{Platform, Env}
use fulfill_os.Common.PostgresInt.{pg_int4_max}
use fulfill_os.Common.CanonicalJson.{number, text, object, end, field, canonical_fingerprint, units}
use fulfill_os.Common.Body.{
  Body, InventoryLine, line, Message, rejection, product_not_found, no_inventory_record,
  negative_on_hand, below_reserved, stock_overflow,
}
use fulfill_os.Common.Outcome.{OperationOutcome}
use fulfill_os.Database.{Db, Product, Stock, Movement}
use fulfill_os.Database.Enums.{on_hand_adjustment, inventory_adjust}
use fulfill_os.Database.Thrown.{undefined_row}
use fulfill_os.Database.Tx.{Result, ok, err, Tx, ◌>>=◌, ◌>>◌, pure}
use fulfill_os.Idempotency.{IdempotencyRequest, guarded}
use fulfill_os.Catalog.{product_of, find_product}
use fulfill_os.Stocks.{stock_by_id, update_stock, insert_stock}
use fulfill_os.OrderTable.{on_inventory, insert_movements}

-- The body of apps/api/src/inventory/dto/adjust-inventory.dto.ts.
pub record AdjustInventory : Type 0 where
  pub product_id : ℕ
  pub delta : ℤ
  pub reason : String

-- `SELECT … WHERE product_id = i AND organization_id = g FOR UPDATE`, the first row.
pub find_stock : ℕ → ℕ → List Stock → Option Stock
find_stock i g [] = none
find_stock i g (s ∷ t) =
    if s.product_id == i && s.organization_id == g then some s else find_stock i g t

abbrev pub refuse : ℕ → Message → Tx Db OperationOutcome
refuse status m = pure (record { accepted = false; status = status; body = rejection m })

-- The row that an INSERT or UPDATE of id `i` returns.
abbrev pub returned : ℕ → Tx Db Stock
returned i db = elim (stock_by_id i db.inventory) [ none ↦ err undefined_row | some s ↦ ok (s, db) ]

module _ (p : Platform) (env : Env) (organization : ℕ) (dto : AdjustInventory) where
  unfoldable pub adjustment : Movement
  adjustment = record {
    organization_id = organization;
    product_id = p.parse_uuid dto.product_id;
    movement_type = on_hand_adjustment;
    on_hand_delta = dto.delta;
    reserved_delta = pos 0;
    reason = dto.reason;
    reference = none;
  }

  pub adjusted : Product → Stock → OperationOutcome
  adjusted product row = record {
    accepted = true;
    status = 200;
    body = line (record {
      product_id = dto.product_id;
      sku = product.sku;
      name = product.name;
      on_hand = row.on_hand;
      reserved = row.reserved;
      available = sub_ℕ row.on_hand row.reserved;
    });
  }

  -- The movement and the answer, once the row is written.
  pub finish : Product → Stock → Tx Db OperationOutcome
  unfolding adjustment adjusted
  finish product row = do insert_movements (adjustment ∷ []); pure (adjusted product row)

  -- The branch with no inventory row.
  pub first_stock : Product → Tx Db OperationOutcome
  unfolding finish
  first_stock product = if ltb_ℤ dto.delta (pos 0) then refuse 409 no_inventory_record else do
    on_inventory (
        insert_stock env.new_inventory_id organization (p.parse_uuid dto.product_id) dto.delta
          (pos 0))
    row ← returned env.new_inventory_id
    finish product row

  -- The branch with a row.
  pub change_stock : Product → Stock → Tx Db OperationOutcome
  unfolding finish
  change_stock product row =
      let new_on_hand = pos row.on_hand +ℤ dto.delta in
      if ltb_ℤ new_on_hand (pos 0)
      then refuse 409 (negative_on_hand row.on_hand dto.delta)
      else if ltb_ℤ new_on_hand (pos row.reserved)
      then refuse 409 (below_reserved row.on_hand row.reserved dto.delta)
      else if ltb_ℤ (pos pg_int4_max) new_on_hand
      then refuse 422 stock_overflow
      else do
        on_inventory (update_stock row.id (λ _. new_on_hand) (λ s. pos s.reserved))
        row' ← returned row.id
        finish product row'

  pub adjust_row : Product → Tx Db OperationOutcome
  unfolding find_stock first_stock change_stock
  adjust_row product db =
      elim (find_stock (p.parse_uuid dto.product_id) organization db.inventory) [
        | none ↦ first_stock product db
        | some row ↦ change_stock product row db
      ]

  pub apply_adjustment : Tx Db OperationOutcome
  unfolding adjust_row
  apply_adjustment db = elim (find_product (p.parse_uuid dto.product_id) organization db.products) [
    | none ↦ refuse 404 product_not_found db
    | some product ↦ adjust_row product db
  ]

pub adjust_request : Platform → ℕ → AdjustInventory → ℕ → IdempotencyRequest
adjust_request p organization dto idempotency_key = record {
  organization_id = organization;
  operation = inventory_adjust;
  idempotency_key = idempotency_key;
  request_fingerprint = canonical_fingerprint p (
      object (
        field (units "productId") (text (p.text_units dto.product_id)) (
          field (units "delta") (number dto.delta)
            (field (units "reason") (text (units dto.reason)) end))));
}

unfoldable pub adjust_stock : Platform → Env → ℕ → AdjustInventory → ℕ → Db → Result Body × Db
unfolding adjust_request apply_adjustment
adjust_stock p env organization dto idempotency_key =
    guarded (adjust_request p organization dto idempotency_key)
      (apply_adjustment p env organization dto)

-- `listInventory`: the join with `products`, and `available` computed anew for each row. Its order
-- by sku is left to the database.
pub inventory_line : List Product → Stock → Option InventoryLine
inventory_line products s = elim (product_of s.product_id products) [
  | none ↦ none
  | some x ↦ some (record {
    product_id = s.product_id;
    sku = x.sku;
    name = x.name;
    on_hand = s.on_hand;
    reserved = s.reserved;
    available = sub_ℕ s.on_hand s.reserved;
  })
]

pub lines_from : ℕ → List Product → List Stock → List InventoryLine
unfolding inventory_line
lines_from organization products [] = []
lines_from organization products (s ∷ t) =
    let rest = lines_from organization products t in
    if s.organization_id == organization
    then elim (inventory_line products s) [ none ↦ rest | some l ↦ l ∷ rest ]
    else rest

unfoldable pub list_inventory : ℕ → Db → List InventoryLine
unfolding lines_from
list_inventory organization db = lines_from organization db.products db.inventory
