-- ===== src/Stocks.antt =====
-- The statements on the `inventory` table (apps/api/src/database/schema/inventory.schema.ts) that
-- ReservationsService and InventoryService issue, and the Map that they make of locked rows.
pub mod Lookup
pub mod Locking
pub mod Bounds
pub mod Lines
use fulfill_os.Prelude.{
  ℕ, Bool, true, false, Option, none, some, List, [], ◌∷◌, ◌&&◌, ◌||◌, ltb, leb, ◌==◌,
  if◌then◌else◌, filterb, contains,
}
use fulfill_os.Prelude.Int.{ℤ, pos, pos_part, ltb_ℤ}
use fulfill_os.Common.PostgresInt.{pg_int4_max}
use fulfill_os.Database.{Stock}
use fulfill_os.Database.Thrown.{
  check_violation, numeric_out_of_range, unique_violation, pg_failure,
  inventory_on_hand_non_negative, inventory_reserved_non_negative,
  inventory_reserved_not_exceeding_on_hand, inventory_product_id_key, inventory_pkey,
}
use fulfill_os.Database.Tx.{Result, ok, err, and_then}

-- The row of a product (`product_id` is unique) and of an id.
unfoldable pub stock_of : ℕ → List Stock → Option Stock
stock_of p [] = none
stock_of p (s ∷ t) = if s.product_id == p then some s else stock_of p t

unfoldable pub stock_by_id : ℕ → List Stock → Option Stock
stock_by_id i [] = none
stock_by_id i (s ∷ t) = if s.id == i then some s else stock_by_id i t

-- `ORDER BY product_id ASC`.
unfoldable pub insert_by_product : Stock → List Stock → List Stock
insert_by_product s [] = s ∷ []
insert_by_product s (x ∷ t) =
    if leb s.product_id x.product_id then s ∷ x ∷ t else x ∷ insert_by_product s t

unfoldable pub sort_by_product : List Stock → List Stock
unfolding insert_by_product
sort_by_product [] = []
sort_by_product (s ∷ t) = insert_by_product s (sort_by_product t)

-- `new Map(rows.map((row) => [row.productId, row]))` and its `get`: a later row replaces an
-- earlier one of the same key.
unfoldable pub locked_row : ℕ → List Stock → Option Stock
locked_row p [] = none
locked_row p (s ∷ t) = elim (locked_row p t) [
  | some x ↦ some x
  | none ↦ if s.product_id == p then some s else none
]

-- The range of the columns, and the CHECK constraints.
unfoldable pub checked_counts : ℤ → ℤ → Result (ℕ × ℕ)
unfolding pg_failure
checked_counts on_hand reserved =
    if ltb_ℤ (pos pg_int4_max) on_hand || ltb_ℤ (pos pg_int4_max) reserved
    then err (pg_failure numeric_out_of_range none)
    else if ltb_ℤ on_hand (pos 0)
    then err (pg_failure check_violation (some inventory_on_hand_non_negative))
    else if ltb_ℤ reserved (pos 0)
    then err (pg_failure check_violation (some inventory_reserved_non_negative))
    else if ltb_ℤ on_hand reserved
    then err (pg_failure check_violation (some inventory_reserved_not_exceeding_on_hand))
    else ok (pos_part on_hand, pos_part reserved)

unfoldable pub set_counts : ℕ → ℕ → ℕ → List Stock → List Stock
set_counts i on_hand reserved [] = []
set_counts i on_hand reserved (s ∷ t) =
    (if s.id == i then record s { on_hand = on_hand; reserved = reserved } else s)
    ∷ set_counts i on_hand reserved t

-- `UPDATE inventory SET … WHERE id = i`, with the new columns as functions of the row.
unfoldable pub update_stock : ℕ → (Stock → ℤ) → (Stock → ℤ) → List Stock → Result (List Stock)
unfolding stock_by_id checked_counts set_counts
update_stock i on_hand reserved t = elim (stock_by_id i t) [
  | none ↦ ok t
  | some s ↦ and_then (checked_counts (on_hand s) (reserved s)) (λ c. ok (set_counts i c.0 c.1 t))
]

-- `INSERT INTO inventory`, under the primary key, `inventory_product_id_key` and the checks.
unfoldable pub insert_stock : ℕ → ℕ → ℕ → ℤ → ℤ → List Stock → Result (List Stock)
unfolding stock_by_id stock_of checked_counts
insert_stock i organization product on_hand reserved t =
    and_then (checked_counts on_hand reserved) λ c. elim (stock_by_id i t) [
      | some _ ↦ err (pg_failure unique_violation (some inventory_pkey))
      | none ↦ elim (stock_of product t) [
        | some _ ↦ err (pg_failure unique_violation (some inventory_product_id_key))
        | none ↦ ok (
            record {
              id = i;
              organization_id = organization;
              product_id = product;
              on_hand = c.0;
              reserved = c.1;
            }
            ∷ t)
      ]
    ]

-- `SELECT … WHERE organization_id = o AND product_id IN ids ORDER BY product_id FOR UPDATE`: the
-- clause, and the statement under any clause.
abbrev pub in_scope : ℕ → List ℕ → Stock → Bool
in_scope organization ids s = s.organization_id == organization && contains s.product_id ids

unfoldable pub lock_rows : (Stock → Bool) → List Stock → List Stock
unfolding sort_by_product
lock_rows where_clause t = sort_by_product (filterb where_clause t)

-- `for (const item of items) { const row = lockedByProductId.get(item.productId); … }`: each round
-- is given the row as it was locked, and changes the table.
unfoldable pub for_lines :
    {A : Type 0} (product : A → ℕ)
    → (A → Option Stock → List Stock → Result (List Stock))
    → List A
    → List Stock
    → List Stock
    → Result (List Stock)
for_lines product body [] locked table = ok table
for_lines product body (i ∷ is) locked table =
    and_then (body i (locked_row (product i) locked) table) (for_lines product body is locked)
