-- ===== src/Inventory/Once.antt =====
-- `adjustStock` of apps/api/src/inventory/inventory.service.ts on a free key: it does its work once,
-- and every repetition gets the answer of the first.
use fulfill_os.Prelude.{
  ℕ, ◌≤◌, ◌≡◌, ap, ◌∙◌, sym, Bool, true, false, none, arith, inl, inr, if◌then◌else◌, Option-cases,
}
use fulfill_os.Prelude.Int.{pos_part}
use fulfill_os.Platform.{Platform, Env}
use fulfill_os.Common.PostgresInt.{pg_int4_max}
use fulfill_os.Common.Outcome.{OperationOutcome, unwrap_outcome}
use fulfill_os.Database.{Db, Product, Stock}
use fulfill_os.Database.Tx.{Tx}
use fulfill_os.Database.Tx.Keeps.{Keeps}
use fulfill_os.Catalog.{find_product, IsCatalogued}
use fulfill_os.Stocks.{stock_by_id}
use fulfill_os.OrderTable.Keys.{kept, keys_rules}
use fulfill_os.Idempotency.{IdempotencyRequest, find_key}
use fulfill_os.Idempotency.Keys.{claimed_db}
use fulfill_os.Idempotency.Replay.{completed_db, guarded_once, IsReplayable}
use fulfill_os.Reservations.Backed.{IsBacked}
use fulfill_os.Inventory.{
  AdjustInventory, find_stock, first_stock, change_stock, returned, finish, apply_adjustment,
  adjust_request, adjust_stock,
}
use fulfill_os.Inventory.Safety.{
  Adjusted, apply_adjustment_total, unknown_product, with_row, with_no_row,
}

Keeps-if :
    {A : Type 0} (b : Bool) (m n : Tx Db A)
    → Keeps kept m
    → Keeps kept n
    → Keeps kept (if b then m else n)
Keeps-if true m n km kn = km
Keeps-if false m n km kn = kn

Keeps-returned : (i : ℕ) → Keeps kept (returned i)
Keeps-returned i = record { at = λ s s' a h. ground (arith, h) }

ruleset adjust_rules = (keys_rules, Keeps-if, Keeps-returned)

module _ (p : Platform) (env : Env) (g : ℕ) (dto : AdjustInventory) where
  Keeps-finish : (x : Product) (s : Stock) → Keeps kept (finish p env g dto x s)
  unfolding finish
  Keeps-finish x s = search adjust_rules depth 8

  Keeps-first_stock : (x : Product) → Keeps kept (first_stock p env g dto x)
  unfolding first_stock
  Keeps-first_stock x = search (adjust_rules, Keeps-finish) depth 12

  Keeps-change_stock : (x : Product) (s : Stock) → Keeps kept (change_stock p env g dto x s)
  unfolding change_stock
  Keeps-change_stock x s = search (adjust_rules, Keeps-finish) depth 12

  Keeps-apply_adjustment : Keeps kept (apply_adjustment p env g dto)
  Keeps-apply_adjustment = record {
    at = λ db db' o h.
        let i = p.parse_uuid dto.product_id in
        elim (Option-cases (find_product i g db.products)) [
          | inl unknown ↦ cc (unknown_product p env g dto db unknown)
          | inr (x, known) ↦ elim (Option-cases (find_stock i g db.inventory)) [
            | inl free ↦
                (Keeps-first_stock x).at db db' o
                  (sym (with_no_row p env g dto db x known free) ∙ h)
            | inr (s, found) ↦
                (Keeps-change_stock x s).at db db' o
                  (sym (with_row p env g dto db x s known found) ∙ h)
          ]
        ];
  }

Adjusted-IsReplayable :
    (p : Platform) (env : Env) (g : ℕ) (dto : AdjustInventory) (db db' : Db) (o : OperationOutcome)
    → Adjusted p env g dto db o db'
    → IsReplayable o
Adjusted-IsReplayable p env g dto db db' o (inl (accepted, (status, _), _, _, _, _)) =
    ground (arith, accepted, status)
Adjusted-IsReplayable p env g dto db db' o (inr (rejected, status, _, _)) =
    ground (arith, rejected, status)

Adjusted-without_claim :
    (p : Platform) (env : Env) (g : ℕ) (dto : AdjustInventory) (r : IdempotencyRequest)
    (db db1 : Db) (o : OperationOutcome)
    → Adjusted p env g dto (claimed_db r db) o db1
    → Adjusted p env g dto db o (record db1 { idempotency_keys = db.idempotency_keys })
Adjusted-without_claim p env g dto r db db1 o (inl did) = inl did
Adjusted-without_claim p env g dto r db db1 o (inr (rejected, status, same, why)) = inr (
  rejected,
  status,
  ap {A = Db} (λ d. record d { idempotency_keys = db.idempotency_keys }) same,
  why,
)

module _ (p : Platform) (env : Env) (g : ℕ) (dto : AdjustInventory) (key : ℕ) where
  -- On a database that keeps its invariants, an adjustment within the range of its column, under a
  -- free key and with a fresh id for a new row, does what `Adjusted` says of its answer `o` (the key
  -- rows aside): an accepted one moved the count by the delta and holds the product's line as it now
  -- is, a refusal of status 400 or above changed nothing. It keeps the invariants and the products.
  -- And a repetition of the request, on any database in which the key's row is as it left it, gives
  -- `o` again and changes nothing.
  pub adjust_stock_once :
      (db : Db)
      → IsBacked db
      → IsCatalogued db.products db.inventory
      → stock_by_id env.new_inventory_id db.inventory ≡ none
      → pos_part dto.delta ≤ pg_int4_max
      → find_key (adjust_request p g dto key) db.idempotency_keys ≡ none
      → (o : OperationOutcome) × (db' : Db) × (adjust_stock p env g dto key db
          ≡ (unwrap_outcome o, db'))
        × IsBacked db'
        × (db'.products ≡ db.products)
        × IsCatalogued db'.products db'.inventory
        × Adjusted p env g dto db o (record db' { idempotency_keys = db.idempotency_keys })
        × ((later : Env) (afterwards : Db)
            → find_key (adjust_request p g dto key) afterwards.idempotency_keys
              ≡ find_key (adjust_request p g dto key) db'.idempotency_keys
            → adjust_stock p later g dto key afterwards ≡ (unwrap_outcome o, afterwards))
  unfolding adjust_stock
  adjust_stock_once db w c fresh high free =
      let r = adjust_request p g dto key in
      let i = p.parse_uuid dto.product_id in
      let work = apply_adjustment p env g dto in
      let (o, db1, ran, w1, c1, did) =
        apply_adjustment_total p env g dto (claimed_db r db) w c fresh high in
      let (first, again) =
        guarded_once r work
          (λ s s' a h. ap (λ k. k.1) ((Keeps-apply_adjustment p env g dto).at s s' a h)) db db1 o
          free (Adjusted-IsReplayable p env g dto (claimed_db r db) db1 o did) ran in
      (
        o,
        completed_db r o db db1,
        first,
        w1,
        ap (λ k. k.0) ((Keeps-apply_adjustment p env g dto).at (claimed_db r db) db1 o ran),
        c1,
        Adjusted-without_claim p env g dto r db db1 o did,
        λ later. again (apply_adjustment p later g dto),
      )
