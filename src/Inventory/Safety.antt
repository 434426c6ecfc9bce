-- ===== src/Inventory/Safety.antt =====
-- `applyAdjustment` of apps/api/src/inventory/inventory.service.ts on every branch.
use fulfill_os.Prelude.{
  ◌∷◌, ◌==◌, ℕ, ◌≤◌, ◌≡◌, ◌≢◌, refl, ◌∙◌, sym, true, false, none, some, arith, inl, inr, ◌⊎◌,
  Bool-cases, Option-cases,
}
use fulfill_os.Prelude.Int.{pos, sub_ℕ, pos_part, ltb_ℤ, ◌+ℤ◌, +ℤ_zero_left}
use fulfill_os.Platform.{Platform, Env}
use fulfill_os.Common.PostgresInt.{pg_int4_max}
use fulfill_os.Common.Body.{line, rejection, product_not_found, no_inventory_record}
use fulfill_os.Common.Outcome.{OperationOutcome}
use fulfill_os.Database.{Db, Product, Stock}
use fulfill_os.Database.Tx.{ok}
use fulfill_os.Catalog.{find_product, IsCatalogued, product_of-find_product}
use fulfill_os.Stocks.{stock_of, stock_by_id, set_counts}
use fulfill_os.Stocks.Lookup.{with_counts, stock_of-set_counts}
use fulfill_os.Reservations.Backed.{IsBacked, reserved_of, on_hand_of}
use fulfill_os.Inventory.{
  AdjustInventory, find_stock, first_stock, change_stock, adjust_row, apply_adjustment, adjusted,
  adjustment,
}
use fulfill_os.Inventory.Lookup.{find_stock-some, find_stock-none}
use fulfill_os.Inventory.Branches.{
  fits, fits-pos, rejected, new_row, change_stock-ok, change_stock-refused, first_stock-ok,
  first_stock-refused, set_counts-backed, insert-backed,
}

-- What an adjustment has done, by its answer: it is refused only where the product is unknown, with
-- 404, or the new count does not fit.
abbrev pub Adjusted : Platform → Env → ℕ → AdjustInventory → Db → OperationOutcome → Db → Type 0
Adjusted p env g dto db o db' =
    let i = p.parse_uuid dto.product_id in
    let delta = dto.delta in
    let old = stock_of i db.inventory in
    ((o.accepted ≡ true)
      × ((o.status ≡ 200)
          × ((x : Product) × (find_product i g db.products ≡ some x)
              × (o.body
                  ≡ line (record {
                    product_id = dto.product_id;
                    sku = x.sku;
                    name = x.name;
                    on_hand = on_hand_of (stock_of i db'.inventory);
                    reserved = reserved_of (stock_of i db'.inventory);
                    available =
                        sub_ℕ (on_hand_of (stock_of i db'.inventory))
                          (reserved_of (stock_of i db'.inventory));
                  }))))
      × (pos (on_hand_of (stock_of i db'.inventory)) ≡ pos (on_hand_of old) +ℤ delta)
      × ((q : ℕ) → reserved_of (stock_of q db'.inventory) ≡ reserved_of (stock_of q db.inventory))
      × ((q : ℕ) → q ≢ i → stock_of q db'.inventory ≡ stock_of q db.inventory)
      × (db'.movements ≡ adjustment p env g dto ∷ db.movements))
    ⊎ ((o.accepted ≡ false)
        × (400 ≤ o.status)
        × (db' ≡ db)
        × (((find_product i g db.products ≡ none)
              × (o.status ≡ 404)
              × (o.body ≡ rejection product_not_found))
            ⊎ (fits (reserved_of old) (pos (on_hand_of old) +ℤ delta) ≡ false)))

module _ (p : Platform) (env : Env) (g : ℕ) (dto : AdjustInventory) (db : Db) where
  -- The ways that the work goes on from its product and its row.
  pub unknown_product :
      find_product (p.parse_uuid dto.product_id) g db.products ≡ none
      → apply_adjustment p env g dto db ≡ ok (rejected 404 product_not_found, db)
  unfolding apply_adjustment
  unknown_product h = rw (h, apply_adjustment) refl

  pub with_row :
      (x : Product) (s : Stock)
      → find_product (p.parse_uuid dto.product_id) g db.products ≡ some x
      → find_stock (p.parse_uuid dto.product_id) g db.inventory ≡ some s
      → apply_adjustment p env g dto db ≡ change_stock p env g dto x s db
  unfolding apply_adjustment adjust_row
  with_row x s h f = rw (h, apply_adjustment) (rw (f, adjust_row) refl)

  pub with_no_row :
      (x : Product)
      → find_product (p.parse_uuid dto.product_id) g db.products ≡ some x
      → find_stock (p.parse_uuid dto.product_id) g db.inventory ≡ none
      → apply_adjustment p env g dto db ≡ first_stock p env g dto x db
  unfolding apply_adjustment adjust_row
  with_no_row x h f = rw (h, apply_adjustment) (rw (f, adjust_row) refl)

  -- What an adjustment promises of its database.
  abbrev Promise : Type 0
  Promise =
      (o : OperationOutcome) × (db' : Db) × (apply_adjustment p env g dto db ≡ ok (o, db'))
      × IsBacked db'
      × IsCatalogued db'.products db'.inventory
      × Adjusted p env g dto db o db'

  module _ (w : IsBacked db) (c : IsCatalogued db.products db.inventory) (x : Product)
      (known : find_product (p.parse_uuid dto.product_id) g db.products ≡ some x) where
    total-some :
        (s : Stock) → stock_of (p.parse_uuid dto.product_id) db.inventory ≡ some s → Promise
    unfolding adjusted
    total-some s h =
        let i = p.parse_uuid dto.product_id in
        let sum = pos s.on_hand +ℤ dto.delta in
        let (y, its, mine) = c.of_product i s h in
        let (at, org) = product_of-find_product i g db.products x c.products_keyed known in
        let runs =
          with_row x s known
            (find_stock-some i g db.inventory s h (ground (arith, its, mine, at, org))) in
        elim (Bool-cases (fits s.reserved sum)) [
          | inr outside ↦
              let (o, ran, refused, high) = change_stock-refused p env g dto x db s outside in
              (o, db, runs ∙ ran, w, c, inr (refused, high, refl, inr (rw h outside)))
          | inl inside ↦
              let (exact, low, high) = fits-pos s.reserved sum inside in
              let n = pos_part sum in
              let (w', c') = set_counts-backed i db w c s n h low high in
              let changed =
                λ (q : ℕ). stock_of-set_counts i q n s.reserved db.inventory s w.keyed h in
              let here : stock_of i (set_counts s.id n s.reserved db.inventory)
                  ≡ some (with_counts n s.reserved s) =
                ground (arith, changed i) in
              (
                adjusted p env g dto x (with_counts n s.reserved s),
                _,
                runs ∙ change_stock-ok p env g dto x db s n w.keyed h exact low high,
                w',
                c',
                inl (
                  refl,
                  (refl, (x, known, rw here refl)),
                  rw (here, h) (sym exact),
                  (λ q. ground (arith, changed q, h)),
                  (λ q other. ground (arith, changed q, other)),
                  refl,
                ),
              )
        ]

    total-none :
        stock_of (p.parse_uuid dto.product_id) db.inventory ≡ none
        → stock_by_id env.new_inventory_id db.inventory ≡ none
        → pos_part dto.delta ≤ pg_int4_max
        → Promise
    unfolding adjusted stock_of
    total-none h fresh high =
        let i = p.parse_uuid dto.product_id in
        let n = pos_part dto.delta in
        let (at, org) = product_of-find_product i g db.products x c.products_keyed known in
        let runs = with_no_row x known (find_stock-none i g db.inventory h) in
        elim (Bool-cases (ltb_ℤ dto.delta (pos 0))) [
          | inl negative ↦ (
            rejected 409 no_inventory_record,
            db,
            runs ∙ first_stock-refused p env g dto x db negative,
            w,
            c,
            inr (
              refl,
              omega arith,
              refl,
              inr (rw (h, +ℤ_zero_left dto.delta) (ground (arith, negative))),
            ),
          )
          | inr natural ↦
              let itself : (i == i) ≡ true = ground arith in
              let exact : dto.delta ≡ pos n = ground (arith, natural) in
              let (w', c') =
                insert-backed i db w c (new_row p env g dto n) x h fresh refl high at org in
              (
                adjusted p env g dto x (new_row p env g dto n),
                _,
                runs ∙ first_stock-ok p env g dto x db n h fresh exact high,
                w',
                c',
                inl (
                  refl,
                  (refl, (x, known, rw itself refl)),
                  rw (h, +ℤ_zero_left dto.delta) (ground (arith, exact)),
                  (λ q. ground (arith, h)),
                  (λ q other. ground (arith, other)),
                  refl,
                ),
              )
        ]

  -- On a database that keeps its invariants, an adjustment within the range of its column, with a
  -- fresh id for a new row, never throws: it moves the on-hand count by its delta and no other
  -- count, or refuses and changes nothing, and keeps the invariants.
  pub apply_adjustment_total :
      IsBacked db
      → IsCatalogued db.products db.inventory
      → stock_by_id env.new_inventory_id db.inventory ≡ none
      → pos_part dto.delta ≤ pg_int4_max
      → (o : OperationOutcome) × (db' : Db) × (apply_adjustment p env g dto db ≡ ok (o, db'))
        × IsBacked db'
        × IsCatalogued db'.products db'.inventory
        × Adjusted p env g dto db o db'
  apply_adjustment_total w c fresh high =
      let i = p.parse_uuid dto.product_id in
      elim (Option-cases (find_product i g db.products)) [
        | inl unknown ↦ (
          rejected 404 product_not_found,
          db,
          unknown_product unknown,
          w,
          c,
          inr (refl, omega arith, refl, inl (unknown, refl, refl)),
        )
        | inr (x, known) ↦ elim (Option-cases (stock_of i db.inventory)) [
          | inl free ↦ total-none w c x known free fresh high
          | inr (s, found) ↦ total-some w c x known s found
        ]
      ]
