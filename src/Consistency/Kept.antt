-- ===== src/Consistency/Kept.antt =====
-- The guarded operations of apps/api/src/reservations/reservations.service.ts and apps/api/src/
-- inventory/inventory.service.ts keep the database consistent, whatever their key and answer are.
use fulfill_os.Prelude.{
  ℕ, ◌≤◌, ◌≡◌, refl, String, Option, none, some, List, ◌∷◌, arith, inl, inr, Option-cases,
}
use fulfill_os.Prelude.Int.{pos_part}
use fulfill_os.Platform.{Platform, Env}
use fulfill_os.Common.PostgresInt.{pg_int4_max}
use fulfill_os.Common.Body.{Body}
use fulfill_os.Database.Tx.{Result}
use fulfill_os.Idempotency.{IdempotencyRequest}
use fulfill_os.Common.Outcome.{OperationOutcome}
use fulfill_os.Database.{Db, Product, Stock}
use fulfill_os.Catalog.{IsCatalogued}
use fulfill_os.Stocks.{stock_of, stock_by_id}
use fulfill_os.OrderTable.{order_by_id}
use fulfill_os.Reservations.Create.{ReservationItem, create_reservation}
use fulfill_os.Reservations.Create.Lines.{Quantified}
use fulfill_os.Reservations.Create.Fits.{ReadsBack}
use fulfill_os.Reservations.Create.Safety.{Reserved}
use fulfill_os.Reservations.Release.{release_reservation, release_line}
use fulfill_os.Reservations.Release.Safety.{Released, kept_on_hand}
use fulfill_os.Reservations.Fulfill.{fulfill_order, fulfill_line}
use fulfill_os.Reservations.Fulfill.Safety.{Fulfilled, less_on_hand}
use fulfill_os.Inventory.{AdjustInventory, adjust_stock}
use fulfill_os.Ledger.Writes.{
  Reserved-IsExplained, Released-IsExplained, Fulfilled-IsExplained, Adjusted-IsExplained,
}
use fulfill_os.Reservations.Create.Commit.{raised, requested}
use fulfill_os.Reservations.Held.{line_quantity}
use fulfill_os.Reservations.Closing.Lines.{taken, lines_of}
use fulfill_os.Reservations.Backed.{IsBacked}
use fulfill_os.Inventory.Safety.{Adjusted}
use fulfill_os.Ledger.{IsExplained}
use fulfill_os.Consistency.{IsConsistent}
use fulfill_os.Consistency.Served.{
  Serves, release_reservation-Serves, fulfill_order-Serves, adjust_stock-Serves,
  create_reservation-Serves,
}

-- Rows that change, each within its product and organization, stay the rows of their products.
IsCatalogued-moved :
    (products products' : List Product) (t t' : List Stock)
    → (change : ℕ → Option Stock → Option Stock) → ((q : ℕ) → change q none ≡ none)
    → ((q : ℕ) (s : Stock)
        → (s' : Stock) × (change q (some s) ≡ some s') × (s'.organization_id ≡ s.organization_id))
    → ((q : ℕ) → stock_of q t' ≡ change q (stock_of q t))
    → products' ≡ products
    → IsCatalogued products t
    → IsCatalogued products' t'
IsCatalogued-moved products products' t t' change empty owner at same c = rw same (record {
  products_keyed = c.products_keyed;
  of_product = λ q s' row. elim (Option-cases (stock_of q t)) [
    | inl free ↦ cc (at q, free, row, empty q)
    | inr (s, found) ↦
        let (x, known, mine) = c.of_product q s found in
        let (s1, moved, org) = owner q s in
        (x, known, ground (arith, mine, org, at q, found, moved, row))
  ];
})

module _ (p : Platform) (env : Env) (g user : ℕ) (db db' : Db) (o : OperationOutcome)
    (c : IsConsistent db) (same : db'.products ≡ db.products) where
  Released-IsCatalogued :
      (i : ℕ) → Released p env g user i db o db' → IsCatalogued db'.products db'.inventory
  Released-IsCatalogued i (inr (_, _, all_same, _)) = rw all_same c.catalogued
  Released-IsCatalogued i (inl (_, _, _, at, _)) =
      IsCatalogued-moved db.products db'.products db.inventory db'.inventory
        (λ q. taken release_line kept_on_hand (line_quantity q (lines_of i db))) (λ q. refl)
        (λ q s. (_, refl, refl)) at same c.catalogued

  Fulfilled-IsCatalogued :
      (i : ℕ) → Fulfilled p env g user i db o db' → IsCatalogued db'.products db'.inventory
  Fulfilled-IsCatalogued i (inr (_, _, all_same, _)) = rw all_same c.catalogued
  Fulfilled-IsCatalogued i (inl (_, _, _, at, _)) =
      IsCatalogued-moved db.products db'.products db.inventory db'.inventory
        (λ q. taken fulfill_line less_on_hand (line_quantity q (lines_of i db))) (λ q. refl)
        (λ q s. (_, refl, refl)) at same c.catalogued

  Reserved-IsCatalogued :
      (items : List ReservationItem)
      → Reserved p env g user items db o db'
      → IsCatalogued db'.products db'.inventory
  Reserved-IsCatalogued items (inr (_, _, all_same)) = rw all_same c.catalogued
  Reserved-IsCatalogued items (inl (_, _, at, _, _, _, _)) =
      IsCatalogued-moved db.products db'.products db.inventory db'.inventory
        (λ q. raised (requested q items)) (λ q. refl) (λ q s. (_, refl, refl)) at same c.catalogued

module _ (db : Db) (c : IsConsistent db) where
  -- Work that keeps the owners of the rows and the ledger keeps the database consistent.
  Serves-IsConsistent :
      (Did : Db → OperationOutcome → Db → Type 0) (request : IdempotencyRequest)
      (r : Result Body × Db)
      → ((new : Db) (o : OperationOutcome)
          → new.products ≡ db.products
          → Did db o new
          → IsCatalogued new.products new.inventory)
      → ((new : Db) (o : OperationOutcome)
          → IsBacked new
          → Did db o new
          → IsExplained new.inventory new.movements)
      → Serves Did request db r
      → IsConsistent r.1
  Serves-IsConsistent Did request r catalogue ledger (inl (unchanged, _)) = rw unchanged c
  Serves-IsConsistent Did request r catalogue ledger (inr (o, _, w, same, did)) =
      let new = record r.1 { idempotency_keys = db.idempotency_keys } in
      record {
        backed = w;
        catalogued = catalogue new o same did;
        skus = rw same c.skus;
        explained = ledger new o w did;
      }

  module _ (p : Platform) (env : Env) (g user i key : ℕ) where
    pub release_reservation-IsConsistent :
        IsConsistent (release_reservation p env g user i key db).1
    release_reservation-IsConsistent =
        Serves-IsConsistent (Released p env g user i) _ _
          (λ new o same. Released-IsCatalogued p env g user db new o c same i)
          (λ new o w did. Released-IsExplained p env g user db new o c.backed i did c.explained)
          (release_reservation-Serves p env g user i key db c.backed)

    pub fulfill_order-IsConsistent : IsConsistent (fulfill_order p env g user i key db).1
    fulfill_order-IsConsistent =
        Serves-IsConsistent (Fulfilled p env g user i) _ _
          (λ new o same. Fulfilled-IsCatalogued p env g user db new o c same i)
          (λ new o w did. Fulfilled-IsExplained p env g user db new o c.backed i did c.explained)
          (fulfill_order-Serves p env g user i key db c.backed)

  pub adjust_stock-IsConsistent :
      (p : Platform) (env : Env) (g : ℕ) (dto : AdjustInventory) (key : ℕ)
      → stock_by_id env.new_inventory_id db.inventory ≡ none
      → pos_part dto.delta ≤ pg_int4_max
      → IsConsistent (adjust_stock p env g dto key db).1
  adjust_stock-IsConsistent p env g dto key fresh range =
      Serves-IsConsistent
        (λ old o new. IsCatalogued new.products new.inventory × Adjusted p env g dto old o new) _ _
        (λ new o same did. did.0)
        (λ new o w did. Adjusted-IsExplained p env g dto db new o did.1 c.explained)
        (adjust_stock-Serves p env g dto key db c.backed c.catalogued fresh range)

  pub create_reservation-IsConsistent :
      (p : Platform) (env : Env) (g user : ℕ) (i : ReservationItem) (is : List ReservationItem)
      (currency : Option String) (key : ℕ)
      → ReadsBack p
      → order_by_id env.new_id db.orders ≡ none
      → Quantified (i ∷ is)
      → IsConsistent
          (create_reservation p env g user
            (record { items = i ∷ is; currency = currency })
            key
            db).1
  create_reservation-IsConsistent p env g user i is currency key reads fresh q =
      Serves-IsConsistent (Reserved p env g user (i ∷ is)) _ _
        (λ new o same. Reserved-IsCatalogued p env g user db new o c same (i ∷ is))
        (λ new o w did. Reserved-IsExplained p env g user db new o (i ∷ is) w did c.explained)
        (create_reservation-Serves p env g user i is currency key db reads c.backed fresh q)
