-- ===== src/Consistency/History.antt =====
-- A history of requests to the services of apps/api/src/products, apps/api/src/inventory and
-- apps/api/src/reservations, from the empty database.
use fulfill_os.Prelude.{
  ℕ, ◌≤◌, ◌+◌, ◌≡◌, refl, String, Option, none, List, ◌∷◌, inl, inr, Option-cases, arith,
}
use fulfill_os.Prelude.Int.{pos_part}
use fulfill_os.Platform.{Platform, Env}
use fulfill_os.Common.PostgresInt.{pg_int4_max}
use fulfill_os.Database.{Db, empty_db}
use fulfill_os.Catalog.{product_of}
use fulfill_os.Stocks.{stock_of, stock_by_id}
use fulfill_os.Stocks.Bounds.{stock_of-IsSound}
use fulfill_os.OrderTable.{order_by_id}
use fulfill_os.Products.{CreateProduct, or_zero, create_product}
use fulfill_os.Products.Create.{create_product_total}
use fulfill_os.Inventory.{AdjustInventory, adjust_stock}
use fulfill_os.Reservations.Held.{held}
use fulfill_os.Reservations.Create.{ReservationItem, create_reservation}
use fulfill_os.Reservations.Create.Lines.{Quantified}
use fulfill_os.Reservations.Create.Fits.{ReadsBack}
use fulfill_os.Reservations.Release.{release_reservation}
use fulfill_os.Reservations.Fulfill.{fulfill_order}
use fulfill_os.Reservations.Backed.{reserved_of, on_hand_of}
use fulfill_os.Ledger.{put_in, taken_out, on_hand_delta, reserved_delta}
use fulfill_os.Consistency.{IsConsistent}
use fulfill_os.Consistency.Kept.{
  release_reservation-IsConsistent, fulfill_order-IsConsistent, adjust_stock-IsConsistent,
  create_reservation-IsConsistent,
}

-- A request of a caller whom the guards have let through: its organization, its user, its body and
-- its idempotency key. A reservation has at least one line.
pub data Request : Type 0 where
  new_product_request : ℕ → CreateProduct → Request
  adjustment_request : ℕ → AdjustInventory → ℕ → Request
  reservation_request : ℕ → ℕ → ReservationItem → List ReservationItem → Option String → ℕ → Request
  release_request fulfillment_request : ℕ → ℕ → ℕ → ℕ → Request

-- The database that a request leaves.
abbrev pub served : Platform → Env → Request → Db → Db
served p env (new_product_request g dto) db = (create_product p env g dto db).1
served p env (adjustment_request g dto key) db = (adjust_stock p env g dto key db).1
served p env (reservation_request g user i is currency key) db =
    (create_reservation p env g user (record { items = i ∷ is; currency = currency }) key db).1
served p env (release_request g user i key) db = (release_reservation p env g user i key db).1
served p env (fulfillment_request g user i key) db = (fulfill_order p env g user i key db).1

-- What the validation of the bodies has checked of a request, and that generated uuids are fresh.
abbrev pub IsAdmissible : Env → Request → Db → Type 0
IsAdmissible env (new_product_request g dto) db =
    (product_of env.new_id db.products ≡ none)
    × (stock_by_id env.new_inventory_id db.inventory ≡ none)
    × (dto.unit_price_cents ≤ pg_int4_max)
    × (or_zero dto.initial_on_hand ≤ pg_int4_max)
IsAdmissible env (adjustment_request g dto key) db =
    (stock_by_id env.new_inventory_id db.inventory ≡ none) × (pos_part dto.delta ≤ pg_int4_max)
IsAdmissible env (reservation_request g user i is currency key) db =
    (order_by_id env.new_id db.orders ≡ none) × Quantified (i ∷ is)
IsAdmissible env (release_request g user i key) db = Unit
IsAdmissible env (fulfillment_request g user i key) db = Unit

pub data Reaches (p : Platform) : Db → Db → Type 0 where
  stays : {db : Db} → Reaches p db db
  serves :
      {first db : Db} (env : Env) (r : Request)
      → Reaches p first db
      → IsAdmissible env r db
      → Reaches p first (served p env r db)

pub empty-IsConsistent : IsConsistent empty_db
unfolding product_of stock_of
empty-IsConsistent = record {
  backed = record {
    keyed = tt;
    bounded = tt;
    orders_keyed = tt;
    owned = tt;
    stocked = tt;
    distinct = λ i q. omega arith;
    backed = λ q. refl;
  };
  catalogued = record { products_keyed = tt; of_product = λ q s row. cc };
  skus = tt;
  explained = record { on_hand = λ q. refl; reserved = λ q. refl };
}

pub served-IsConsistent :
    (p : Platform) (env : Env) (r : Request) (db : Db)
    → ReadsBack p
    → IsConsistent db
    → IsAdmissible env r db
    → IsConsistent (served p env r db)
served-IsConsistent p env (new_product_request g dto) db reads c (fresh, unused, price, range) =
    let (answer, db', ran, c', _) =
      create_product_total p env g dto db c fresh unused price range in
    rw (ran, served) c'
served-IsConsistent p env (adjustment_request g dto key) db reads c (fresh, range) =
    adjust_stock-IsConsistent db c p env g dto key fresh range
served-IsConsistent p env (reservation_request g user i is currency key) db reads c (fresh, q) =
    create_reservation-IsConsistent db c p env g user i is currency key reads fresh q
served-IsConsistent p env (release_request g user i key) db reads c _ =
    release_reservation-IsConsistent db c p env g user i key
served-IsConsistent p env (fulfillment_request g user i key) db reads c _ =
    fulfill_order-IsConsistent db c p env g user i key

-- Every history of admissible requests, in any order and of any callers and keys, keeps a consistent
-- database consistent, where the reading of uuids reads its own output back.
pub Reaches-IsConsistent :
    (p : Platform) (first db : Db)
    → ReadsBack p
    → IsConsistent first
    → Reaches p first db
    → IsConsistent db
Reaches-IsConsistent p first db reads c stays = c
Reaches-IsConsistent p first _ reads c (serves {db} env r before fits) =
    served-IsConsistent p env r db reads (Reaches-IsConsistent p first db reads c before) fits

-- From the empty database no history of admissible requests oversells: of every product, the
-- reserved count is what the pending orders hold, is no more than the on-hand count, which is in
-- the range of its column; and each count is what the movements have put in, less what they took.
pub Reaches-bounds :
    (p : Platform) (db : Db)
    → ReadsBack p
    → Reaches p empty_db db
    → (q : ℕ)
    → (reserved_of (stock_of q db.inventory) ≡ held db.orders q db.order_items)
      × (reserved_of (stock_of q db.inventory) ≤ on_hand_of (stock_of q db.inventory))
      × (on_hand_of (stock_of q db.inventory) ≤ pg_int4_max)
      × (on_hand_of (stock_of q db.inventory) + taken_out on_hand_delta q db.movements
          ≡ put_in on_hand_delta q db.movements)
      × (reserved_of (stock_of q db.inventory) + taken_out reserved_delta q db.movements
          ≡ put_in reserved_delta q db.movements)
Reaches-bounds p db reads history q =
    let c = Reaches-IsConsistent p empty_db db reads empty-IsConsistent history in
    let sound : (reserved_of (stock_of q db.inventory) ≤ on_hand_of (stock_of q db.inventory))
        × (on_hand_of (stock_of q db.inventory) ≤ pg_int4_max) =
      elim (Option-cases (stock_of q db.inventory)) [
        | inl free ↦ rw free (omega arith, omega arith)
        | inr (s, found) ↦ rw found (stock_of-IsSound q db.inventory s c.backed.bounded found)
      ] in
    (c.backed.backed q, sound.0, sound.1, c.explained.on_hand q, c.explained.reserved q)
