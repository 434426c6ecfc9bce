-- ===== src/Reservations/Create.antt =====
-- `ReservationsService.createReservation` and `reserveStock` of
-- apps/api/src/reservations/reservations.service.ts, with the request of
-- reservations/dto/create-reservation.dto.ts.
pub mod Answers
pub mod Lines
pub mod Fits
pub mod Commit
pub mod Safety
use fulfill_os.Prelude.{
  ℕ, suc, ◌+◌, Bool, true, false, not, String, Option, none, some, List, [], ◌∷◌, ◌&&◌, ◌==◌,
  if◌then◌else◌, length, contains,
}
use fulfill_os.Prelude.Int.{ℤ, pos, sub_ℕ, ltb_ℤ}
use fulfill_os.Platform.{Platform, Env}
use fulfill_os.Common.CanonicalJson.{
  Json, number, text, array, object, Items, nil, cons, Fields, end, field, canonical_fingerprint,
  units,
}
use fulfill_os.Common.Body.{
  Body, ReservationItemResult, reservation, Shortfall, rejection, insufficient_stock,
  duplicate_product_lines, unknown_products,
}
use fulfill_os.Common.Outcome.{OperationOutcome}
use fulfill_os.Database.{Db, Product, Stock, Order, OrderItem, Movement, AuditEntry}
use fulfill_os.Database.Enums.{pending, MovementType, reservation_create}
use fulfill_os.Database.Thrown.{undefined_row, http_exception}
use fulfill_os.Database.Tx.{Result, ok, err, Tx, ◌>>=◌, ◌>>◌, pure, gets}
use fulfill_os.Idempotency.{IdempotencyRequest, guarded}
use fulfill_os.Catalog.{product_of}
use fulfill_os.Stocks.{in_scope, lock_rows, locked_row, update_stock, for_lines}
use fulfill_os.OrderTable.{
  insert_order, insert_items, on_inventory, on_orders, on_items, insert_movements, insert_audit,
}

-- A product id as the client wrote it, and the quantity.
pub record ReservationItem : Type 0 where
  pub product_id : ℕ
  pub quantity : ℕ

pub record CreateReservation : Type 0 where
  pub items : List ReservationItem
  pub currency : Option String

abbrev pub product_ids : List ReservationItem → List ℕ
product_ids [] = []
product_ids (i ∷ is) = i.product_id ∷ product_ids is

-- `new Set(ids).size`
unfoldable pub set_size : List ℕ → ℕ
set_size [] = 0
set_size (x ∷ xs) = if contains x xs then set_size xs else suc (set_size xs)

unfoldable pub parsed_ids : Platform → List ReservationItem → List ℕ
parsed_ids p [] = []
parsed_ids p (i ∷ is) = p.parse_uuid i.product_id ∷ parsed_ids p is

-- The number of rows of `SELECT id FROM products WHERE organization_id = g AND id IN ids`.
unfoldable pub matching_products : ℕ → List ℕ → List Product → ℕ
matching_products g ids [] = 0
matching_products g ids (x ∷ xs) =
    if x.organization_id == g && contains x.id ids
    then suc (matching_products g ids xs)
    else matching_products g ids xs

-- The inner join with `products`, and the price that it reads.
unfoldable pub has_product : List Product → Stock → Bool
unfolding product_of
has_product products s = elim (product_of s.product_id products) [ some _ ↦ true | none ↦ false ]

unfoldable pub price_of : List Product → ℕ → ℕ
unfolding product_of
price_of products i = elim (product_of i products) [ some x ↦ x.unit_price_cents | none ↦ 0 ]

-- `lockedByProductId.get(id)!.unitPriceCents`, read where `reserve_lines` has found the row.
unfoldable pub unit_price : List Stock → List Product → ℕ → ℕ
unfolding price_of
unit_price locked products i = elim (locked_row i locked) [
  | some s ↦ price_of products s.product_id
  | none ↦ 0
]

-- The rows that a reservation locks.
unfoldable pub reserve_scope : Platform → ℕ → List ReservationItem → List Product → Stock → Bool
unfolding parsed_ids has_product
reserve_scope p organization items products s =
    in_scope organization (parsed_ids p items) s && has_product products s

unfoldable pub available_of : Option Stock → ℤ
available_of none = pos 0
available_of (some s) = sub_ℕ s.on_hand s.reserved

unfoldable pub shortfalls : List ReservationItem → List Stock → List Shortfall
unfolding available_of
shortfalls [] locked = []
shortfalls (i ∷ is) locked =
    let available = available_of (locked_row i.product_id locked) in
    if ltb_ℤ available (pos i.quantity)
    then record { product_id = i.product_id; requested = i.quantity; available = available }
      ∷ shortfalls is locked
    else shortfalls is locked

-- A round of the loop of updates, from the row as it was locked.
unfoldable pub reserve_line : ReservationItem → Option Stock → List Stock → Result (List Stock)
reserve_line i none table = err undefined_row
reserve_line i (some row) table =
    update_stock row.id (λ s. pos s.on_hand) (λ _. pos (row.reserved + i.quantity)) table

unfoldable pub reserve_lines : List ReservationItem → List Stock → List Stock → Result (List Stock)
unfolding reserve_line
reserve_lines items locked table = for_lines (λ i. i.product_id) reserve_line items locked table

abbrev default_currency : Option String → String
default_currency none = "USD"
default_currency (some c) = c

module _ (p : Platform) (env : Env) (organization user : ℕ) where
  unfoldable pub new_items : List ReservationItem → List Stock → List Product → List OrderItem
  unfolding unit_price
  new_items [] locked products = []
  new_items (i ∷ is) locked products =
      record {
        organization_id = organization;
        order_id = env.new_id;
        product_id = p.parse_uuid i.product_id;
        quantity = i.quantity;
        unit_price_cents = unit_price locked products i.product_id;
      }
      ∷ new_items is locked products

  unfoldable pub new_movements : List ReservationItem → List Movement
  new_movements [] = []
  new_movements (i ∷ is) =
      record {
        organization_id = organization;
        product_id = p.parse_uuid i.product_id;
        movement_type = MovementType.reservation;
        on_hand_delta = pos 0;
        reserved_delta = pos i.quantity;
        reason = "Reservation created";
        reference = some env.new_id;
      }
      ∷ new_movements is

  pub item_results : List ReservationItem → List Stock → List Product → List ReservationItemResult
  unfolding unit_price
  item_results [] locked products = []
  item_results (i ∷ is) locked products =
      record {
        product_id = i.product_id;
        quantity = i.quantity;
        unit_price_cents = unit_price locked products i.product_id;
      }
      ∷ item_results is locked products

  unfoldable pub new_order : Option String → Order
  new_order currency = record {
    id = env.new_id;
    organization_id = organization;
    status = pending;
    currency = default_currency currency;
    created_at = env.now;
    updated_at = env.now;
    cancelled_at = none;
    fulfilled_at = none;
  }

  unfoldable pub created_entry : AuditEntry
  created_entry = record {
    organization_id = organization;
    actor_user_id = user;
    action = reservation_create;
    resource_id = env.new_id;
  }

  unfoldable pub created : CreateReservation → List Stock → List Product → OperationOutcome
  unfolding new_order item_results
  created dto locked products =
      let order = new_order dto.currency in
      record {
        accepted = true;
        status = 201;
        body = reservation (record {
          order_id = order.id;
          status = order.status;
          currency = order.currency;
          items = item_results dto.items locked products;
          created_at = p.to_date order.created_at;
        });
      }

  -- The writes of `reserveStock`, once no line falls short.
  unfoldable pub write_reservation : CreateReservation → List Stock → Tx Db OperationOutcome
  unfolding created_entry created
  write_reservation dto locked = do
    on_inventory (reserve_lines dto.items locked)
    on_orders (insert_order (new_order dto.currency))
    products ← gets (λ db. db.products)
    on_items (insert_items (new_items dto.items locked products))
    insert_movements (new_movements dto.items)
    insert_audit created_entry
    pure (created dto locked products)

  abbrev pub short_outcome : List Shortfall → OperationOutcome
  short_outcome missing = record {
    accepted = false;
    status = 409;
    body = rejection (insufficient_stock missing);
  }

  unfoldable pub reserve_stock : CreateReservation → Tx Db OperationOutcome
  unfolding shortfalls
  reserve_stock dto db =
      let locked = lock_rows (reserve_scope p organization dto.items db.products) db.inventory in
      elim (shortfalls dto.items locked) [
        | x ∷ xs ↦ ok (short_outcome (x ∷ xs), db)
        | [] ↦ write_reservation dto locked db
      ]

-- The request body as JSON, for its fingerprint.
items_json : Platform → List ReservationItem → Items
items_json p [] = nil
items_json p (i ∷ is) =
    cons
      (object (
        field (units "productId") (text (p.text_units i.product_id))
          (field (units "quantity") (number (pos i.quantity)) end)))
      (items_json p is)

currency_json : Option String → Fields
currency_json none = end
currency_json (some c) = field (units "currency") (text (units c)) end

pub dto_json : Platform → CreateReservation → Json
unfolding items_json currency_json
dto_json p dto =
    object (field (units "items") (array (items_json p dto.items)) (currency_json dto.currency))

pub create_request : Platform → ℕ → CreateReservation → ℕ → IdempotencyRequest
unfolding dto_json
create_request p organization dto idempotency_key = record {
  organization_id = organization;
  operation = reservation_create;
  idempotency_key = idempotency_key;
  request_fingerprint = canonical_fingerprint p (dto_json p dto);
}

unfoldable pub create_reservation :
    Platform → Env → ℕ → ℕ → CreateReservation → ℕ → Db → Result Body × Db
unfolding set_size parsed_ids matching_products create_request reserve_stock
create_reservation p env organization user dto idempotency_key db =
    let ids = product_ids dto.items in
    if not (set_size ids == length ids)
    then (err (http_exception 400 (rejection duplicate_product_lines)), db)
    else if not
        (matching_products organization (parsed_ids p dto.items) db.products == set_size ids)
    then (err (http_exception 400 (rejection unknown_products)), db)
    else guarded (create_request p organization dto idempotency_key)
        (reserve_stock p env organization user dto) db
