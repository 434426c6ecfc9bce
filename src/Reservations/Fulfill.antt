-- ===== src/Reservations/Fulfill.antt =====
-- `ReservationsService.fulfillOrder` and `fulfillStock` of
-- apps/api/src/reservations/reservations.service.ts.
pub mod Safety
use fulfill_os.Prelude.{
  ℕ, Option, none, some, List, [], ◌∷◌, true, false, ◌||◌, ltb, if◌then◌else◌, products_of,
}
use fulfill_os.Prelude.Int.{neg, sub_ℕ}
use fulfill_os.Platform.{Platform, Env}
use fulfill_os.Common.CanonicalJson.{text, object, end, field, canonical_fingerprint, units}
use fulfill_os.Common.Body.{Body, fulfilled, rejection, order_not_found, cannot_fulfill}
use fulfill_os.Common.Outcome.{OperationOutcome}
use fulfill_os.Database.{Db, Stock, Order, OrderItem, Movement, AuditEntry}
use fulfill_os.Database.Enums.{OrderStatus, MovementType, order_fulfill}
use fulfill_os.Database.Thrown.{invariant_violated}
use fulfill_os.Database.Tx.{Result, ok, err, Tx, ◌>>=◌, ◌>>◌, pure, gets}
use fulfill_os.Idempotency.{IdempotencyRequest, guarded}
use fulfill_os.Stocks.{in_scope, lock_rows, update_stock, for_lines}
use fulfill_os.OrderTable.{
  is_order, is_pending_order, find_order, update_orders, items_of, on_inventory, on_orders,
  insert_audit,
}
use fulfill_os.Reservations.Movements.{insert_any_movements}

-- A round of the loop: the row must hold what is consumed, on hand and reserved.
unfoldable pub fulfill_line : OrderItem → Option Stock → List Stock → Result (List Stock)
fulfill_line x none table = err (invariant_violated x.product_id)
fulfill_line x (some row) table =
    if ltb row.reserved x.quantity || ltb row.on_hand x.quantity
    then err (invariant_violated x.product_id)
    else update_stock row.id (λ _. sub_ℕ row.on_hand x.quantity)
        (λ _. sub_ℕ row.reserved x.quantity) table

-- The SET clause of the conditional update.
pub complete_order : ℕ → Order → Order
complete_order now o = record o {
  status = OrderStatus.fulfilled;
  fulfilled_at = some now;
  updated_at = now;
}

-- The answer when the conditional update found no pending order.
pub fulfill_refused : Option Order → OperationOutcome
fulfill_refused none = record { accepted = false; status = 404; body = rejection order_not_found }
fulfill_refused (some existing) = record {
  accepted = false;
  status = 409;
  body = rejection (cannot_fulfill existing.status);
}

module _ (p : Platform) (env : Env) (organization user order_id : ℕ) where
  unfoldable pub fulfill_movements : List OrderItem → List Movement
  fulfill_movements [] = []
  fulfill_movements (x ∷ xs) =
      record {
        organization_id = organization;
        product_id = x.product_id;
        movement_type = MovementType.fulfillment;
        on_hand_delta = neg x.quantity;
        reserved_delta = neg x.quantity;
        reason = "Order fulfilled";
        reference = some order_id;
      }
      ∷ fulfill_movements xs

  pub fulfill_entry : AuditEntry
  fulfill_entry = record {
    organization_id = organization;
    actor_user_id = user;
    action = order_fulfill;
    resource_id = order_id;
  }

  -- The fulfilled row as the driver returns it.
  unfoldable pub fulfill_answer : Order → OperationOutcome
  fulfill_answer o = record {
    accepted = true;
    status = 200;
    body = fulfilled (record {
      order_id = o.id;
      status = o.status;
      fulfilled_at = elim o.fulfilled_at [ none ↦ none | some t ↦ some (p.to_date t) ];
    });
  }

  -- The work on the order that was fulfilled.
  unfoldable pub consume_order : Order → Tx Db OperationOutcome
  unfolding fulfill_line fulfill_movements insert_any_movements fulfill_entry fulfill_answer
  consume_order o = do
    on_orders (λ os.
        ok (update_orders (is_pending_order order_id organization) (complete_order env.now) os))
    items ← gets (λ db. items_of order_id db.order_items)
    locked ← gets (λ db.
        lock_rows (in_scope organization (products_of (λ x. x.product_id) items)) db.inventory)
    on_inventory (for_lines (λ x. x.product_id) fulfill_line items locked)
    insert_any_movements (fulfill_movements items)
    insert_audit fulfill_entry
    pure (fulfill_answer (complete_order env.now o))

  unfoldable pub fulfill_stock : Tx Db OperationOutcome
  unfolding fulfill_refused consume_order
  fulfill_stock db = elim (find_order (is_pending_order order_id organization) db.orders) [
    | none ↦ ok (fulfill_refused (find_order (is_order order_id organization) db.orders), db)
    | some o ↦ consume_order o db
  ]

pub fulfill_request : Platform → ℕ → ℕ → ℕ → IdempotencyRequest
fulfill_request p organization order_id idempotency_key = record {
  organization_id = organization;
  operation = order_fulfill;
  idempotency_key = idempotency_key;
  request_fingerprint =
      canonical_fingerprint p (object (field (units "orderId") (text (p.text_units order_id)) end));
}

unfoldable pub fulfill_order : Platform → Env → ℕ → ℕ → ℕ → ℕ → Db → Result Body × Db
unfolding fulfill_request fulfill_stock
fulfill_order p env organization user order_id idempotency_key =
    guarded (fulfill_request p organization order_id idempotency_key)
      (fulfill_stock p env organization user order_id)
