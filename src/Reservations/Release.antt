-- ===== src/Reservations/Release.antt =====
-- `ReservationsService.releaseReservation` and `releaseStock` of
-- apps/api/src/reservations/reservations.service.ts. The order id of a request is the number of the
-- text that PostgreSQL prints for the uuid.
pub mod Safety
use fulfill_os.Prelude.{
  ℕ, Option, none, some, List, [], ◌∷◌, true, false, ltb, if◌then◌else◌, products_of,
}
use fulfill_os.Prelude.Int.{pos, neg, sub_ℕ}
use fulfill_os.Platform.{Platform, Env}
use fulfill_os.Common.CanonicalJson.{text, object, end, field, canonical_fingerprint, units}
use fulfill_os.Common.Body.{Body, released, rejection, reservation_not_found, cannot_release}
use fulfill_os.Common.Outcome.{OperationOutcome}
use fulfill_os.Database.{Db, Stock, Order, OrderItem, Movement, AuditEntry}
use fulfill_os.Database.Enums.{cancelled, MovementType, reservation_release}
use fulfill_os.Database.Thrown.{invariant_violated}
use fulfill_os.Database.Tx.{Result, ok, err, Tx, ◌>>=◌, ◌>>◌, pure, gets}
use fulfill_os.Idempotency.{IdempotencyRequest, guarded}
use fulfill_os.Stocks.{in_scope, lock_rows, update_stock, for_lines}
use fulfill_os.OrderTable.{
  is_order, is_pending_order, find_order, update_orders, items_of, on_inventory, on_orders,
  insert_audit,
}
use fulfill_os.Reservations.Movements.{insert_any_movements}

-- A round of the loop: the row must hold what is given back.
unfoldable pub release_line : OrderItem → Option Stock → List Stock → Result (List Stock)
release_line x none table = err (invariant_violated x.product_id)
release_line x (some row) table =
    if ltb row.reserved x.quantity
    then err (invariant_violated x.product_id)
    else update_stock row.id (λ s. pos s.on_hand) (λ _. sub_ℕ row.reserved x.quantity) table

-- The SET clause of the conditional update.
pub cancel_order : ℕ → Order → Order
cancel_order now o = record o { status = cancelled; cancelled_at = some now; updated_at = now }

-- The answer when the conditional update found no pending order.
pub release_refused : Option Order → OperationOutcome
release_refused none = record {
  accepted = false;
  status = 404;
  body = rejection reservation_not_found;
}
release_refused (some existing) = record {
  accepted = false;
  status = 409;
  body = rejection (cannot_release existing.status);
}

module _ (p : Platform) (env : Env) (organization user order_id : ℕ) where
  unfoldable pub release_movements : List OrderItem → List Movement
  release_movements [] = []
  release_movements (x ∷ xs) =
      record {
        organization_id = organization;
        product_id = x.product_id;
        movement_type = MovementType.release;
        on_hand_delta = pos 0;
        reserved_delta = neg x.quantity;
        reason = "Reservation released";
        reference = some order_id;
      }
      ∷ release_movements xs

  pub release_entry : AuditEntry
  release_entry = record {
    organization_id = organization;
    actor_user_id = user;
    action = reservation_release;
    resource_id = order_id;
  }

  -- The cancelled row as the driver returns it.
  unfoldable pub release_answer : Order → OperationOutcome
  release_answer o = record {
    accepted = true;
    status = 200;
    body = released (record {
      order_id = o.id;
      status = o.status;
      cancelled_at = elim o.cancelled_at [ none ↦ none | some t ↦ some (p.to_date t) ];
    });
  }

  -- The work on the order that was cancelled.
  unfoldable pub release_order : Order → Tx Db OperationOutcome
  unfolding release_line release_movements insert_any_movements release_entry release_answer
  release_order o = do
    on_orders (λ os.
        ok (update_orders (is_pending_order order_id organization) (cancel_order env.now) os))
    items ← gets (λ db. items_of order_id db.order_items)
    locked ← gets (λ db.
        lock_rows (in_scope organization (products_of (λ x. x.product_id) items)) db.inventory)
    on_inventory (for_lines (λ x. x.product_id) release_line items locked)
    insert_any_movements (release_movements items)
    insert_audit release_entry
    pure (release_answer (cancel_order env.now o))

  unfoldable pub release_stock : Tx Db OperationOutcome
  unfolding release_refused release_order
  release_stock db = elim (find_order (is_pending_order order_id organization) db.orders) [
    | none ↦ ok (release_refused (find_order (is_order order_id organization) db.orders), db)
    | some o ↦ release_order o db
  ]

pub release_request : Platform → ℕ → ℕ → ℕ → IdempotencyRequest
release_request p organization order_id idempotency_key = record {
  organization_id = organization;
  operation = reservation_release;
  idempotency_key = idempotency_key;
  request_fingerprint =
      canonical_fingerprint p (object (field (units "orderId") (text (p.text_units order_id)) end));
}

unfoldable pub release_reservation : Platform → Env → ℕ → ℕ → ℕ → ℕ → Db → Result Body × Db
unfolding release_request release_stock
release_reservation p env organization user order_id idempotency_key =
    guarded (release_request p organization order_id idempotency_key)
      (release_stock p env organization user order_id)
