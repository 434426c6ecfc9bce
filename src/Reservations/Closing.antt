-- ===== src/Reservations/Closing.antt =====
-- The conditional update `… WHERE status = 'pending'` of apps/api/src/reservations/
-- reservations.service.ts, and what closing an order makes of the stock that it held. Releasing
-- and fulfilling differ only in the row that they leave.
pub mod Lines
use fulfill_os.Prelude.{
  ℕ, ◌+◌, ◌-◌, ◌≤◌, ◌≡◌, refl, ◌≢◌, ◌∙◌, ap, Bool, true, false, Option, none, some, List, [], ◌∷◌,
  arith, ◌==◌, ◌&&◌, ==_iff, if◌then◌else◌, inl, inr, Bool-cases, All,
}
use fulfill_os.Database.{Order, OrderItem}
use fulfill_os.Database.Enums.{OrderStatus, is_pending}
use fulfill_os.OrderTable.{order_by_id, find_order, update_orders, is_pending_order, items_of}
use fulfill_os.Reservations.Held.{is_open, held, held_by-close, line_quantity}
use fulfill_os.Reservations.Backed.{OrdersKeyed, HasOrder}

order_by_id-ne-none :
    (i g : ℕ) (os : List Order) (o : Order)
    → find_order (is_pending_order i g) os ≡ some o
    → order_by_id i os ≢ none
unfolding find_order order_by_id
order_by_id-ne-none i g [] o h = cc
order_by_id-ne-none i g (x ∷ os) o h = ground (arith, order_by_id-ne-none i g os o)

-- The order that the update finds is the order of that id, of the organization, and pending.
pub find_order-pending :
    (i g : ℕ) (os : List Order) (o : Order)
    → OrdersKeyed os
    → find_order (is_pending_order i g) os ≡ some o
    → (order_by_id i os ≡ some o) × (o.organization_id ≡ g) × (is_pending o.status ≡ true)
unfolding find_order order_by_id
find_order-pending i g [] o k h = cc
find_order-pending i g (x ∷ os) o k h =
    ground (arith, find_order-pending i g os o k.1, order_by_id-ne-none i g os o)

-- What the SET clauses of both updates have in common.
pub record Closes (set : Order → Order) : Type 0 where
  pub same_id : (o : Order) → (set o).id ≡ o.id
  pub same_organization : (o : Order) → (set o).organization_id ≡ o.organization_id
  pub not_pending : (o : Order) → is_pending (set o).status ≡ false

module _ (i g : ℕ) (set : Order → Order) (closes : Closes set) where
  abbrev pub closed : List Order → List Order
  closed = update_orders (is_pending_order i g) set

  order_by_id-closed-none :
      (j : ℕ) (os : List Order) → order_by_id j os ≡ none → order_by_id j (closed os) ≡ none
  unfolding order_by_id update_orders
  order_by_id-closed-none j [] h = refl
  order_by_id-closed-none j (x ∷ os) h =
      ground (arith, closes.same_id x, order_by_id-closed-none j os)

  pub closed-OrdersKeyed : (os : List Order) → OrdersKeyed os → OrdersKeyed (closed os)
  unfolding update_orders
  closed-OrdersKeyed [] k = tt
  closed-OrdersKeyed (x ∷ os) k =
      ground
        (arith, closes.same_id x, order_by_id-closed-none x.id os k.0, closed-OrdersKeyed os k.1)

  -- The update changes the order that it finds.
  pub order_by_id-closed :
      (os : List Order) (o : Order)
      → OrdersKeyed os
      → find_order (is_pending_order i g) os ≡ some o
      → order_by_id i (closed os) ≡ some (set o)
  unfolding order_by_id update_orders find_order
  order_by_id-closed [] o k h = cc
  order_by_id-closed (x ∷ os) o k h =
      ground (arith, closes.same_id x, order_by_id-closed os o k.1, order_by_id-ne-none i g os o)

  -- And no other.
  pub order_by_id-closed_ne :
      (j : ℕ) (os : List Order) → j ≢ i → order_by_id j (closed os) ≡ order_by_id j os
  unfolding order_by_id update_orders
  order_by_id-closed_ne j [] h = refl
  order_by_id-closed_ne j (x ∷ os) h =
      ground (arith, closes.same_id x, order_by_id-closed_ne j os h)

  order_by_id-closed-some :
      (j : ℕ) (os : List Order) (o : Order)
      → order_by_id j os ≡ some o
      → order_by_id j (closed os) ≡ some (if is_pending_order i g o then set o else o)
  unfolding order_by_id update_orders
  order_by_id-closed-some j [] o h = cc
  order_by_id-closed-some j (x ∷ os) o h =
      ground (arith, closes.same_id x, order_by_id-closed-some j os o)

  pub HasOrder-closed : (os : List Order) (x : OrderItem) → HasOrder os x → HasOrder (closed os) x
  HasOrder-closed os x (o, found, same) = (
    if is_pending_order i g o then set o else o,
    order_by_id-closed-some x.order_id os o found,
    ground (arith, closes.same_organization o, same),
  )

  -- Closing an order lowers what the pending orders hold by exactly its lines.
  pub held-closed :
      (p : ℕ) (os : List Order) (o : Order) (items : List OrderItem)
      → OrdersKeyed os
      → find_order (is_pending_order i g) os ≡ some o
      → held os p items ≡ held (closed os) p items + line_quantity p (items_of i items)
  held-closed p os o items k h =
      let (found, _, open_order) = find_order-pending i g os o k h in
      held_by-close (is_open os) (is_open (closed os)) i p items (rw (found, is_open) open_order)
        (rw (order_by_id-closed os o k h, is_open) (closes.not_pending o))
        (λ j other. rw (order_by_id-closed_ne j os other, is_open) refl)
