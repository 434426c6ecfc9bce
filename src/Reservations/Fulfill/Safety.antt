-- ===== src/Reservations/Fulfill/Safety.antt =====
-- `fulfillStock` of apps/api/src/reservations/reservations.service.ts on every branch.
use fulfill_os.Prelude.{
  ℕ, ◌≤◌, ◌-◌, ◌≡◌, refl, ◌∙◌, sym, true, false, Option, none, some, List, ◌∷◌, ◌++◌, arith, inl,
  inr, ◌⊎◌, ◌||◌, Option-cases, ltb,
}
use fulfill_os.Prelude.Int.{pos, sub_ℕ}
use fulfill_os.Platform.{Platform, Env}
use fulfill_os.Common.Outcome.{OperationOutcome}
use fulfill_os.Common.Body.{Body, rejection, order_not_found, cannot_fulfill}
use fulfill_os.Database.{Db, Stock, Order}
use fulfill_os.Database.Enums.{OrderStatus, is_pending}
use fulfill_os.Database.Tx.{ok}
use fulfill_os.Database.Tx.Keeps.{Keeps}
use fulfill_os.OrderTable.{is_order, is_pending_order, find_order, order_by_id, order_by_id-id}
use fulfill_os.OrderTable.Keys.{kept, keys_rules}
use fulfill_os.Stocks.{stock_of, for_lines}
use fulfill_os.Stocks.Bounds.{update_stock-ok}
use fulfill_os.Reservations.Held.{line_quantity}
use fulfill_os.Reservations.Backed.{IsBacked}
use fulfill_os.Reservations.Closing.{Closes, closed, order_by_id-closed, find_order-pending}
use fulfill_os.Reservations.Closing.Lines.{
  IsTaking, taken, lines_of, rows_of, lines-Taken, TablesBacked-close, product,
}
use fulfill_os.Reservations.Movements.{insert_any_movements-ok, Keeps-insert_any_movements}
use fulfill_os.Reservations.Fulfill.{
  fulfill_line, complete_order, fulfill_refused, fulfill_movements, fulfill_entry, fulfill_answer,
  consume_order, fulfill_stock,
}

abbrev pub less_on_hand : Stock → ℕ → ℕ
less_on_hand s n = s.on_hand - n

fulfill-IsTaking : IsTaking fulfill_line less_on_hand
unfolding fulfill_line
fulfill-IsTaking = record {
  bounds = λ s n r. omega (arith, r);
  none_moved = λ s. (omega arith, omega arith);
  runs = λ x s t k h r.
      let out : sub_ℕ s.on_hand x.quantity ≡ pos (s.on_hand - x.quantity) = ground (arith, r) in
      let back : sub_ℕ s.reserved x.quantity ≡ pos (s.reserved - x.quantity) = ground (arith, r) in
      let enough : (ltb s.reserved x.quantity || ltb s.on_hand x.quantity) ≡ false =
        ground (arith, r) in
      rw enough (
        update_stock-ok x.product_id (s.on_hand - x.quantity) (s.reserved - x.quantity) t s
          (λ _. sub_ℕ s.on_hand x.quantity) (λ _. sub_ℕ s.reserved x.quantity) k h out back
          (omega (arith, r)) (omega (arith, r)));
}

pub complete_order-Closes : (now : ℕ) → Closes (complete_order now)
unfolding complete_order is_pending
complete_order-Closes now = record {
  same_id = λ o. refl;
  same_organization = λ o. refl;
  not_pending = λ o. refl;
}

pub fulfill_refused_high :
    (o : Option Order) → ((fulfill_refused o).accepted ≡ false) × (400 ≤ (fulfill_refused o).status)
unfolding fulfill_refused
fulfill_refused_high none = (refl, omega arith)
fulfill_refused_high (some o) = (refl, omega arith)

-- A refusal says whether the organization has the order, and in which status.
abbrev pub IsFulfillRefusal : Option Order → OperationOutcome → Type 0
IsFulfillRefusal none o = (o.status ≡ 404) × (o.body ≡ rejection order_not_found)
IsFulfillRefusal (some was) o = (o.status ≡ 409) × (o.body ≡ rejection (cannot_fulfill was.status))

fulfill_refused-IsFulfillRefusal : (was : Option Order) → IsFulfillRefusal was (fulfill_refused was)
unfolding fulfill_refused
fulfill_refused-IsFulfillRefusal none = (refl, refl)
fulfill_refused-IsFulfillRefusal (some was) = (refl, refl)

-- What a fulfillment has done, by its answer.
abbrev pub Fulfilled : Platform → Env → ℕ → ℕ → ℕ → Db → OperationOutcome → Db → Type 0
Fulfilled p env organization user i db o db' =
    ((o.accepted ≡ true)
      × ((o.status ≡ 200)
          × (o.body
              ≡ Body.fulfilled (record {
                order_id = i;
                status = OrderStatus.fulfilled;
                fulfilled_at = some (p.to_date env.now);
              })))
      × ((was : Order) × (order_by_id i db.orders ≡ some was)
          × (is_pending was.status ≡ true)
          × (order_by_id i db'.orders ≡ some (complete_order env.now was)))
      × ((q : ℕ)
          → stock_of q db'.inventory
            ≡ taken fulfill_line less_on_hand (line_quantity q (lines_of i db))
                (stock_of q db.inventory))
      × (db'.movements
          ≡ fulfill_movements p env organization user i (lines_of i db) ++ db.movements))
    ⊎ ((o.accepted ≡ false)
        × ((400 ≤ o.status) × IsFulfillRefusal (find_order (is_order i organization) db.orders) o)
        × (db' ≡ db)
        × (find_order (is_pending_order i organization) db.orders ≡ none))

module _ (p : Platform) (env : Env) (organization user order_id : ℕ) where
  Keeps-consume_order : (o : Order) → Keeps kept (consume_order p env organization user order_id o)
  unfolding consume_order
  Keeps-consume_order o = search (keys_rules, Keeps-insert_any_movements) depth 16

  -- The two ways that the work goes on after its conditional update.
  pub fulfill_stock-none :
      (db : Db)
      → find_order (is_pending_order order_id organization) db.orders ≡ none
      → fulfill_stock p env organization user order_id db
        ≡ ok (fulfill_refused (find_order (is_order order_id organization) db.orders), db)
  unfolding fulfill_stock
  fulfill_stock-none db h = rw (h, fulfill_stock) refl

  fulfill_stock-some :
      (db : Db) (o : Order)
      → find_order (is_pending_order order_id organization) db.orders ≡ some o
      → fulfill_stock p env organization user order_id db
        ≡ consume_order p env organization user order_id o db
  unfolding fulfill_stock
  fulfill_stock-some db o h = rw (h, fulfill_stock) refl

  pub Keeps-fulfill_stock : Keeps kept (fulfill_stock p env organization user order_id)
  Keeps-fulfill_stock = record {
    at = λ db db' a h.
        elim (Option-cases (find_order (is_pending_order order_id organization) db.orders)) [
          | inl missing ↦ cc (fulfill_stock-none db missing)
          | inr (o, found) ↦
              (Keeps-consume_order o).at db db' a (sym (fulfill_stock-some db o found) ∙ h)
        ];
  }

  -- The database after a fulfillment.
  abbrev fulfilled_db : List Stock → Db → Db
  fulfilled_db t' db = record db {
    inventory = t';
    orders =
        closed order_id organization (complete_order env.now) (complete_order-Closes env.now)
          db.orders;
    movements =
        fulfill_movements p env organization user order_id (lines_of order_id db) ++ db.movements;
    audit_log = fulfill_entry p env organization user order_id ∷ db.audit_log;
  }

  consume_order-ok :
      (db : Db) (o : Order) (t' : List Stock)
      → for_lines product fulfill_line
          (lines_of order_id db)
          (rows_of order_id organization db)
          db.inventory
        ≡ ok t'
      → consume_order p env organization user order_id o db
        ≡ ok (
          fulfill_answer p env organization user order_id (complete_order env.now o),
          fulfilled_db t' db,
        )
  unfolding consume_order
  consume_order-ok db o t' ran = rw ran (
      rw
        (insert_any_movements-ok
          (fulfill_movements p env organization user order_id (lines_of order_id db)))
        refl)

  -- On a database that keeps its invariant a fulfillment never throws: it completes a pending order and
  -- consumes exactly its lines, or refuses, only where the
  -- organization has no such pending order, and changes nothing; and it keeps the invariant.
  pub fulfill_stock_total :
      (db : Db)
      → IsBacked db
      → (o : OperationOutcome) × (db' : Db) × (fulfill_stock p env organization user order_id db
          ≡ ok (o, db'))
        × IsBacked db'
        × Fulfilled p env organization user order_id db o db'
  unfolding fulfill_answer complete_order
  fulfill_stock_total db w =
      elim (Option-cases (find_order (is_pending_order order_id organization) db.orders)) [
        | inl missing ↦ (
          fulfill_refused (find_order (is_order order_id organization) db.orders),
          db,
          fulfill_stock-none db missing,
          w,
          let (rejected, high) =
                fulfill_refused_high (find_order (is_order order_id organization) db.orders) in
              inr (rejected, (high, fulfill_refused-IsFulfillRefusal _), refl, missing),
        )
        | inr (o, found) ↦
            let closes = complete_order-Closes env.now in
            let (t', ran, k, b, at) =
              lines-Taken fulfill_line less_on_hand order_id organization (complete_order env.now)
                closes db o w found fulfill-IsTaking in
            let (was, _, open_order) =
              find_order-pending order_id organization db.orders o w.orders_keyed found in
            (
              fulfill_answer p env organization user order_id (complete_order env.now o),
              fulfilled_db t' db,
              fulfill_stock-some db o found ∙ consume_order-ok db o t' ran,
              TablesBacked-close fulfill_line less_on_hand order_id organization
                  (complete_order env.now) closes db o w found t' k b at,
              inl (
                refl,
                (refl, rw (order_by_id-id order_id db.orders o was) refl),
                (
                  o,
                  was,
                  open_order,
                  order_by_id-closed order_id organization (complete_order env.now) closes db.orders
                      o w.orders_keyed found,
                ),
                at,
                refl,
              ),
            )
      ]
