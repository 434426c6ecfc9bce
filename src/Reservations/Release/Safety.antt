-- ===== src/Reservations/Release/Safety.antt =====
-- `releaseStock` of apps/api/src/reservations/reservations.service.ts on every branch.
use fulfill_os.Prelude.{
  ℕ, ◌≤◌, ◌-◌, ◌≡◌, refl, ◌∙◌, sym, true, false, Option, none, some, List, ◌∷◌, ◌++◌, arith, inl,
  inr, ◌⊎◌, Option-cases, ltb,
}
use fulfill_os.Prelude.Int.{pos, sub_ℕ}
use fulfill_os.Platform.{Platform, Env}
use fulfill_os.Common.Outcome.{OperationOutcome}
use fulfill_os.Common.Body.{rejection, released, reservation_not_found, cannot_release}
use fulfill_os.Database.{Db, Stock, Order}
use fulfill_os.Database.Enums.{OrderStatus, is_pending}
use fulfill_os.Database.Tx.{ok}
use fulfill_os.Database.Tx.Keeps.{Keeps}
use fulfill_os.OrderTable.{is_order, is_pending_order, find_order, order_by_id, order_by_id-id}
use fulfill_os.OrderTable.Keys.{kept, keys_rules}
use fulfill_os.Stocks.{stock_of, for_lines}
use fulfill_os.Stocks.Bounds.{update_stock-ok}
use fulfill_os.Reservations.Held.{line_quantity}
use fulfill_os.Reservations.Backed.{IsBacked}
use fulfill_os.Reservations.Closing.{Closes, closed, order_by_id-closed, find_order-pending}
use fulfill_os.Reservations.Closing.Lines.{
  IsTaking, taken, lines_of, rows_of, lines-Taken, TablesBacked-close, product,
}
use fulfill_os.Reservations.Movements.{insert_any_movements-ok, Keeps-insert_any_movements}
use fulfill_os.Reservations.Release.{
  release_line, cancel_order, release_refused, release_movements, release_entry, release_answer,
  release_order, release_stock,
}

abbrev pub kept_on_hand : Stock → ℕ → ℕ
kept_on_hand s n = s.on_hand

release-IsTaking : IsTaking release_line kept_on_hand
unfolding release_line
release-IsTaking = record {
  bounds = λ s n r. omega (arith, r);
  none_moved = λ s. (refl, omega arith);
  runs = λ x s t k h r.
      let back : sub_ℕ s.reserved x.quantity ≡ pos (s.reserved - x.quantity) = ground (arith, r) in
      let enough : ltb s.reserved x.quantity ≡ false = ground (arith, r) in
      rw enough (
        update_stock-ok x.product_id s.on_hand (s.reserved - x.quantity) t s (λ y. pos y.on_hand)
          (λ _. sub_ℕ s.reserved x.quantity) k h refl back (omega (arith, r)) r.2);
}

pub cancel_order-Closes : (now : ℕ) → Closes (cancel_order now)
unfolding cancel_order is_pending
cancel_order-Closes now = record {
  same_id = λ o. refl;
  same_organization = λ o. refl;
  not_pending = λ o. refl;
}

pub release_refused_high :
    (o : Option Order) → ((release_refused o).accepted ≡ false) × (400 ≤ (release_refused o).status)
unfolding release_refused
release_refused_high none = (refl, omega arith)
release_refused_high (some o) = (refl, omega arith)

-- A refusal says whether the organization has the order, and in which status.
abbrev pub IsReleaseRefusal : Option Order → OperationOutcome → Type 0
IsReleaseRefusal none o = (o.status ≡ 404) × (o.body ≡ rejection reservation_not_found)
IsReleaseRefusal (some was) o = (o.status ≡ 409) × (o.body ≡ rejection (cannot_release was.status))

release_refused-IsReleaseRefusal : (was : Option Order) → IsReleaseRefusal was (release_refused was)
unfolding release_refused
release_refused-IsReleaseRefusal none = (refl, refl)
release_refused-IsReleaseRefusal (some was) = (refl, refl)

-- What a release has done, by its answer.
abbrev pub Released : Platform → Env → ℕ → ℕ → ℕ → Db → OperationOutcome → Db → Type 0
Released p env organization user i db o db' =
    ((o.accepted ≡ true)
      × ((o.status ≡ 200)
          × (o.body
              ≡ released (record {
                order_id = i;
                status = OrderStatus.cancelled;
                cancelled_at = some (p.to_date env.now);
              })))
      × ((was : Order) × (order_by_id i db.orders ≡ some was)
          × (is_pending was.status ≡ true)
          × (order_by_id i db'.orders ≡ some (cancel_order env.now was)))
      × ((q : ℕ)
          → stock_of q db'.inventory
            ≡ taken release_line kept_on_hand (line_quantity q (lines_of i db))
                (stock_of q db.inventory))
      × (db'.movements
          ≡ release_movements p env organization user i (lines_of i db) ++ db.movements))
    ⊎ ((o.accepted ≡ false)
        × ((400 ≤ o.status) × IsReleaseRefusal (find_order (is_order i organization) db.orders) o)
        × (db' ≡ db)
        × (find_order (is_pending_order i organization) db.orders ≡ none))

module _ (p : Platform) (env : Env) (organization user order_id : ℕ) where
  Keeps-release_order : (o : Order) → Keeps kept (release_order p env organization user order_id o)
  unfolding release_order
  Keeps-release_order o = search (keys_rules, Keeps-insert_any_movements) depth 16

  -- The two ways that the work goes on after its conditional update.
  pub release_stock-none :
      (db : Db)
      → find_order (is_pending_order order_id organization) db.orders ≡ none
      → release_stock p env organization user order_id db
        ≡ ok (release_refused (find_order (is_order order_id organization) db.orders), db)
  unfolding release_stock
  release_stock-none db h = rw (h, release_stock) refl

  release_stock-some :
      (db : Db) (o : Order)
      → find_order (is_pending_order order_id organization) db.orders ≡ some o
      → release_stock p env organization user order_id db
        ≡ release_order p env organization user order_id o db
  unfolding release_stock
  release_stock-some db o h = rw (h, release_stock) refl

  pub Keeps-release_stock : Keeps kept (release_stock p env organization user order_id)
  Keeps-release_stock = record {
    at = λ db db' a h.
        elim (Option-cases (find_order (is_pending_order order_id organization) db.orders)) [
          | inl missing ↦ cc (release_stock-none db missing)
          | inr (o, found) ↦
              (Keeps-release_order o).at db db' a (sym (release_stock-some db o found) ∙ h)
        ];
  }

  -- The database after a release.
  abbrev released_db : List Stock → Db → Db
  released_db t' db = record db {
    inventory = t';
    orders =
        closed order_id organization (cancel_order env.now) (cancel_order-Closes env.now) db.orders;
    movements =
        release_movements p env organization user order_id (lines_of order_id db) ++ db.movements;
    audit_log = release_entry p env organization user order_id ∷ db.audit_log;
  }

  release_order-ok :
      (db : Db) (o : Order) (t' : List Stock)
      → for_lines product release_line
          (lines_of order_id db)
          (rows_of order_id organization db)
          db.inventory
        ≡ ok t'
      → release_order p env organization user order_id o db
        ≡ ok (
          release_answer p env organization user order_id (cancel_order env.now o),
          released_db t' db,
        )
  unfolding release_order
  release_order-ok db o t' ran = rw ran (
      rw
        (insert_any_movements-ok
          (release_movements p env organization user order_id (lines_of order_id db)))
        refl)

  -- On a database that keeps its invariant a release never throws: it cancels a pending order and
  -- gives back exactly its lines, or refuses, only where the
  -- organization has no such pending order, and changes nothing; and it keeps the invariant.
  pub release_stock_total :
      (db : Db)
      → IsBacked db
      → (o : OperationOutcome) × (db' : Db) × (release_stock p env organization user order_id db
          ≡ ok (o, db'))
        × IsBacked db'
        × Released p env organization user order_id db o db'
  unfolding release_answer cancel_order
  release_stock_total db w =
      elim (Option-cases (find_order (is_pending_order order_id organization) db.orders)) [
        | inl missing ↦ (
          release_refused (find_order (is_order order_id organization) db.orders),
          db,
          release_stock-none db missing,
          w,
          let (rejected, high) =
                release_refused_high (find_order (is_order order_id organization) db.orders) in
              inr (rejected, (high, release_refused-IsReleaseRefusal _), refl, missing),
        )
        | inr (o, found) ↦
            let closes = cancel_order-Closes env.now in
            let (t', ran, k, b, at) =
              lines-Taken release_line kept_on_hand order_id organization (cancel_order env.now)
                closes db o w found release-IsTaking in
            let (was, _, open_order) =
              find_order-pending order_id organization db.orders o w.orders_keyed found in
            (
              release_answer p env organization user order_id (cancel_order env.now o),
              released_db t' db,
              release_stock-some db o found ∙ release_order-ok db o t' ran,
              TablesBacked-close release_line kept_on_hand order_id organization
                  (cancel_order env.now) closes db o w found t' k b at,
              inl (
                refl,
                (refl, rw (order_by_id-id order_id db.orders o was) refl),
                (
                  o,
                  was,
                  open_order,
                  order_by_id-closed order_id organization (cancel_order env.now) closes db.orders o
                      w.orders_keyed found,
                ),
                at,
                refl,
              ),
            )
      ]
