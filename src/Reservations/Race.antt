-- ===== src/Reservations/Race.antt =====
-- A release and a fulfillment of one order, in either order (apps/api/src/reservations/
-- reservations.service.ts): the conditional update lets the first of them win.
use fulfill_os.Prelude.{
  ℕ, ◌≡◌, refl, true, false, none, some, List, [], ◌∷◌, arith, inl, inr, ap, sym, ◌∙◌,
}
use fulfill_os.Platform.{Platform, Env}
use fulfill_os.Common.Outcome.{OperationOutcome}
use fulfill_os.Database.{Db, Order}
use fulfill_os.Database.Enums.{is_pending}
use fulfill_os.Database.Tx.{Result, ok, Tx}
use fulfill_os.OrderTable.{is_order, is_pending_order, find_order, order_by_id}
use fulfill_os.Reservations.Backed.{IsBacked, OrdersKeyed}
use fulfill_os.Reservations.Release.{release_stock, cancel_order}
use fulfill_os.Reservations.Release.Safety.{
  Released, release_stock_total, release_stock-none, release_refused_high, cancel_order-Closes,
}
use fulfill_os.Reservations.Fulfill.{fulfill_stock, complete_order}
use fulfill_os.Reservations.Fulfill.Safety.{
  Fulfilled, fulfill_stock_total, fulfill_stock-none, fulfill_refused_high, complete_order-Closes,
}

find_order-absent :
    (i g : ℕ) (os : List Order)
    → order_by_id i os ≡ none
    → find_order (is_pending_order i g) os ≡ none
unfolding find_order order_by_id
find_order-absent i g [] h = refl
find_order-absent i g (x ∷ os) h = ground (arith, find_order-absent i g os)

-- An order that is closed is not found pending.
find_order-closed :
    (i g : ℕ) (os : List Order) (o : Order)
    → OrdersKeyed os
    → order_by_id i os ≡ some o
    → is_pending o.status ≡ false
    → find_order (is_pending_order i g) os ≡ none
unfolding find_order order_by_id
find_order-closed i g [] o k h c = cc
find_order-closed i g (x ∷ os) o k h c =
    ground (arith, find_order-closed i g os o k.1, find_order-absent i g os)

-- Work that refuses, and changes nothing.
abbrev pub IsRefused : Tx Db OperationOutcome → Db → Type 0
IsRefused work db = (o : OperationOutcome) × (work db ≡ ok (o, db)) × (o.accepted ≡ false)

-- Any later release or fulfillment of the order is refused.
abbrev pub IsSettled : ℕ → Db → Type 0
IsSettled i db =
    (p : Platform) (env : Env) (organization user : ℕ)
    → IsRefused (release_stock p env organization user i) db
      × IsRefused (fulfill_stock p env organization user i) db

closed-IsSettled :
    (i : ℕ) (db : Db) (o : Order)
    → IsBacked db
    → order_by_id i db.orders ≡ some o
    → is_pending o.status ≡ false
    → IsSettled i db
closed-IsSettled i db o w found c p env g user =
    let missing = find_order-closed i g db.orders o w.orders_keyed found c in
    let existing = find_order (is_order i g) db.orders in
    (
      (_, release_stock-none p env g user i db missing, (release_refused_high existing).0),
      (_, fulfill_stock-none p env g user i db missing, (fulfill_refused_high existing).0),
    )

Released-IsSettled :
    (p : Platform) (env : Env) (g user i : ℕ) (db db' : Db) (o : OperationOutcome)
    → Released p env g user i db o db'
    → IsBacked db'
    → o.accepted ≡ true
    → IsSettled i db'
Released-IsSettled p env g user i db db' o (inr (rejected, _, _, _)) w accepted = cc
Released-IsSettled p env g user i db db' o (inl (_, _, (was, _, _, now_), _, _)) w accepted =
    closed-IsSettled i db' (cancel_order env.now was) w now_
      ((cancel_order-Closes env.now).not_pending was)

Fulfilled-IsSettled :
    (p : Platform) (env : Env) (g user i : ℕ) (db db' : Db) (o : OperationOutcome)
    → Fulfilled p env g user i db o db'
    → IsBacked db'
    → o.accepted ≡ true
    → IsSettled i db'
Fulfilled-IsSettled p env g user i db db' o (inr (rejected, _, _, _)) w accepted = cc
Fulfilled-IsSettled p env g user i db db' o (inl (_, _, (was, _, _, now_), _, _)) w accepted =
    closed-IsSettled i db' (complete_order env.now was) w now_
      ((complete_order-Closes env.now).not_pending was)

abbrev pub ok_of : OperationOutcome → Db → Result (OperationOutcome × Db)
ok_of o db = ok (o, db)

pub ok-injective : (a b : OperationOutcome) (s t : Db) → ok_of a s ≡ ok_of b t → (a ≡ b) × (s ≡ t)
ok-injective a b s t h = (cc, cc)

module _ (p : Platform) (env : Env) (g user i : ℕ) (db db' : Db) (o : OperationOutcome) where
  -- On a database that keeps its invariant, an order that was released is settled: every later
  -- release or fulfillment of it is refused, and changes nothing.
  pub release-IsSettled :
      IsBacked db
      → release_stock p env g user i db ≡ ok (o, db')
      → o.accepted ≡ true
      → IsSettled i db'
  release-IsSettled w ran accepted =
      let (o1, db1, ran1, w1, did) = release_stock_total p env g user i db w in
      let (answer, state) = ok-injective o o1 db' db1 (sym ran ∙ ran1) in
      rw state (
        Released-IsSettled p env g user i db db1 o1 did w1
          (ap {A = OperationOutcome} (λ a. a.accepted) (sym answer) ∙ accepted))

  -- On a database that keeps its invariant, an order that was fulfilled is settled: every later
  -- release or fulfillment of it is refused, and changes nothing.
  pub fulfill-IsSettled :
      IsBacked db
      → fulfill_stock p env g user i db ≡ ok (o, db')
      → o.accepted ≡ true
      → IsSettled i db'
  fulfill-IsSettled w ran accepted =
      let (o1, db1, ran1, w1, did) = fulfill_stock_total p env g user i db w in
      let (answer, state) = ok-injective o o1 db' db1 (sym ran ∙ ran1) in
      rw state (
        Fulfilled-IsSettled p env g user i db db1 o1 did w1
          (ap {A = OperationOutcome} (λ a. a.accepted) (sym answer) ∙ accepted))
