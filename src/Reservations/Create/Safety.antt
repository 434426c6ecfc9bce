-- ===== src/Reservations/Create/Safety.antt =====
-- `reserveStock` of apps/api/src/reservations/reservations.service.ts on every branch.
use fulfill_os.Prelude.{
  ℕ, ◌≡◌, ◌==◌, arith, refl, ◌∙◌, true, false, String, Option, none, some, List, [], ◌∷◌, inl, inr,
  sym, ◌⊎◌, All, All-map, ◌++◌,
}
use fulfill_os.Platform.{Platform, Env}
use fulfill_os.Common.Body.{
  Shortfall, ReservationResult, reservation, rejection, insufficient_stock,
}
use fulfill_os.Database.Enums.{pending}
use fulfill_os.Reservations.Create.Answers.{
  Answers, FallsShort, shortfalls-eq-FallsShort, item_results-Answers,
}
use fulfill_os.Common.Outcome.{OperationOutcome}
use fulfill_os.Database.{Db, Stock, Order}
use fulfill_os.Database.Tx.{ok}
use fulfill_os.Database.Tx.Keeps.{Keeps}
use fulfill_os.OrderTable.{order_by_id}
use fulfill_os.OrderTable.Keys.{kept, keys_rules}
use fulfill_os.Stocks.{stock_of, lock_rows}
use fulfill_os.Stocks.Lines.{NoRepeat}
use fulfill_os.Reservations.Backed.{IsBacked}
use fulfill_os.Reservations.Held.{line_quantity}
use fulfill_os.Reservations.Closing.Lines.{lines_of}
use fulfill_os.Reservations.Create.{
  ReservationItem, CreateReservation, product_ids, shortfalls, write_reservation, reserve_stock,
  reserve_scope, reserve_lines, created, new_order, short_outcome, new_movements,
}
use fulfill_os.Reservations.Create.Lines.{Quantified, shortfalls-Covered, reserve_lines-Moves}
use fulfill_os.Reservations.Create.Fits.{ReadsBack, Fits, Covered-Fits}
use fulfill_os.Reservations.Create.Commit.{
  raised, requested, TablesBacked-reserve, HasNewOrder, HasNewOrder-order, lines_of-reserve,
  write_reservation-ok, reserved_db,
}

List-cases :
    (xs : List Shortfall) → (xs ≡ []) ⊎ ((y : Shortfall) × (ys : List Shortfall) × (xs ≡ y ∷ ys))
List-cases [] = inl refl
List-cases (y ∷ ys) = inr (y, ys, refl)

module _ (p : Platform) (env : Env) (organization user : ℕ) (dto : CreateReservation) where
  pub Keeps-write_reservation :
      (locked : List Stock) → Keeps kept (write_reservation p env organization user dto locked)
  unfolding write_reservation
  Keeps-write_reservation locked = search keys_rules depth 16

  abbrev pub request_locks : Db → List Stock
  request_locks db = lock_rows (reserve_scope p organization dto.items db.products) db.inventory

  -- The two ways that the work goes on after its locks.
  reserve_stock-short :
      (db : Db) (y : Shortfall) (ys : List Shortfall)
      → shortfalls dto.items (request_locks db) ≡ y ∷ ys
      → reserve_stock p env organization user dto db
        ≡ ok (short_outcome p env organization user (y ∷ ys), db)
  unfolding reserve_stock
  reserve_stock-short db y ys h = rw (h, reserve_stock) refl

  reserve_stock-enough :
      (db : Db)
      → shortfalls dto.items (request_locks db) ≡ []
      → reserve_stock p env organization user dto db
        ≡ write_reservation p env organization user dto (request_locks db) db
  unfolding reserve_stock
  reserve_stock-enough db h = rw (h, reserve_stock) refl

  pub Keeps-reserve_stock : Keeps kept (reserve_stock p env organization user dto)
  Keeps-reserve_stock = record {
    at = λ db db' o h. elim (List-cases (shortfalls dto.items (request_locks db))) [
      | inl enough ↦
          (Keeps-write_reservation (request_locks db)).at db db' o
            (sym (reserve_stock-enough db enough) ∙ h)
      | inr (y, ys, short) ↦ cc (reserve_stock-short db y ys short)
    ];
  }

-- What a reservation has done, by its answer.
abbrev pub Reserved :
    Platform → Env → ℕ → ℕ → List ReservationItem → Db → OperationOutcome → Db → Type 0
Reserved p env g user items db o db' =
    (o.accepted ≡ true
      × ((o.status ≡ 201)
          × ((r : ReservationResult) × (o.body ≡ reservation r)
              × (r.order_id ≡ env.new_id)
              × (r.status ≡ pending)
              × (r.created_at ≡ p.to_date env.now)
              × ((new : Order) × (order_by_id env.new_id db'.orders ≡ some new)
                  × (r.currency ≡ new.currency))
              × Answers db.products items r.items))
      × ((q : ℕ) → stock_of q db'.inventory ≡ raised (requested q items) (stock_of q db.inventory))
      × HasNewOrder env.new_id g db'.orders
      × ((q : ℕ) → line_quantity q (lines_of env.new_id db') ≡ requested q items)
      × All (λ i. p.parse_uuid i.product_id ≡ i.product_id) items
      × (db'.movements ≡ new_movements p env g user items ++ db.movements))
    ⊎ ((o.accepted ≡ false)
        × ((o.status ≡ 409)
            × ((y : Shortfall) × (ys : List Shortfall) × (o.body
                  ≡ rejection (insufficient_stock (y ∷ ys)))
                × All FallsShort (y ∷ ys)))
        × (db' ≡ db))

module _ (p : Platform) (env : Env) (organization user : ℕ) (i : ReservationItem)
    (is : List ReservationItem) (currency : Option String) (db : Db) where
  abbrev pub request : CreateReservation
  request = record { items = i ∷ is; currency = currency }

  -- On a database that keeps its invariant, with a fresh order id and a uuid reading that reads its
  -- own output back, a request for distinct products in positive quantities never throws: it
  -- reserves every line exactly or changes nothing, and keeps the invariant.
  pub reserve_stock_total :
      ReadsBack p
      → IsBacked db
      → order_by_id env.new_id db.orders ≡ none
      → NoRepeat (product_ids (i ∷ is))
      → Quantified (i ∷ is)
      → (o : OperationOutcome) × (db' : Db) × (reserve_stock p env organization user request db
          ≡ ok (o, db'))
        × IsBacked db'
        × Reserved p env organization user (i ∷ is) db o db'
  unfolding reserve_lines created new_order order_by_id
  reserve_stock_total reads w fresh distinct q =
      let rows = request_locks p env organization user request db in
      elim (List-cases (shortfalls (i ∷ is) rows)) [
        | inr (y, ys, short) ↦ (
          short_outcome p env organization user (y ∷ ys),
          db,
          reserve_stock-short p env organization user request db y ys short,
          w,
          inr (
            refl,
            (refl, (y, ys, refl, shortfalls-eq-FallsShort (i ∷ is) rows (y ∷ ys) short)),
            refl,
          ),
        )
        | inl enough ↦
            let itself : (env.new_id == env.new_id) ≡ true = ground arith in
            let f = reserve_scope p organization (i ∷ is) db.products in
            let covered = shortfalls-Covered f (i ∷ is) db.inventory w.keyed w.bounded q enough in
            let fits =
              Covered-Fits p organization (i ∷ is) db.products db.inventory (i ∷ is) reads w.keyed
                covered in
            let (t', ran, k, b, at) =
              reserve_lines-Moves (i ∷ is) rows db.inventory w.keyed w.bounded distinct covered in
            (
              created p env organization user request rows db.products,
              reserved_db p env organization user i is currency db rows t',
              reserve_stock-enough p env organization user request db enough
                  ∙ write_reservation-ok p env organization user i is currency db rows t' fresh q
                      ran,
              TablesBacked-reserve p env organization user (i ∷ is) currency db t' w fresh distinct
                  fits k b at,
              inl (
                refl,
                (
                  refl,
                  (
                    _,
                    refl,
                    refl,
                    refl,
                    refl,
                    (new_order p env organization user currency, rw itself refl, refl),
                    item_results-Answers p organization (i ∷ is) db.products db.inventory env user
                        (i ∷ is) w.keyed covered,
                  ),
                ),
                at,
                HasNewOrder-order p env organization user (i ∷ is) currency db,
                (λ q. lines_of-reserve p env organization user (i ∷ is) currency db q w fresh fits),
                All-map (Fits p organization (i ∷ is) db.products db.inventory)
                    (λ x. p.parse_uuid x.product_id ≡ x.product_id) (i ∷ is) (λ x f. f.0) fits,
                refl,
              ),
            )
      ]
