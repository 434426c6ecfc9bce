-- ===== src/Reservations/Undo.antt =====
-- A reservation and then a release of its order (apps/api/src/reservations/reservations.service.ts).
use fulfill_os.Prelude.{
  ℕ, ◌≡◌, refl, ◌∙◌, ◌≢◌, sym, ap, true, String, Option, none, some, List, [], ◌∷◌, arith, inl, inr,
}
use fulfill_os.Platform.{Platform, Env}
use fulfill_os.Common.Outcome.{OperationOutcome}
use fulfill_os.Database.{Db, Stock, Order}
use fulfill_os.Database.Enums.{is_pending}
use fulfill_os.Database.Tx.{ok}
use fulfill_os.OrderTable.{find_order, is_pending_order, order_by_id}
use fulfill_os.Stocks.{stock_of}
use fulfill_os.Stocks.Lines.{NoRepeat}
use fulfill_os.Reservations.Backed.{IsBacked}
use fulfill_os.Reservations.Create.{ReservationItem, product_ids, reserve_stock}
use fulfill_os.Reservations.Create.Lines.{Quantified}
use fulfill_os.Reservations.Create.Fits.{ReadsBack}
use fulfill_os.Reservations.Create.Commit.{raised, requested}
use fulfill_os.Reservations.Create.Safety.{Reserved, reserve_stock_total}
use fulfill_os.Reservations.Release.{release_line, release_stock}
use fulfill_os.Reservations.Release.Safety.{release_stock_total, kept_on_hand}
use fulfill_os.Reservations.Closing.Lines.{taken}
use fulfill_os.Reservations.Race.{ok-injective}

-- A pending order is found by its id and organization.
find_order-open :
    (i : ℕ) (os : List Order) (o : Order)
    → order_by_id i os ≡ some o
    → is_pending o.status ≡ true
    → find_order (is_pending_order i o.organization_id) os ≢ none
unfolding find_order order_by_id
find_order-open i [] o h c = cc
find_order-open i (x ∷ os) o h c = ground (arith, find_order-open i os o)

taken-raised : (n : ℕ) (row : Option Stock) → taken release_line kept_on_hand n (raised n row) ≡ row
taken-raised n none = refl
taken-raised n (some s) = ground arith

module _ (p : Platform) (env later : Env) (g user anyone : ℕ) (i : ReservationItem)
    (is : List ReservationItem) (currency : Option String) where
  abbrev Undone : Db → Db → Type 0
  Undone db db1 =
      (o2 : OperationOutcome) × (db2 : Db) × (release_stock p later g anyone env.new_id db1
        ≡ ok (o2, db2))
      × (o2.accepted ≡ true)
      × ((q : ℕ) → stock_of q db2.inventory ≡ stock_of q db.inventory)

  Reserved-Undone :
      (db db1 : Db) (o : OperationOutcome)
      → IsBacked db1
      → o.accepted ≡ true
      → Reserved p env g user (i ∷ is) db o db1
      → Undone db db1
  Reserved-Undone db db1 o w accepted (inr (refused, _, _)) = cc
  Reserved-Undone db db1 o w accepted
        (inl (_, _, raises, (new, placed, mine, open_order), lines, _, _)) =
      let (o2, db2, ran, _, did) = release_stock_total p later g anyone env.new_id db1 w in
      elim did [
        | inr (_, _, _, missing) ↦
            absurd (find_order-open env.new_id db1.orders new placed open_order (rw mine missing))
        | inl (done, _, _, lowers, _) ↦ (
          o2,
          db2,
          ran,
          done,
          λ q.
              lowers q
              ∙ rw (lines q, raises q)
                  (taken-raised (requested q (i ∷ is)) (stock_of q db.inventory)),
        )
      ]

  -- On a database that keeps its invariant, with a fresh order id and a uuid reading that reads its
  -- own output back, after an accepted request for distinct products in positive quantities a
  -- release of the new order, by whomever of the organization, is accepted, and puts every stock row
  -- back as it was before the request.
  pub release_stock-reserve_stock :
      (db db1 : Db) (o1 : OperationOutcome)
      → ReadsBack p
      → IsBacked db
      → order_by_id env.new_id db.orders ≡ none
      → NoRepeat (product_ids (i ∷ is))
      → Quantified (i ∷ is)
      → reserve_stock p env g user (record { items = i ∷ is; currency = currency }) db
        ≡ ok (o1, db1)
      → o1.accepted ≡ true
      → (o2 : OperationOutcome) × (db2 : Db) × (release_stock p later g anyone env.new_id db1
          ≡ ok (o2, db2))
        × (o2.accepted ≡ true)
        × ((q : ℕ) → stock_of q db2.inventory ≡ stock_of q db.inventory)
  release_stock-reserve_stock db db1 o1 reads w fresh distinct q ran accepted =
      let (o, db', ran', w', did) =
        reserve_stock_total p env g user i is currency db reads w fresh distinct q in
      let (answer, state) = ok-injective o1 o db1 db' (sym ran ∙ ran') in
      rw state (
        Reserved-Undone db db' o w'
          (ap {A = OperationOutcome} (λ a. a.accepted) (sym answer) ∙ accepted) did)
