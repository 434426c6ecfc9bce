-- ===== src/Ledger/Writes.antt =====
-- The operations of apps/api/src/reservations/reservations.service.ts and apps/api/src/inventory/
-- inventory.service.ts write a movement for every change of a count.
use fulfill_os.Prelude.{
  ℕ, ◌+◌, ◌≤◌, ◌≡◌, refl, true, Bool, List, [], ◌∷◌, arith, ◌==◌, inl, inr, Option-cases,
  Bool-cases,
}
use fulfill_os.Prelude.Int.{ℤ, pos, pos_part, neg_part, ◌+ℤ◌, +ℤ_parts}
use fulfill_os.Platform.{Platform, Env}
use fulfill_os.Common.Outcome.{OperationOutcome}
use fulfill_os.Database.{Db, OrderItem}
use fulfill_os.Stocks.{stock_of}
use fulfill_os.Stocks.Bounds.{stock_of-IsSound}
use fulfill_os.Ledger.{IsExplained-append, IsExplained}
use fulfill_os.Ledger.Entries.{
  new_movements-entries, release_movements-entries, fulfill_movements-entries,
}
use fulfill_os.Reservations.Held.{is_open, held_by, line_quantity, line_quantity-items_of}
use fulfill_os.Reservations.Backed.{IsBacked, on_hand_of, reserved_of}
use fulfill_os.Reservations.Closing.Lines.{lines_of}
use fulfill_os.Reservations.Create.{ReservationItem, new_movements}
use fulfill_os.Reservations.Create.Safety.{Reserved}
use fulfill_os.Reservations.Release.{release_movements}
use fulfill_os.Reservations.Release.Safety.{Released}
use fulfill_os.Reservations.Fulfill.{fulfill_movements}
use fulfill_os.Reservations.Fulfill.Safety.{Fulfilled}
use fulfill_os.Inventory.{AdjustInventory, adjustment}
use fulfill_os.Inventory.Safety.{Adjusted}

-- The lines of an open order are held.
held_by-one :
    (f : ℕ → Bool) (i q : ℕ) (xs : List OrderItem)
    → f i ≡ true
    → held_by (λ j. j == i) q xs ≤ held_by f q xs
held_by-one f i q [] h = omega arith
held_by-one f i q (x ∷ xs) h = ground (arith, held_by-one f i q xs h)

-- So a row has them reserved, and on hand.
pub lines-le :
    (db : Db) (i q : ℕ)
    → IsBacked db
    → is_open db.orders i ≡ true
    → (line_quantity q (lines_of i db) ≤ reserved_of (stock_of q db.inventory))
      × (reserved_of (stock_of q db.inventory) ≤ on_hand_of (stock_of q db.inventory))
lines-le db i q w h = (
  rw (line_quantity-items_of i q db.order_items, w.backed q)
      (held_by-one (is_open db.orders) i q db.order_items h),
  elim (Option-cases (stock_of q db.inventory)) [
    | inl free ↦ rw free (omega arith)
    | inr (s, found) ↦ rw found (stock_of-IsSound q db.inventory s w.bounded found).0
  ],
)

module _ (p : Platform) (env : Env) (g user : ℕ) (db db' : Db) (o : OperationOutcome) where
  pub Reserved-IsExplained :
      (items : List ReservationItem)
      → IsBacked db'
      → Reserved p env g user items db o db'
      → IsExplained db.inventory db.movements
      → IsExplained db'.inventory db'.movements
  Reserved-IsExplained items w (inr (_, _, same)) e = rw same e
  Reserved-IsExplained items w (inl (_, _, at, (new, placed, _, open_order), lines, fixed, logged))
        e =
      IsExplained-append db.inventory db'.inventory (new_movements p env g user items) db.movements
        db'.movements e logged
        λ q.
          let (added, none_taken, none_put, none_gone) =
            new_movements-entries p env g user q items fixed in
          let held_now = (lines-le db' env.new_id q w (rw (placed, is_open) open_order)).0 in
          rw (added, none_taken, none_put, none_gone, at q)
            (elim (Option-cases (stock_of q db.inventory)) [
              | inl free ↦ rw free (ground (arith, at q, free, held_now, lines q))
              | inr (s, found) ↦ rw found (refl, omega arith)
            ])

  module _ (w : IsBacked db) (i : ℕ) where
    pub Released-IsExplained :
        Released p env g user i db o db'
        → IsExplained db.inventory db.movements
        → IsExplained db'.inventory db'.movements
    Released-IsExplained (inr (_, _, same, _)) e = rw same e
    Released-IsExplained (inl (_, _, (was, found, open_order, _), at, logged)) e =
        IsExplained-append db.inventory db'.inventory
          (release_movements p env g user i (lines_of i db)) db.movements db'.movements e logged
          λ q.
            let (gone, none_added, none_put, none_taken) =
              release_movements-entries p env g user i q (lines_of i db) in
            let (enough, sound) = lines-le db i q w (rw (found, is_open) open_order) in
            rw (gone, none_added, none_put, none_taken, at q)
              (elim (Option-cases (stock_of q db.inventory)) [
                | inl free ↦ rw free (ground (arith, free, enough))
                | inr (s, row) ↦ rw row (ground (arith, row, enough, sound))
              ])

    pub Fulfilled-IsExplained :
        Fulfilled p env g user i db o db'
        → IsExplained db.inventory db.movements
        → IsExplained db'.inventory db'.movements
    Fulfilled-IsExplained (inr (_, _, same, _)) e = rw same e
    Fulfilled-IsExplained (inl (_, _, (was, found, open_order, _), at, logged)) e =
        IsExplained-append db.inventory db'.inventory
          (fulfill_movements p env g user i (lines_of i db)) db.movements db'.movements e logged
          λ q.
            let (gone, taken, none_added, none_put) =
              fulfill_movements-entries p env g user i q (lines_of i db) in
            let (enough, sound) = lines-le db i q w (rw (found, is_open) open_order) in
            rw (gone, taken, none_added, none_put, at q)
              (elim (Option-cases (stock_of q db.inventory)) [
                | inl free ↦ rw free (ground (arith, free, enough))
                | inr (s, row) ↦ rw row (ground (arith, row, enough, sound))
              ])

-- One entry of a product whose count moves by its delta.
delta-entry :
    (a b : ℕ) (delta : ℤ) → pos b ≡ pos a +ℤ delta → b + neg_part delta ≡ a + pos_part delta
delta-entry a b delta h = let sum = +ℤ_parts (pos a) delta in ground (arith, h, sum)

pub Adjusted-IsExplained :
    (p : Platform) (env : Env) (g : ℕ) (dto : AdjustInventory) (db db' : Db) (o : OperationOutcome)
    → Adjusted p env g dto db o db'
    → IsExplained db.inventory db.movements
    → IsExplained db'.inventory db'.movements
unfolding adjustment
Adjusted-IsExplained p env g dto db db' o (inr (_, _, same, _)) e = rw same e
Adjusted-IsExplained p env g dto db db' o (inl (_, _, moved, kept, others, logged)) e =
    let i = p.parse_uuid dto.product_id in
    IsExplained-append db.inventory db'.inventory (adjustment p env g dto ∷ []) db.movements
      db'.movements e logged
      λ q. elim (Bool-cases (i == q)) [
        | inl same ↦
            (ground (arith, same, delta-entry _ _ dto.delta moved), ground (arith, same, kept q))
        | inr other ↦ (ground (arith, other, others q), ground (arith, other, kept q))
      ]
