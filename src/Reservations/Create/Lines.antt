-- ===== src/Reservations/Create/Lines.antt =====
-- The loop of `reserveStock` (apps/api/src/reservations/reservations.service.ts): when no line falls
-- short, every line has its row, with the stock for it.
use fulfill_os.Prelude.{
  ℕ, ◌+◌, ◌≤◌, Bool, false, ◌≡◌, refl, ap, Option, none, some, List, [], ◌∷◌, arith, All, length,
  products_of,
}
use fulfill_os.Prelude.Int.{pos, ltb_ℤ}
use fulfill_os.Common.PostgresInt.{pg_int4_max}
use fulfill_os.Database.{Stock}
use fulfill_os.Stocks.{locked_row, lock_rows}
use fulfill_os.Stocks.Lookup.{IsKeyed}
use fulfill_os.Stocks.Locking.{locked_row-eq-some}
use fulfill_os.Stocks.Bounds.{IsBounded, stock_of-IsSound, update_stock-ok}
use fulfill_os.Stocks.Lines.{NoRepeat, Covered, IsRound, Moves, for_lines-Moves}
use fulfill_os.Reservations.Create.{
  ReservationItem, product_ids, set_size, shortfalls, available_of, reserve_line,
}

abbrev pub item_product : ReservationItem → ℕ
item_product i = i.product_id

abbrev pub item_quantity : ReservationItem → ℕ
item_quantity i = i.quantity

-- What a reservation makes of a row's counters, and when the row allows it.
abbrev pub reserve_on_hand : Stock → ℕ → ℕ
reserve_on_hand s n = s.on_hand

abbrev pub reserve_reserved : Stock → ℕ → ℕ
reserve_reserved s n = s.reserved + n

abbrev pub CanReserve : Stock → ℕ → Type 0
CanReserve s n = (s.reserved + n ≤ s.on_hand) × (s.on_hand ≤ pg_int4_max)

reserve-IsRound :
    IsRound item_product item_quantity reserve_line reserve_on_hand reserve_reserved CanReserve
unfolding reserve_line
reserve-IsRound = record {
  bounds = λ s n r. r;
  none_moved = λ s. (refl, omega arith);
  runs = λ i s t k h r.
      update_stock-ok i.product_id s.on_hand (s.reserved + i.quantity) t s (λ x. pos x.on_hand)
        (λ _. pos (s.reserved + i.quantity)) k h refl refl r.0 r.1;
}

abbrev pub Quantified : List ReservationItem → Type 0
Quantified = All (λ i. 1 ≤ i.quantity)

-- A line that does not fall short has its row, with enough stock.
shortfall-free :
    (i : ReservationItem) (row : Option Stock)
    → 1 ≤ i.quantity
    → ltb_ℤ (available_of row) (pos i.quantity) ≡ false
    → (s : Stock) × (row ≡ some s) × (s.reserved + i.quantity ≤ s.on_hand)
unfolding available_of
shortfall-free i none q h = absurd (ground arith)
shortfall-free i (some s) q h = (s, refl, ground arith)

shortfalls-cons :
    (i : ReservationItem) (is : List ReservationItem) (locked : List Stock)
    → shortfalls (i ∷ is) locked ≡ []
    → (ltb_ℤ (available_of (locked_row i.product_id locked)) (pos i.quantity) ≡ false)
      × (shortfalls is locked ≡ [])
unfolding shortfalls
shortfalls-cons i is locked h = ground arith

pub shortfalls-Covered :
    (f : Stock → Bool) (is : List ReservationItem) (t : List Stock)
    → IsKeyed t
    → IsBounded t
    → Quantified is
    → shortfalls is (lock_rows f t) ≡ []
    → Covered item_product item_quantity reserve_line reserve_on_hand reserve_reserved CanReserve is
        (lock_rows f t)
        t
shortfalls-Covered f [] t k b q h = tt
shortfalls-Covered f (i ∷ is) t k b q h =
    let (enough, rest) = shortfalls-cons i is (lock_rows f t) h in
    let (s, inmap, room) = shortfall-free i (locked_row i.product_id (lock_rows f t)) q.0 enough in
    let (intable, _) = locked_row-eq-some f i.product_id t s k inmap in
    (
      (s, inmap, intable, (room, (stock_of-IsSound i.product_id t s b intable).1)),
      shortfalls-Covered f is t k b q.1 rest,
    )

-- A request whose set of products is as long as its lines names no product twice.
set_size-le-length : (xs : List ℕ) → set_size xs ≤ length xs
unfolding set_size
set_size-le-length [] = omega arith
set_size-le-length (x ∷ xs) = ground (arith, set_size-le-length xs)

pub set_size-NoRepeat : (xs : List ℕ) → set_size xs ≡ length xs → NoRepeat xs
unfolding set_size
set_size-NoRepeat [] h = tt
set_size-NoRepeat (x ∷ xs) h = ground (arith, set_size-NoRepeat xs, set_size-le-length xs)

product_ids-eq : (is : List ReservationItem) → product_ids is ≡ products_of item_product is
product_ids-eq [] = refl
product_ids-eq (i ∷ is) = ap (λ xs. i.product_id ∷ xs) (product_ids-eq is)

-- The loop over such lines, and the table that it leaves.
pub reserve_lines-Moves :
    (is : List ReservationItem) (locked t : List Stock)
    → IsKeyed t
    → IsBounded t
    → NoRepeat (product_ids is)
    → Covered item_product item_quantity reserve_line reserve_on_hand reserve_reserved CanReserve is
        locked t
    → Moves item_product item_quantity reserve_line reserve_on_hand reserve_reserved CanReserve is
        locked t
reserve_lines-Moves is locked t k b d c =
    for_lines-Moves item_product item_quantity reserve_line reserve_on_hand reserve_reserved
      CanReserve is locked t reserve-IsRound k b (rw (← product_ids-eq is) d) c
