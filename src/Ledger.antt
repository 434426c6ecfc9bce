-- ===== src/Ledger.antt =====
-- The movements that apps/api/src/reservations/reservations.service.ts, apps/api/src/inventory/
-- inventory.service.ts and apps/api/src/products/products.service.ts write, read as a ledger: the
-- counts of every stock row are what its movements add up to.
pub mod Entries
pub mod Writes
use fulfill_os.Prelude.{ℕ, ◌+◌, ◌≡◌, List, [], ◌∷◌, ◌++◌, ◌==◌, if◌then◌else◌, arith}
use fulfill_os.Prelude.Int.{ℤ, pos_part, neg_part}
use fulfill_os.Database.{Db, Stock, Movement}
use fulfill_os.Stocks.{stock_of}
use fulfill_os.Reservations.Backed.{on_hand_of, reserved_of}

-- What the movements of a product add to a count, and what they take from it.
abbrev pub put_in : (Movement → ℤ) → ℕ → List Movement → ℕ
put_in delta q [] = 0
put_in delta q (m ∷ ms) =
    if m.product_id == q then pos_part (delta m) + put_in delta q ms else put_in delta q ms

abbrev pub taken_out : (Movement → ℤ) → ℕ → List Movement → ℕ
taken_out delta q [] = 0
taken_out delta q (m ∷ ms) =
    if m.product_id == q then neg_part (delta m) + taken_out delta q ms else taken_out delta q ms

abbrev pub on_hand_delta : Movement → ℤ
on_hand_delta m = m.on_hand_delta

abbrev pub reserved_delta : Movement → ℤ
reserved_delta m = m.reserved_delta

pub record IsExplained (inventory : List Stock) (movements : List Movement) : Type 0 where
  pub on_hand :
      (q : ℕ)
      → on_hand_of (stock_of q inventory) + taken_out on_hand_delta q movements
        ≡ put_in on_hand_delta q movements
  pub reserved :
      (q : ℕ)
      → reserved_of (stock_of q inventory) + taken_out reserved_delta q movements
        ≡ put_in reserved_delta q movements

pub put_in-append :
    (delta : Movement → ℤ) (q : ℕ) (xs ys : List Movement)
    → put_in delta q (xs ++ ys) ≡ put_in delta q xs + put_in delta q ys
put_in-append delta q [] ys = omega arith
put_in-append delta q (x ∷ xs) ys = ground (arith, put_in-append delta q xs ys)

pub taken_out-append :
    (delta : Movement → ℤ) (q : ℕ) (xs ys : List Movement)
    → taken_out delta q (xs ++ ys) ≡ taken_out delta q xs + taken_out delta q ys
taken_out-append delta q [] ys = omega arith
taken_out-append delta q (x ∷ xs) ys = ground (arith, taken_out-append delta q xs ys)

-- Movements that account for the change of every count keep the ledger.
pub IsExplained-append :
    (t t' : List Stock) (ms old new : List Movement)
    → IsExplained t old
    → new ≡ ms ++ old
    → ((q : ℕ)
        → (on_hand_of (stock_of q t') + taken_out on_hand_delta q ms
            ≡ on_hand_of (stock_of q t) + put_in on_hand_delta q ms)
          × (reserved_of (stock_of q t') + taken_out reserved_delta q ms
              ≡ reserved_of (stock_of q t) + put_in reserved_delta q ms))
    → IsExplained t' new
IsExplained-append t t' ms old new e logged step = rw logged (record {
  on_hand = λ q.
      rw (put_in-append on_hand_delta q ms old, taken_out-append on_hand_delta q ms old)
        (omega (arith, e.on_hand q, (step q).0));
  reserved = λ q.
      rw (put_in-append reserved_delta q ms old, taken_out-append reserved_delta q ms old)
        (omega (arith, e.reserved q, (step q).1));
})
