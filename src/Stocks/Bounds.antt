-- ===== src/Stocks/Bounds.antt =====
-- The bounds of the counters: what the CHECK constraints of apps/api/src/database/schema/
-- inventory.schema.ts and the column type promise of every stored row.
use fulfill_os.Prelude.{ℕ, ◌≤◌, ◌≡◌, refl, some, List, [], ◌∷◌, arith}
use fulfill_os.Prelude.Int.{ℤ, pos}
use fulfill_os.Common.PostgresInt.{pg_int4_max}
use fulfill_os.Database.{Stock}
use fulfill_os.Database.Tx.{ok}
use fulfill_os.Stocks.{stock_of, set_counts, update_stock}
use fulfill_os.Stocks.Lookup.{IsKeyed, stock_by_id-stock_of, checked_counts-ok}

-- `reserved <= on_hand`, and both are in range.
abbrev pub IsSound : Stock → Type 0
IsSound s = (s.reserved ≤ s.on_hand) × (s.on_hand ≤ pg_int4_max)

abbrev pub IsBounded : List Stock → Type 0
IsBounded [] = Unit
IsBounded (s ∷ t) = IsSound s × IsBounded t

pub stock_of-IsSound :
    (p : ℕ) (t : List Stock) (s : Stock) → IsBounded t → stock_of p t ≡ some s → IsSound s
unfolding stock_of
stock_of-IsSound p [] s b h = cc
stock_of-IsSound p (x ∷ t) s b h = ground (arith, stock_of-IsSound p t s b.1)

pub set_counts-IsBounded :
    (i a b : ℕ) (t : List Stock)
    → b ≤ a
    → a ≤ pg_int4_max
    → IsBounded t
    → IsBounded (set_counts i a b t)
unfolding set_counts
set_counts-IsBounded i a b [] h m k = tt
set_counts-IsBounded i a b (x ∷ t) h m k = ground (arith, set_counts-IsBounded i a b t h m k.1)

-- An update within the constraints succeeds.
pub update_stock-ok :
    (p a b : ℕ) (t : List Stock) (s : Stock) (f g : Stock → ℤ)
    → IsKeyed t
    → stock_of p t ≡ some s
    → f s ≡ pos a
    → g s ≡ pos b
    → b ≤ a
    → a ≤ pg_int4_max
    → update_stock s.id f g t ≡ ok (set_counts s.id a b t)
unfolding update_stock
update_stock-ok p a b t s f g k h fa gb le m =
    rw (stock_by_id-stock_of p t s k h, update_stock)
      (rw (fa, gb) (rw (checked_counts-ok a b le m) refl))
