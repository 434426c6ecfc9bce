-- ===== src/Stocks/Lookup.antt =====
-- The row of each product under the statements of `Stocks`.
use fulfill_os.Prelude.{
  ℕ, ◌≤◌, ◌≡◌, refl, ◌≢◌, none, some, List, [], ◌∷◌, arith, ◌==◌, if◌then◌else◌,
}
use fulfill_os.Prelude.Int.{ℤ, pos}
use fulfill_os.Common.PostgresInt.{pg_int4_max}
use fulfill_os.Database.{Stock}
use fulfill_os.Database.Tx.{ok}
use fulfill_os.Stocks.{stock_of, stock_by_id, set_counts, checked_counts}

-- The keys of the table: no id and no product stands twice.
abbrev pub IsKeyed : List Stock → Type 0
IsKeyed [] = Unit
IsKeyed (s ∷ t) = (stock_by_id s.id t ≡ none) × (stock_of s.product_id t ≡ none) × IsKeyed t

-- A row that is found is the row of its own product, and its id is in the table.
pub product-stock_of :
    (p : ℕ) (t : List Stock) (s : Stock) → stock_of p t ≡ some s → s.product_id ≡ p
unfolding stock_of
product-stock_of p [] s h = cc
product-stock_of p (x ∷ t) s h = ground (arith, product-stock_of p t s)

stock_by_id-ne-none :
    (p : ℕ) (t : List Stock) (s : Stock) → stock_of p t ≡ some s → stock_by_id s.id t ≢ none
unfolding stock_of stock_by_id
stock_by_id-ne-none p [] s h = cc
stock_by_id-ne-none p (x ∷ t) s h = ground (arith, stock_by_id-ne-none p t s)

-- In a keyed table the row of a product is the row of its id.
pub stock_by_id-stock_of :
    (p : ℕ) (t : List Stock) (s : Stock)
    → IsKeyed t
    → stock_of p t ≡ some s
    → stock_by_id s.id t ≡ some s
unfolding stock_of stock_by_id
stock_by_id-stock_of p [] s k h = cc
stock_by_id-stock_of p (x ∷ t) s k h =
    ground (arith, stock_by_id-stock_of p t s k.2, stock_by_id-ne-none p t s)

set_counts-absent : (i a b : ℕ) (t : List Stock) → stock_by_id i t ≡ none → set_counts i a b t ≡ t
unfolding stock_by_id set_counts
set_counts-absent i a b [] h = refl
set_counts-absent i a b (x ∷ t) h = ground (arith, set_counts-absent i a b t)

abbrev pub with_counts : ℕ → ℕ → Stock → Stock
with_counts a b s = record s { on_hand = a; reserved = b }

-- An update by a row's id changes the row of its product, and no other.
pub stock_of-set_counts :
    (p q a b : ℕ) (t : List Stock) (s : Stock)
    → IsKeyed t
    → stock_of p t ≡ some s
    → stock_of q (set_counts s.id a b t)
      ≡ (if p == q then some (with_counts a b s) else stock_of q t)
unfolding stock_of set_counts
stock_of-set_counts p q a b [] s k h = cc
stock_of-set_counts p q a b (x ∷ t) s k h = ground (
  arith,
  stock_of-set_counts p q a b t s k.2,
  set_counts-absent s.id a b t,
  stock_by_id-ne-none p t s,
)

stock_of-set_counts-none :
    (p i a b : ℕ) (t : List Stock) → stock_of p t ≡ none → stock_of p (set_counts i a b t) ≡ none
unfolding stock_of set_counts
stock_of-set_counts-none p i a b [] h = refl
stock_of-set_counts-none p i a b (x ∷ t) h = ground (arith, stock_of-set_counts-none p i a b t)

stock_by_id-set_counts-none :
    (j i a b : ℕ) (t : List Stock)
    → stock_by_id j t ≡ none
    → stock_by_id j (set_counts i a b t) ≡ none
unfolding stock_by_id set_counts
stock_by_id-set_counts-none j i a b [] h = refl
stock_by_id-set_counts-none j i a b (x ∷ t) h =
    ground (arith, stock_by_id-set_counts-none j i a b t)

pub set_counts-IsKeyed : (i a b : ℕ) (t : List Stock) → IsKeyed t → IsKeyed (set_counts i a b t)
unfolding set_counts
set_counts-IsKeyed i a b [] k = tt
set_counts-IsKeyed i a b (x ∷ t) k = ground (
  arith,
  set_counts-IsKeyed i a b t k.2,
  stock_by_id-set_counts-none x.id i a b t k.0,
  stock_of-set_counts-none x.product_id i a b t k.1,
)

-- Columns within the constraints are stored as they are.
pub checked_counts-ok :
    (a b : ℕ) → b ≤ a → a ≤ pg_int4_max → checked_counts (pos a) (pos b) ≡ ok (a, b)
unfolding checked_counts
checked_counts-ok a b h m = ground arith

-- What is stored satisfies the constraints.
pub checked_counts_bounds :
    (a b : ℤ) (x y : ℕ) → checked_counts a b ≡ ok (x, y) → (y ≤ x) × (x ≤ pg_int4_max)
unfolding checked_counts
checked_counts_bounds a b x y h = ground arith
