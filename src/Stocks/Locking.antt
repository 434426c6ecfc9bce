-- ===== src/Stocks/Locking.antt =====
-- The rows that are locked, as the Map of them finds them.
use fulfill_os.Prelude.{
  ℕ, Bool, true, ◌≡◌, refl, Option, none, some, List, [], ◌∷◌, arith, ◌==◌, if◌then◌else◌, filterb,
  inl, inr, Bool-cases, ap, ◌∙◌,
}
use fulfill_os.Database.{Stock}
use fulfill_os.Stocks.{stock_of, insert_by_product, sort_by_product, locked_row, lock_rows}
use fulfill_os.Stocks.Lookup.{IsKeyed}

abbrev keep : (Stock → Bool) → Option Stock → Option Stock
keep p none = none
keep p (some s) = if p s then some s else none

locked_row-insert :
    (p : ℕ) (s : Stock) (t : List Stock)
    → locked_row s.product_id t ≡ none
    → locked_row p (insert_by_product s t) ≡ (if s.product_id == p then some s else locked_row p t)
unfolding locked_row insert_by_product
locked_row-insert p s [] h = refl
locked_row-insert p s (x ∷ t) h = ground (arith, locked_row-insert p s t)

stock_of-filterb-none :
    (f : Stock → Bool) (p : ℕ) (t : List Stock)
    → stock_of p t ≡ none
    → stock_of p (filterb f t) ≡ none
unfolding stock_of
stock_of-filterb-none f p [] h = refl
stock_of-filterb-none f p (x ∷ t) h = ground (arith, stock_of-filterb-none f p t)

-- The Map of the sorted, filtered rows finds the row of a product, if the filter keeps it.
locked_row-sort :
    (f : Stock → Bool) (p : ℕ) (t : List Stock)
    → IsKeyed t
    → locked_row p (sort_by_product (filterb f t)) ≡ keep f (stock_of p t)
unfolding sort_by_product stock_of
locked_row-sort f p [] k = unfold locked_row in refl
locked_row-sort f p (x ∷ t) k = elim (Bool-cases (f x)) [
  | inl kept ↦ rw kept (
      locked_row-insert p x (sort_by_product (filterb f t))
        (locked_row-sort f x.product_id t k.2 ∙ ap (keep f) k.1)
      ∙ ground (arith, locked_row-sort f p t k.2))
  | inr dropped ↦ rw dropped (ground (arith, locked_row-sort f p t k.2, k.1))
]

module _ (f : Stock → Bool) (p : ℕ) (t : List Stock) (s : Stock) (keyed : IsKeyed t) where
  -- What the Map of the locked rows holds for a product: its row, if it is in scope.
  pub locked_row-lock_rows :
      stock_of p t ≡ some s → f s ≡ true → locked_row p (lock_rows f t) ≡ some s
  unfolding lock_rows
  locked_row-lock_rows h scope = locked_row-sort f p t keyed ∙ (rw (h, scope) refl)

  -- A row that the Map holds is the product's row in the table, and in scope.
  pub locked_row-eq-some :
      locked_row p (lock_rows f t) ≡ some s → (stock_of p t ≡ some s) × (f s ≡ true)
  unfolding lock_rows
  locked_row-eq-some h = ground (arith, locked_row-sort f p t keyed)
