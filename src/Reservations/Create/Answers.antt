-- ===== src/Reservations/Create/Answers.antt =====
-- What `reserveStock` of apps/api/src/reservations/reservations.service.ts answers with, beside the
-- request and the catalog.
use fulfill_os.Prelude.{
  ℕ, ◌≡◌, refl, true, ap, ◌∙◌, sym, some, List, [], ◌∷◌, arith, All, Option-cases, inl, inr,
  Bool-cases,
}
use fulfill_os.Prelude.Int.{pos, ltb_ℤ}
use fulfill_os.Platform.{Platform, Env}
use fulfill_os.Common.Body.{ReservationItemResult, Shortfall}
use fulfill_os.Database.{Product, Stock}
use fulfill_os.Catalog.{product_of}
use fulfill_os.Stocks.{locked_row, lock_rows}
use fulfill_os.Stocks.Lookup.{IsKeyed, product-stock_of}
use fulfill_os.Stocks.Locking.{locked_row-eq-some}
use fulfill_os.Stocks.Lines.{Covered}
use fulfill_os.Reservations.Create.{
  ReservationItem, reserve_line, shortfalls, available_of, unit_price, price_of, has_product,
  reserve_scope, item_results,
}
use fulfill_os.Reservations.Create.Lines.{
  item_product, item_quantity, reserve_on_hand, reserve_reserved, CanReserve,
}

-- Line for line, the product and the quantity that were asked for, at the price of the catalog.
abbrev pub Answers : List Product → List ReservationItem → List ReservationItemResult → Type 0
Answers products [] [] = Unit
Answers products (i ∷ is) (r ∷ rs) =
    (r.product_id ≡ i.product_id)
    × (r.quantity ≡ i.quantity)
    × ((x : Product) × (product_of i.product_id products ≡ some x)
        × (r.unit_price_cents ≡ x.unit_price_cents))
    × Answers products is rs
Answers products _ _ = ⊥

-- A shortfall tells of less than was asked for.
abbrev pub FallsShort : Shortfall → Type 0
FallsShort y = ltb_ℤ y.available (pos y.requested) ≡ true

shortfalls-FallsShort :
    (items : List ReservationItem) (locked : List Stock) → All FallsShort (shortfalls items locked)
unfolding shortfalls
shortfalls-FallsShort [] locked = tt
shortfalls-FallsShort (i ∷ is) locked =
    let rest = shortfalls-FallsShort is locked in
    elim (Bool-cases (ltb_ℤ (available_of (locked_row i.product_id locked)) (pos i.quantity))) [
      | inl short ↦ rw short (short, rest)
      | inr enough ↦ rw enough rest
    ]

pub shortfalls-eq-FallsShort :
    (items : List ReservationItem) (locked : List Stock) (ys : List Shortfall)
    → shortfalls items locked ≡ ys
    → All FallsShort ys
shortfalls-eq-FallsShort items locked ys e = rw (← e) (shortfalls-FallsShort items locked)

unit_price-locked :
    (i : ℕ) (locked : List Stock) (products : List Product) (s : Stock) (x : Product)
    → locked_row i locked ≡ some s
    → product_of s.product_id products ≡ some x
    → unit_price locked products i ≡ x.unit_price_cents
unfolding unit_price price_of
unit_price-locked i locked products s x inmap known =
    rw (inmap, unit_price) (rw (known, price_of) refl)

module _ (p : Platform) (g : ℕ) (items : List ReservationItem) (products : List Product)
    (t : List Stock) where
  scope-has_product :
      (s : Stock)
      → reserve_scope p g items products s ≡ true
      → (x : Product) × (product_of s.product_id products ≡ some x)
  unfolding reserve_scope has_product
  scope-has_product s h = elim (Option-cases (product_of s.product_id products)) [
    | inl unknown ↦ absurd (ground (arith, h, unknown))
    | inr known ↦ known
  ]

  pub item_results-Answers :
      (env : Env) (user : ℕ) (is : List ReservationItem)
      → IsKeyed t
      → Covered item_product item_quantity reserve_line reserve_on_hand reserve_reserved CanReserve
          is
          (lock_rows (reserve_scope p g items products) t)
          t
      → Answers products is
          (item_results p env g user is (lock_rows (reserve_scope p g items products) t) products)
  unfolding item_results
  item_results-Answers env user [] k c = tt
  item_results-Answers env user (i ∷ is) k ((s, inmap, intable, _), c) =
      let (_, scoped) =
        locked_row-eq-some (reserve_scope p g items products) i.product_id t s k inmap in
      let (x, known) = scope-has_product s scoped in
      let e = product-stock_of i.product_id t s intable in
      (
        refl,
        refl,
        (
          x,
          ap (λ q. product_of q products) (sym e) ∙ known,
          unit_price-locked i.product_id _ products s x inmap known,
        ),
        item_results-Answers env user is k c,
      )
