-- ===== src/Reservations/Create/Fits.antt =====
-- What the locks of `reserveStock` (apps/api/src/reservations/reservations.service.ts) say of the
-- lines of a request, and what its new lines add to the pending orders.
use fulfill_os.Prelude.{
  ℕ, Bool, true, ◌≡◌, refl, ◌≢◌, ap, none, some, List, [], ◌∷◌, arith, ◌==◌, ==_iff, if◌then◌else◌,
  inl, inr, Bool-cases, All, contains,
}
use fulfill_os.Platform.{Platform, Env}
use fulfill_os.Database.{Product, Stock, Order, OrderItem}
use fulfill_os.OrderTable.{order_by_id, positive_quantities}
use fulfill_os.Stocks.{stock_of, lock_rows}
use fulfill_os.Stocks.Lookup.{IsKeyed, product-stock_of}
use fulfill_os.Stocks.Locking.{locked_row-eq-some}
use fulfill_os.Stocks.Lines.{Covered, quantity_of}
use fulfill_os.Reservations.Held.{held, held_by, count_lines, count}
use fulfill_os.Reservations.Backed.{HasOrder}
use fulfill_os.Reservations.Create.{
  ReservationItem, product_ids, parsed_ids, reserve_scope, reserve_line, new_items,
}
use fulfill_os.Reservations.Create.Lines.{
  item_product, item_quantity, reserve_on_hand, reserve_reserved, CanReserve, Quantified,
}

-- PostgreSQL reads back the uuid that it prints.
abbrev pub ReadsBack : Platform → Type 0
ReadsBack p = (x : ℕ) → p.parse_uuid (p.parse_uuid x) ≡ p.parse_uuid x

parsed_ids-fixed :
    (p : Platform) (q : ℕ) (is : List ReservationItem)
    → ReadsBack p
    → contains q (parsed_ids p is) ≡ true
    → p.parse_uuid q ≡ q
unfolding parsed_ids
parsed_ids-fixed p q [] reads h = cc
parsed_ids-fixed p q (i ∷ is) reads h =
    ground (arith, parsed_ids-fixed p q is reads, reads i.product_id)

module _ (p : Platform) (organization : ℕ) (items : List ReservationItem) (products : List Product)
    (t : List Stock) where
  abbrev pub scope : Stock → Bool
  scope = reserve_scope p organization items products

  -- The line's text is the stored uuid, and its row is the organization's.
  abbrev pub Fits : ReservationItem → Type 0
  Fits i =
      (p.parse_uuid i.product_id ≡ i.product_id)
      × ((s : Stock) × (stock_of i.product_id t ≡ some s) × (s.organization_id ≡ organization))

  scope-organization :
      (s : Stock)
      → scope s ≡ true
      → (s.organization_id ≡ organization) × (contains s.product_id (parsed_ids p items) ≡ true)
  unfolding reserve_scope
  scope-organization s h = ground arith

  pub Covered-Fits :
      (is : List ReservationItem)
      → ReadsBack p
      → IsKeyed t
      → Covered item_product item_quantity reserve_line reserve_on_hand reserve_reserved CanReserve
          is
          (lock_rows scope t)
          t
      → All Fits is
  Covered-Fits [] reads k c = tt
  Covered-Fits (i ∷ is) reads k ((s, inmap, intable, _), c) =
      let (_, in_scope) = locked_row-eq-some scope i.product_id t s k inmap in
      let (same, named) = scope-organization s in_scope in
      let e = product-stock_of i.product_id t s intable in
      (
        (rw e at (parsed_ids-fixed p s.product_id items reads named), (s, intable, same)),
        Covered-Fits is reads k c,
      )

  pub quantity_of-no_stock :
      (q : ℕ) (is : List ReservationItem)
      → All Fits is
      → stock_of q t ≡ none
      → quantity_of item_product item_quantity q is ≡ 0
  quantity_of-no_stock q [] a h = refl
  quantity_of-no_stock q (i ∷ is) (f, a) h = elim (Bool-cases (i.product_id == q)) [
    | inl same ↦ cc (f.1.1, h, ap (λ x. stock_of x t) ((==_iff i.product_id q).0 same))
    | inr other ↦ rw other (quantity_of-no_stock q is a h)
  ]

module _ (p : Platform) (env : Env) (organization user : ℕ) (locked : List Stock)
    (products : List Product) where
  abbrev pub added : List ReservationItem → List OrderItem
  added is = new_items p env organization user is locked products

  pub positive-added :
      (is : List ReservationItem) → Quantified is → positive_quantities (added is) ≡ true
  unfolding new_items positive_quantities
  positive-added [] q = refl
  positive-added (i ∷ is) q = ground (arith, positive-added is q.1)

  abbrev pub Fixed : ReservationItem → Type 0
  Fixed i = p.parse_uuid i.product_id ≡ i.product_id

  pub held_by-added :
      (f : ℕ → Bool) (q : ℕ) (is : List ReservationItem)
      → f env.new_id ≡ true
      → All Fixed is
      → held_by f q (added is) ≡ quantity_of item_product item_quantity q is
  unfolding new_items
  held_by-added f q [] open_order a = refl
  held_by-added f q (i ∷ is) open_order a =
      rw (a.0, open_order) (ground (arith, held_by-added f q is open_order a.1))

  pub count_lines-added :
      (j q : ℕ) (is : List ReservationItem)
      → All Fixed is
      → count_lines j q (added is) ≡ (if env.new_id == j then count q (product_ids is) else 0)
  unfolding new_items
  count_lines-added j q [] a = ground arith
  count_lines-added j q (i ∷ is) a = rw a.0 (ground (arith, count_lines-added j q is a.1))

  -- Every added line belongs to the new order, and to the stock row that it was reserved from.
  pub HasOrder-added :
      (o : Order) (orders : List Order) (is : List ReservationItem)
      → o.id ≡ env.new_id
      → o.organization_id ≡ organization
      → All (HasOrder (o ∷ orders)) (added is)
  unfolding new_items order_by_id
  HasOrder-added o orders [] e g = tt
  HasOrder-added o orders (i ∷ is) e g = ((o, ground arith, g), HasOrder-added o orders is e g)

-- The lines of other orders do not notice a new order.
module _ (o : Order) (orders : List Order) (fresh : order_by_id o.id orders ≡ none) where
  HasOrder-ne : (x : OrderItem) → HasOrder orders x → x.order_id ≢ o.id
  HasOrder-ne x (r, found, _) e = cc (found, ap (λ i. order_by_id i orders) e, fresh)

  pub HasOrder-cons : (x : OrderItem) → HasOrder orders x → HasOrder (o ∷ orders) x
  unfolding order_by_id
  HasOrder-cons x h = (h.0, ground (arith, HasOrder-ne x h, h.1), h.2)

  pub count_lines-fresh :
      (q : ℕ) (xs : List OrderItem) → All (HasOrder orders) xs → count_lines o.id q xs ≡ 0
  count_lines-fresh q [] a = refl
  count_lines-fresh q (x ∷ xs) a = ground (arith, HasOrder-ne x a.0, count_lines-fresh q xs a.1)

  pub held_by-fresh :
      (q : ℕ) (xs : List OrderItem) → All (HasOrder orders) xs → held_by (λ j. j == o.id) q xs ≡ 0
  held_by-fresh q [] a = refl
  held_by-fresh q (x ∷ xs) a = ground (arith, HasOrder-ne x a.0, held_by-fresh q xs a.1)

  pub held-cons :
      (q : ℕ) (xs : List OrderItem)
      → All (HasOrder orders) xs
      → held (o ∷ orders) q xs ≡ held orders q xs
  unfolding order_by_id
  held-cons q [] a = refl
  held-cons q (x ∷ xs) a = ground (arith, HasOrder-ne x a.0, held-cons q xs a.1)
