-- ===== src/Stocks/Lines.antt =====
-- The loops over the lines of an order, once for all three operations: over distinct products,
-- with every line ready, each loop succeeds and moves each product's counters by its quantity.
use fulfill_os.Prelude.{
  ℕ, ◌+◌, ◌≤◌, false, ◌≡◌, refl, ◌∙◌, sym, ==_iff, Bool-cases, inl, inr, Option, none, some, List,
  [], ◌∷◌, arith, ◌==◌, if◌then◌else◌, contains, products_of,
}
use native.Mathlib.Nat.{add-zero}
use mathlib.Core.Path.{subst}
use fulfill_os.Common.PostgresInt.{pg_int4_max}
use fulfill_os.Database.{Stock}
use fulfill_os.Database.Tx.{Result, ok}
use fulfill_os.Stocks.{stock_of, set_counts, locked_row, for_lines}
use fulfill_os.Stocks.Lookup.{IsKeyed, with_counts, stock_of-set_counts, set_counts-IsKeyed}
use fulfill_os.Stocks.Bounds.{IsBounded, set_counts-IsBounded}

-- No id stands twice.
abbrev pub NoRepeat : List ℕ → Type 0
NoRepeat [] = Unit
NoRepeat (x ∷ xs) = (contains x xs ≡ false) × NoRepeat xs

module _ {A : Type 0} (product quantity : A → ℕ) where
  -- The total quantity of a product.
  abbrev pub quantity_of : ℕ → List A → ℕ
  quantity_of p [] = 0
  quantity_of p (i ∷ is) =
      if product i == p then quantity i + quantity_of p is else quantity_of p is

  quantity_of-absent :
      (p : ℕ) (is : List A) → contains p (products_of product is) ≡ false → quantity_of p is ≡ 0
  quantity_of-absent p [] h = refl
  quantity_of-absent p (i ∷ is) h = ground (arith, quantity_of-absent p is)

module _ {A : Type 0} (product quantity : A → ℕ)
    (body : A → Option Stock → List Stock → Result (List Stock)) (on_hand reserved : Stock → ℕ → ℕ)
    (Ready : Stock → ℕ → Type 0) where
  -- Each line has its row, locked and current, and ready for its quantity.
  abbrev pub Covered : List A → List Stock → List Stock → Type 0
  Covered [] locked t = Unit
  Covered (i ∷ is) locked t =
      ((row : Stock) × (locked_row (product i) locked ≡ some row)
        × (stock_of (product i) t ≡ some row)
        × Ready row (quantity i))
      × Covered is locked t

  -- What the proof needs of a round.
  pub record IsRound : Type 0 where
    pub bounds :
        (s : Stock) (n : ℕ) → Ready s n → (reserved s n ≤ on_hand s n) × (on_hand s n ≤ pg_int4_max)
    pub none_moved : (s : Stock) → (on_hand s 0 ≡ s.on_hand) × (reserved s 0 ≡ s.reserved)
    pub runs :
        (i : A) (s : Stock) (t : List Stock)
        → IsKeyed t
        → stock_of (product i) t ≡ some s
        → Ready s (quantity i)
        → body i (some s) t
          ≡ ok (set_counts s.id (on_hand s (quantity i)) (reserved s (quantity i)) t)

  abbrev pub moved : ℕ → Option Stock → Option Stock
  moved n none = none
  moved n (some s) = some (with_counts (on_hand s n) (reserved s n) s)

  Covered-set_counts :
      (is : List A) (locked t : List Stock) (p a b : ℕ) (s : Stock)
      → IsKeyed t
      → stock_of p t ≡ some s
      → contains p (products_of product is) ≡ false
      → Covered is locked t
      → Covered is locked (set_counts s.id a b t)
  Covered-set_counts [] locked t p a b s k h absent c = tt
  Covered-set_counts (i ∷ is) locked t p a b s k h absent ((row, inmap, intable, ready), c) = (
    (row, inmap, stock_of-set_counts p (product i) a b t s k h ∙ ground arith, ready),
    Covered-set_counts is locked t p a b s k h (ground arith) c,
  )

  moved_zero : IsRound → (o : Option Stock) → moved 0 o ≡ o
  moved_zero round none = refl
  moved_zero round (some s) = ground (arith, round.none_moved s)

  module _ (i : A) (is : List A) (t : List Stock) (row : Stock) (round : IsRound) where
    -- The row after its round.
    abbrev after_round : Stock
    after_round = with_counts (on_hand row (quantity i)) (reserved row (quantity i)) row

    moved_self :
        stock_of (product i) t ≡ some row
        → contains (product i) (products_of product is) ≡ false
        → moved (quantity_of product quantity (product i) is) (some after_round)
          ≡ moved
              (quantity i + quantity_of product quantity (product i) is)
              (stock_of (product i) t)
    moved_self h absent =
        rw (quantity_of-absent product quantity (product i) is absent, h, add-zero)
          (ground (arith, round.none_moved after_round))

    moved_step :
        (p : ℕ)
        → IsKeyed t
        → stock_of (product i) t ≡ some row
        → contains (product i) (products_of product is) ≡ false
        → moved (quantity_of product quantity p is) (
            stock_of p (set_counts row.id (on_hand row (quantity i)) (reserved row (quantity i)) t))
          ≡ moved (quantity_of product quantity p (i ∷ is)) (stock_of p t)
    moved_step p k h absent =
        rw
          (stock_of-set_counts (product i) p (on_hand row (quantity i)) (reserved row (quantity i))
            t row k h)
          (elim (Bool-cases (product i == p)) [
            | inl same ↦ rw same (
                subst
                  (λ q.
                    moved (quantity_of product quantity q is) (some after_round)
                    ≡ moved (quantity i + quantity_of product quantity q is) (stock_of q t))
                  ((==_iff (product i) p).0 same) (moved_self h absent))
            | inr other ↦ rw other refl
          ])

  -- The loop's result: the table that it leaves, and each product's row in it.
  abbrev pub Moves : List A → List Stock → List Stock → Type 0
  Moves is locked t =
      (t' : List Stock) × (for_lines product body is locked t ≡ ok t')
      × IsKeyed t'
      × IsBounded t'
      × ((p : ℕ) → stock_of p t' ≡ moved (quantity_of product quantity p is) (stock_of p t))

  pub for_lines-Moves :
      (is : List A) (locked t : List Stock)
      → IsRound
      → IsKeyed t
      → IsBounded t
      → NoRepeat (products_of product is)
      → Covered is locked t
      → Moves is locked t
  unfolding for_lines
  for_lines-Moves [] locked t round k b d c =
      (t, refl, k, b, λ p. sym (moved_zero round (stock_of p t)))
  for_lines-Moves (i ∷ is) locked t round k b d ((row, inmap, intable, ready), c) =
      let a' = on_hand row (quantity i) in
      let b' = reserved row (quantity i) in
      let t1 = set_counts row.id a' b' t in
      let fits = round.bounds row (quantity i) ready in
      let (t', ran, k', bounded, at) =
        for_lines-Moves is locked t1 round (set_counts-IsKeyed row.id a' b' t k)
          (set_counts-IsBounded row.id a' b' t fits.0 fits.1 b) d.1
          (Covered-set_counts is locked t (product i) a' b' row k intable d.0 c) in
      (
        t',
        rw inmap (rw (round.runs i row t k intable ready) ran),
        k',
        bounded,
        λ p. at p ∙ moved_step i is t row round p k intable d.0,
      )
