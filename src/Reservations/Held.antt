-- ===== src/Reservations/Held.antt =====
-- The stock that the pending orders hold, and what the writes of ReservationsService make of it.
use fulfill_os.Prelude.{
  ℕ, ◌+◌, ◌≤◌, Bool, true, false, ◌≡◌, refl, ◌≢◌, none, some, List, [], ◌∷◌, ◌++◌, arith, ◌==◌,
  ==_iff, leb, Bool-cases, inl, inr, ◌&&◌, if◌then◌else◌, All, contains, products_of,
}
use fulfill_os.Database.{Order, OrderItem}
use fulfill_os.Database.Enums.{is_pending}
use fulfill_os.OrderTable.{order_by_id, items_of, insert_item}
use fulfill_os.Stocks.Lines.{NoRepeat, quantity_of}

-- Is the order there, and pending?
abbrev pub is_open : List Order → ℕ → Bool
is_open orders i = elim (order_by_id i orders) [ none ↦ false | some o ↦ is_pending o.status ]

-- The quantity of a product that the lines of open orders hold.
abbrev pub held_by : (ℕ → Bool) → ℕ → List OrderItem → ℕ
held_by open_order p [] = 0
held_by open_order p (x ∷ xs) =
    if x.product_id == p && open_order x.order_id
    then x.quantity + held_by open_order p xs
    else held_by open_order p xs

abbrev pub held : List Order → ℕ → List OrderItem → ℕ
held orders = held_by (is_open orders)

-- The lines of an order for a product.
abbrev pub count_lines : ℕ → ℕ → List OrderItem → ℕ
count_lines i p [] = 0
count_lines i p (x ∷ xs) =
    if x.order_id == i && x.product_id == p then 1 + count_lines i p xs else count_lines i p xs

abbrev pub line_products : List OrderItem → List ℕ
line_products = products_of (λ x. x.product_id)

abbrev pub line_quantity : ℕ → List OrderItem → ℕ
line_quantity = quantity_of (λ x. x.product_id) (λ x. x.quantity)

pub held_by-append :
    (f : ℕ → Bool) (p : ℕ) (xs ys : List OrderItem)
    → held_by f p (xs ++ ys) ≡ held_by f p xs + held_by f p ys
held_by-append f p [] ys = omega arith
held_by-append f p (x ∷ xs) ys = ground (arith, held_by-append f p xs ys)

pub count_lines-append :
    (i p : ℕ) (xs ys : List OrderItem)
    → count_lines i p (xs ++ ys) ≡ count_lines i p xs + count_lines i p ys
count_lines-append i p [] ys = omega arith
count_lines-append i p (x ∷ xs) ys = ground (arith, count_lines-append i p xs ys)

-- Orders that agree on the orders of the lines hold the same.
pub held_by-congr :
    (f g : ℕ → Bool) (p : ℕ) (xs : List OrderItem)
    → All (λ x. f x.order_id ≡ g x.order_id) xs
    → held_by f p xs ≡ held_by g p xs
held_by-congr f g p [] a = refl
held_by-congr f g p (x ∷ xs) a = ground (arith, held_by-congr f g p xs a.1)

line_quantity-insert :
    (p : ℕ) (x : OrderItem) (xs : List OrderItem)
    → line_quantity p (insert_item x xs) ≡ line_quantity p (x ∷ xs)
unfolding insert_item
line_quantity-insert p x [] = refl
line_quantity-insert p x (y ∷ ys) = ground (arith, line_quantity-insert p x ys)

-- Closing one open order lowers what is held by exactly its lines.
pub held_by-close :
    (f g : ℕ → Bool) (i p : ℕ) (xs : List OrderItem)
    → f i ≡ true
    → g i ≡ false
    → ((j : ℕ) → j ≢ i → g j ≡ f j)
    → held_by f p xs ≡ held_by g p xs + line_quantity p (items_of i xs)
unfolding items_of
held_by-close f g i p [] was now same = refl
held_by-close f g i p (x ∷ xs) was now same = ground (
  arith,
  held_by-close f g i p xs was now same,
  same x.order_id,
  line_quantity-insert p x (items_of i xs),
)

-- An order's lines hold what the lines of its id hold.
pub line_quantity-items_of :
    (i p : ℕ) (xs : List OrderItem) → line_quantity p (items_of i xs) ≡ held_by (λ j. j == i) p xs
unfolding items_of
line_quantity-items_of i p [] = refl
line_quantity-items_of i p (x ∷ xs) =
    ground (arith, line_quantity-items_of i p xs, line_quantity-insert p x (items_of i xs))

All-insert_item {κ} :
    (P : OrderItem → Type κ) (x : OrderItem) (xs : List OrderItem)
    → P x
    → All P xs
    → All P (insert_item x xs)
unfolding insert_item
All-insert_item P x [] h a = (h, tt)
All-insert_item P x (y ∷ ys) h a = elim (Bool-cases (leb x.product_id y.product_id)) [
  | inl first ↦ rw first (h, a)
  | inr later ↦ rw later (a.0, All-insert_item P x ys h a.1)
]

-- What holds of every line holds of an order's lines, and those are the order's.
pub All-items_of {κ} :
    (P : OrderItem → Type κ) (i : ℕ) (xs : List OrderItem)
    → All P xs
    → All (λ x. P x × (x.order_id ≡ i)) (items_of i xs)
unfolding items_of
All-items_of P i [] a = tt
All-items_of P i (x ∷ xs) a = elim (Bool-cases (x.order_id == i)) [
  | inl its ↦ rw its (
      All-insert_item (λ y. P y × (y.order_id ≡ i)) x (items_of i xs)
        (a.0, (==_iff x.order_id i).0 its) (All-items_of P i xs a.1))
  | inr other ↦ rw other (All-items_of P i xs a.1)
]

abbrev pub count : ℕ → List ℕ → ℕ
count p [] = 0
count p (x ∷ xs) = if x == p then 1 + count p xs else count p xs

count-pos : (p : ℕ) (xs : List ℕ) → contains p xs ≡ true → 1 ≤ count p xs
count-pos p [] h = cc
count-pos p (x ∷ xs) h = ground (arith, count-pos p xs)

count-NoRepeat : (xs : List ℕ) → ((p : ℕ) → count p xs ≤ 1) → NoRepeat xs
count-NoRepeat [] h = tt
count-NoRepeat (x ∷ xs) h =
    (ground (arith, h x, count-pos x xs), count-NoRepeat xs (λ p. ground (arith, h p)))

pub count-absent : (p : ℕ) (xs : List ℕ) → contains p xs ≡ false → count p xs ≡ 0
count-absent p [] h = refl
count-absent p (x ∷ xs) h = ground (arith, count-absent p xs)

pub NoRepeat-count : (p : ℕ) (xs : List ℕ) → NoRepeat xs → count p xs ≤ 1
NoRepeat-count p [] h = omega arith
NoRepeat-count p (x ∷ xs) h = ground (arith, NoRepeat-count p xs h.1, count-absent x xs h.0)

count-insert_item :
    (p : ℕ) (x : OrderItem) (xs : List OrderItem)
    → count p (line_products (insert_item x xs)) ≡ count p (line_products (x ∷ xs))
unfolding insert_item
count-insert_item p x [] = refl
count-insert_item p x (y ∷ ys) = ground (arith, count-insert_item p x ys)

count-items_of :
    (i p : ℕ) (xs : List OrderItem) → count p (line_products (items_of i xs)) ≡ count_lines i p xs
unfolding items_of
count-items_of i p [] = refl
count-items_of i p (x ∷ xs) =
    ground (arith, count-items_of i p xs, count-insert_item p x (items_of i xs))

-- With one line at most for each product, an order's lines name distinct products.
pub items_of-NoRepeat :
    (i : ℕ) (xs : List OrderItem)
    → ((p : ℕ) → count_lines i p xs ≤ 1)
    → NoRepeat (line_products (items_of i xs))
items_of-NoRepeat i xs h =
    count-NoRepeat (line_products (items_of i xs)) (λ p. rw (count-items_of i p xs) (h p))
