-- ===== src/Warehouse/Refines.antt =====
-- Every request to the services of apps/api/src/products, apps/api/src/inventory and
-- apps/api/src/reservations takes the step of the warehouse that it asks for.
use fulfill_os.Prelude.{
  ℕ, sym, Bool, true, false, ◌⊎◌, ◌==◌, ◌+◌, ◌-◌, ◌≤◌, ◌≡◌, refl, Option, none, some, List, ◌∷◌,
  arith, inl, inr, Option-cases,
}
use fulfill_os.Platform.{Platform, Env}
use fulfill_os.Common.Outcome.{OperationOutcome}
use fulfill_os.Database.{Db, Stock}
use fulfill_os.Stocks.{stock_of}
use fulfill_os.Stocks.Bounds.{stock_of-IsSound}
use fulfill_os.Ledger.Writes.{lines-le}
use fulfill_os.Products.Create.{create_product_total, Created, Created-eq, no_row}
use fulfill_os.Reservations.Held.{line_quantity, is_open}
use fulfill_os.Reservations.Backed.{IsBacked, on_hand_of, reserved_of}
use fulfill_os.Reservations.Closing.Lines.{lines_of}
use fulfill_os.Reservations.Create.{ReservationItem}
use fulfill_os.Reservations.Create.Commit.{requested, raised}
use fulfill_os.Reservations.Create.Fits.{ReadsBack}
use fulfill_os.Reservations.Create.Safety.{Reserved}
use fulfill_os.Reservations.Release.Safety.{Released, kept_on_hand}
use fulfill_os.Reservations.Fulfill.Safety.{Fulfilled, less_on_hand}
use fulfill_os.Inventory.{AdjustInventory}
use fulfill_os.Inventory.Safety.{Adjusted}
use fulfill_os.Consistency.{IsConsistent}
use fulfill_os.Consistency.Served.{
  Serves, release_reservation-Serves, fulfill_order-Serves, adjust_stock-Serves,
  create_reservation-Serves,
}
use fulfill_os.Consistency.History.{
  Request, new_product_request, adjustment_request, reservation_request, release_request,
  fulfillment_request, served, IsAdmissible,
}
use fulfill_os.Catalog.{IsCatalogued, product_of}
use fulfill_os.Common.PostgresInt.{pg_int4_max}
use fulfill_os.Products.{CreateProduct, ProductDetail}
use fulfill_os.Database.Tx.{Result}
use fulfill_os.Reservations.Release.{release_line}
use fulfill_os.Reservations.Fulfill.{fulfill_line}
use fulfill_os.Reservations.Closing.Lines.{taken}
use fulfill_os.Warehouse.{
  Counts, Event, arrives, moves, reserves, gives_back, ships, Steps, Idle, shelf,
}
use fulfill_os.Idempotency.{IdempotencyRequest, find_key}
use fulfill_os.Common.Body.{Body}
use fulfill_os.Common.Outcome.{unwrap_outcome}
use fulfill_os.Reservations.Release
use fulfill_os.Reservations.Fulfill.{fulfill_request, fulfill_order}
use fulfill_os.Reservations.Release.{release_reservation}
use fulfill_os.Inventory.{adjust_request, adjust_stock}
use fulfill_os.Reservations.Create.{create_request, create_reservation}
use fulfill_os.Products.{or_zero, create_product}
use fulfill_os.Consistency.Served.{is_ok}

-- Bounds of the counts of a product.
sound_counts :
    (db : Db) (q : ℕ)
    → IsBacked db
    → ((shelf db q).reserved ≤ (shelf db q).on_hand) × ((shelf db q).on_hand ≤ pg_int4_max)
sound_counts db q w = elim (Option-cases (stock_of q db.inventory)) [
  | inl free ↦ rw free (omega arith, omega arith)
  | inr (s, found) ↦ rw found (stock_of-IsSound q db.inventory s w.bounded found)
]

abbrev counts_of : Option Stock → Counts
counts_of row = record { on_hand = on_hand_of row; reserved = reserved_of row }

abbrev HasFree : Option Stock → ℕ → Type 0
HasFree row n = reserved_of row + n ≤ on_hand_of row

counts_of-raised :
    (n : ℕ) (row : Option Stock)
    → HasFree row n
    → counts_of (raised n row) ≡ record { on_hand = on_hand_of row; reserved = reserved_of row + n }
counts_of-raised n none room = ground (arith, room)
counts_of-raised n (some s) room = refl

counts_of-released :
    (n : ℕ) (row : Option Stock)
    → counts_of (taken release_line kept_on_hand n row)
      ≡ record { on_hand = on_hand_of row; reserved = reserved_of row - n }
counts_of-released n none = ground arith
counts_of-released n (some s) = refl

counts_of-fulfilled :
    (n : ℕ) (row : Option Stock)
    → counts_of (taken fulfill_line less_on_hand n row)
      ≡ record { on_hand = on_hand_of row - n; reserved = reserved_of row - n }
counts_of-fulfilled n none = ground arith
counts_of-fulfilled n (some s) = refl

-- A raised row within its bounds had the units free.
room-raised :
    (n : ℕ) (row : Option Stock)
    → reserved_of (raised n row) ≤ on_hand_of (raised n row)
    → n ≤ reserved_of (raised n row)
    → HasFree row n
room-raised n none sound has = omega (arith, has)
room-raised n (some s) sound has = sound

-- An answer's step, or a refusal that leaves the counts alone.
abbrev Goes : Event → OperationOutcome → Db → Db → Type 0
Goes event o db db' =
    Steps event (shelf db) (shelf db') ⊎ (Idle (shelf db) (shelf db') × (o.accepted ≡ false))

module _ (p : Platform) (env : Env) (g user : ℕ) (db db' : Db) (o : OperationOutcome) where
  Released-Goes :
      (i : ℕ)
      → IsBacked db
      → Released p env g user i db o db'
      → Goes (gives_back (λ q. line_quantity q (lines_of i db))) o db db'
  Released-Goes i w (inr (refused, _, same, _)) = inr ((λ q. rw same refl), refused)
  Released-Goes i w (inl (_, _, (was, found, open_order, _), at, _)) = inl (
    (λ q. (lines-le db i q w (rw (found, is_open) open_order)).0),
    (λ q.
        rw (at q) (counts_of-released (line_quantity q (lines_of i db)) (stock_of q db.inventory))),
  )

  Fulfilled-Goes :
      (i : ℕ)
      → IsBacked db
      → Fulfilled p env g user i db o db'
      → Goes (ships (λ q. line_quantity q (lines_of i db))) o db db'
  Fulfilled-Goes i w (inr (refused, _, same, _)) = inr ((λ q. rw same refl), refused)
  Fulfilled-Goes i w (inl (_, _, (was, found, open_order, _), at, _)) = inl (
    (λ q. (lines-le db i q w (rw (found, is_open) open_order)).0),
    (λ q.
        rw (at q)
          (counts_of-fulfilled (line_quantity q (lines_of i db)) (stock_of q db.inventory))),
  )

  Reserved-Goes :
      (items : List ReservationItem)
      → IsBacked db'
      → Reserved p env g user items db o db'
      → Goes (reserves (λ q. requested q items)) o db db'
  Reserved-Goes items w (inr (refused, _, same)) = inr ((λ q. rw same refl), refused)
  Reserved-Goes items w (inl (_, _, at, (new, placed, _, open_order), lines, _, _)) =
      let room : (q : ℕ) → HasFree (stock_of q db.inventory) (requested q items) = λ q.
        room-raised (requested q items) (stock_of q db.inventory)
          (rw (← at q) (sound_counts db' q w).0)
          (rw (← at q, ← lines q)
            (lines-le db' env.new_id q w (rw (placed, is_open) open_order)).0) in
      inl (
        room,
        (λ q. rw (at q) (counts_of-raised (requested q items) (stock_of q db.inventory) (room q))),
      )

Adjusted-Goes :
    (p : Platform) (env : Env) (g : ℕ) (dto : AdjustInventory) (db db' : Db) (o : OperationOutcome)
    → IsBacked db'
    → Adjusted p env g dto db o db'
    → Goes (moves (p.parse_uuid dto.product_id) dto.delta) o db db'
Adjusted-Goes p env g dto db db' o w (inr (refused, _, same, _)) =
    inr ((λ q. rw same refl), refused)
Adjusted-Goes p env g dto db db' o w (inl (_, _, moved, kept, others, _)) =
    let i = p.parse_uuid dto.product_id in
    let (low, high) = sound_counts db' i w in
    inl (moved, kept i, low, high, (λ q other. rw (others q other) refl))

-- What a request asks of the warehouse: the units of a reservation are the quantities of its items,
-- those of a release or a fulfillment the quantities of the order's lines.
abbrev pub event_of : Platform → Env → Request → Db → Event
event_of p env (new_product_request g dto) db = arrives env.new_id (or_zero dto.initial_on_hand)
event_of p env (adjustment_request g dto key) db = moves (p.parse_uuid dto.product_id) dto.delta
event_of p env (reservation_request g user i is currency key) db =
    reserves (λ q. requested q (i ∷ is))
event_of p env (release_request g user i key) db = gives_back (λ q. line_quantity q (lines_of i db))
event_of p env (fulfillment_request g user i key) db = ships (λ q. line_quantity q (lines_of i db))

-- The request is answered, and not with an exception.
abbrev pub is_accepted : Platform → Env → Request → Db → Bool
is_accepted p env (new_product_request g dto) db = is_ok (create_product p env g dto db).0
is_accepted p env (adjustment_request g dto key) db = is_ok (adjust_stock p env g dto key db).0
is_accepted p env (reservation_request g user i is currency key) db =
    is_ok
      (create_reservation p env g user (record { items = i ∷ is; currency = currency }) key db).0
is_accepted p env (release_request g user i key) db =
    is_ok (release_reservation p env g user i key db).0
is_accepted p env (fulfillment_request g user i key) db =
    is_ok (fulfill_order p env g user i key db).0

-- The key of the request, where it has one, is not taken.
abbrev pub IsUnclaimed : Platform → Request → Db → Type 0
IsUnclaimed p (new_product_request g dto) db = Unit
IsUnclaimed p (adjustment_request g dto key) db =
    find_key (adjust_request p g dto key) db.idempotency_keys ≡ none
IsUnclaimed p (reservation_request g user i is currency key) db =
    find_key (create_request p g (record { items = i ∷ is; currency = currency }) key)
      db.idempotency_keys
    ≡ none
IsUnclaimed p (release_request g user i key) db =
    find_key (Release.release_request p g i key) db.idempotency_keys ≡ none
IsUnclaimed p (fulfillment_request g user i key) db =
    find_key (fulfill_request p g i key) db.idempotency_keys ≡ none

is_ok-refused : (o : OperationOutcome) → o.accepted ≡ false → is_ok (unwrap_outcome o) ≡ false
unfolding unwrap_outcome
is_ok-refused o refused = rw refused refl

-- The work of a request goes its way, and what is not done is refused or done before.
Serves-Goes :
    (event : Event) (request : IdempotencyRequest) (db : Db) (r : Result Body × Db)
    (Did : Db → OperationOutcome → Db → Type 0)
    → ((new : Db) (o : OperationOutcome) → IsBacked new → Did db o new → Goes event o db new)
    → Serves Did request db r
    → Steps event (shelf db) (shelf r.1)
      ⊎ (Idle (shelf db) (shelf r.1)
          × (find_key request db.idempotency_keys ≡ none → is_ok r.0 ≡ false))
Serves-Goes event request db r Did go (inl (same, threw)) = inr ((λ q. rw same refl), threw)
Serves-Goes event request db r Did go (inr (o, answer, w, _, did)) =
    elim (go (record r.1 { idempotency_keys = db.idempotency_keys }) o w did) [
      | inl step ↦ inl step
      | inr (idle, refused) ↦ inr (idle, λ free. rw answer (is_ok-refused o refused))
    ]

Created-Goes :
    (p : Platform) (env : Env) (g : ℕ) (dto : CreateProduct) (db db' : Db)
    (answer : Result ProductDetail)
    → IsConsistent db
    → product_of env.new_id db.products ≡ none
    → or_zero dto.initial_on_hand ≤ pg_int4_max
    → Created p env g dto db answer db'
    → Steps (arrives env.new_id (or_zero dto.initial_on_hand)) (shelf db) (shelf db')
      ⊎ (Idle (shelf db) (shelf db') × (Unit {0} → is_ok answer ≡ false))
unfolding stock_of
Created-Goes p env g dto db db' answer c fresh range (inr (_, threw, same)) =
    inr ((λ q. rw same refl), λ _. rw threw refl)
Created-Goes p env g dto db db' answer c fresh range (inl (_, _, same)) =
    let free = no_row env.new_id db.products db.inventory fresh c.catalogued in
    let itself : (env.new_id == env.new_id) ≡ true = ground arith in
    inl (rw free refl, rw (same, itself) refl, range, (λ q other. rw same (ground (arith, other))))

-- On a consistent database, with a uuid reading that reads its own output back, every admissible
-- request to the products, the inventory or the reservations takes the counts of the products by the
-- very step of the warehouse that it asks for: the first units of its product, its delta, the units
-- of its items, or the units of its order's lines. Or the counts stay, and then a request whose key
-- was not taken is answered with an exception.
pub served-Steps :
    (p : Platform) (env : Env) (r : Request) (db : Db)
    → ReadsBack p
    → IsConsistent db
    → IsAdmissible env r db
    → Steps (event_of p env r db) (shelf db) (shelf (served p env r db))
      ⊎ (Idle (shelf db) (shelf (served p env r db))
          × (IsUnclaimed p r db → is_accepted p env r db ≡ false))
served-Steps p env (release_request g user i key) db reads c fits =
    Serves-Goes (event_of p env (release_request g user i key) db) _ db _ (Released p env g user i)
      (λ new o w. Released-Goes p env g user db new o i c.backed)
      (release_reservation-Serves p env g user i key db c.backed)
served-Steps p env (fulfillment_request g user i key) db reads c fits =
    Serves-Goes (event_of p env (fulfillment_request g user i key) db) _ db _
      (Fulfilled p env g user i) (λ new o w. Fulfilled-Goes p env g user db new o i c.backed)
      (fulfill_order-Serves p env g user i key db c.backed)
served-Steps p env (reservation_request g user i is currency key) db reads c (fresh, q) =
    Serves-Goes (event_of p env (reservation_request g user i is currency key) db) _ db _
      (Reserved p env g user (i ∷ is)) (λ new o w. Reserved-Goes p env g user db new o (i ∷ is) w)
      (create_reservation-Serves p env g user i is currency key db reads c.backed fresh q)
served-Steps p env (adjustment_request g dto key) db reads c (fresh, range) =
    Serves-Goes (event_of p env (adjustment_request g dto key) db) _ db _
      (λ old o new. IsCatalogued new.products new.inventory × Adjusted p env g dto old o new)
      (λ new o w did. Adjusted-Goes p env g dto db new o w did.1)
      (adjust_stock-Serves p env g dto key db c.backed c.catalogued fresh range)
served-Steps p env (new_product_request g dto) db reads c (fresh, unused, price, range) =
    let (answer, db', ran, c', did) =
      create_product_total p env g dto db c fresh unused price range in
    Created-Goes p env g dto db _ _ c fresh range
      (Created-eq p env g dto db (answer, db') (create_product p env g dto db) (sym ran) did)
