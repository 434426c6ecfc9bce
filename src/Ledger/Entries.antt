-- ===== src/Ledger/Entries.antt =====
-- What the movements of each operation of apps/api/src/reservations/reservations.service.ts add up
-- to.
use fulfill_os.Prelude.{ℕ, ◌≡◌, refl, List, [], ◌∷◌, arith, All}
use fulfill_os.Platform.{Platform, Env}
use fulfill_os.Database.{OrderItem}
use fulfill_os.Ledger.{put_in, taken_out, on_hand_delta, reserved_delta}
use fulfill_os.Reservations.Held.{line_quantity}
use fulfill_os.Reservations.Create.{ReservationItem, new_movements}
use fulfill_os.Reservations.Create.Commit.{requested}
use fulfill_os.Reservations.Release.{release_movements}
use fulfill_os.Reservations.Fulfill.{fulfill_movements}

module _ (p : Platform) (env : Env) (g user : ℕ) where
  pub new_movements-entries :
      (q : ℕ) (is : List ReservationItem)
      → All (λ i. p.parse_uuid i.product_id ≡ i.product_id) is
      → (put_in reserved_delta q (new_movements p env g user is) ≡ requested q is)
        × (taken_out reserved_delta q (new_movements p env g user is) ≡ 0)
        × (put_in on_hand_delta q (new_movements p env g user is) ≡ 0)
        × (taken_out on_hand_delta q (new_movements p env g user is) ≡ 0)
  unfolding new_movements
  new_movements-entries q [] a = (refl, refl, refl, refl)
  new_movements-entries q (i ∷ is) a = ground (arith, a.0, new_movements-entries q is a.1)

  module _ (order_id : ℕ) where
    pub release_movements-entries :
        (q : ℕ) (xs : List OrderItem)
        → (taken_out reserved_delta q (release_movements p env g user order_id xs)
            ≡ line_quantity q xs)
          × (put_in reserved_delta q (release_movements p env g user order_id xs) ≡ 0)
          × (put_in on_hand_delta q (release_movements p env g user order_id xs) ≡ 0)
          × (taken_out on_hand_delta q (release_movements p env g user order_id xs) ≡ 0)
    unfolding release_movements
    release_movements-entries q [] = (refl, refl, refl, refl)
    release_movements-entries q (x ∷ xs) = ground (arith, release_movements-entries q xs)

    pub fulfill_movements-entries :
        (q : ℕ) (xs : List OrderItem)
        → (taken_out reserved_delta q (fulfill_movements p env g user order_id xs)
            ≡ line_quantity q xs)
          × (taken_out on_hand_delta q (fulfill_movements p env g user order_id xs)
              ≡ line_quantity q xs)
          × (put_in reserved_delta q (fulfill_movements p env g user order_id xs) ≡ 0)
          × (put_in on_hand_delta q (fulfill_movements p env g user order_id xs) ≡ 0)
    unfolding fulfill_movements
    fulfill_movements-entries q [] = (refl, refl, refl, refl)
    fulfill_movements-entries q (x ∷ xs) = ground (arith, fulfill_movements-entries q xs)
