-- ===== src/Examples/Requests.antt =====
-- The theorem about the controllers of apps/api/src at work on the small shop: the owner's request
-- to adjust the stock.
use fulfill_os.Prelude.{ℕ, ◌≡◌, ◌⊎◌, [], ◌∷◌}
use fulfill_os.Prelude.Int.{pos}
use fulfill_os.Sessions.{new_session}
use fulfill_os.Auth.{Accounts}
use fulfill_os.Api.{Call, inventory_call, adjustment_call, guard_refusal, serve}
use fulfill_os.Api.Mediated.{IsGranted, serve-IsMediated}
use fulfill_os.Examples.Shop.{env, shop}
use fulfill_os.Examples.Reads.{site, request, user, member, issue}

abbrev restock : Call
restock =
    inventory_call
      (adjustment_call (record { product_id = 11; delta = pos 2; reason = "restock" }) 30)

abbrev accounts : Accounts
accounts = record {
  users = user ∷ [];
  organizations = [];
  memberships = member ∷ [];
  sessions = new_session site 2 issue ∷ [];
}

serve-IsMediated_example :
    ((status : ℕ) × ((serve site env restock request 2000 accounts shop).answer
        ≡ guard_refusal status)
      × ((serve site env restock request 2000 accounts shop).db ≡ shop))
    ⊎ IsGranted site env restock request 2000 accounts shop
        (serve site env restock request 2000 accounts shop)
serve-IsMediated_example = serve-IsMediated site env restock request 2000 accounts shop
