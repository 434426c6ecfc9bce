-- ===== src/Examples/Reads.antt =====
-- The theorems about apps/api/src/auth, apps/api/src/dashboard and apps/api/src/common/
-- pagination.util.ts at work on small tables.
use fulfill_os.Prelude.{
  ℕ, ◌/◌, ◌*◌, ◌≡◌, refl, ◌+◌, none, some, List, [], ◌∷◌, arith, length, filterb, if◌then◌else◌,
  ◌==◌, false,
}
use fulfill_os.Common.Pagination.{CursorFields}
use fulfill_os.Database.{Order}
use fulfill_os.Database.Enums.{pending}
use fulfill_os.Catalog.{product_of}
use fulfill_os.OrderTable.{is_order, find_order, items_of, insert_item}
use fulfill_os.Orders.{OrderDetail, get_order, details_of}
use fulfill_os.Orders.Tenancy.{get_order_mine}
use fulfill_os.Dashboard.{get_summary, of_organization, summary-length}
use fulfill_os.Sessions.{
  User, Session, AuthenticatedSession, Issue, find_user, find_live, has_hash, new_session,
  create_session, touch, validate_token, revoke_by_token, sha256_hex,
}
use fulfill_os.Sessions.Lifecycle.{IsLive, ends, revoke-validate, validate-IsLive, create-validate}
use fulfill_os.Access.{
  owner, Membership, Request, post, Route, Grant, authorize, session_auth, membership_guard,
  roles_guard, csrf_guard, is_safe, is_uuid, dashed, hex_run, same_role, includes, get_membership,
}
use fulfill_os.Access.Mediation.{IsMediated, authorize-IsMediated}
use fulfill_os.Platform.{Platform}
use fulfill_os.Examples.Shop.{platform, shop}

abbrev pub issue : Issue
issue = record { new_id = 5; now = 1000; token = 77; csrf_token = 88 }

abbrev pub user : User
user = record {
  id = 2;
  email = "Ann@Example.com";
  email_normalized = "ann@example.com";
  display_name = "Ann";
  password_hash = "hash";
  created_at = 1;
  updated_at = 1;
}

abbrev session : Session
session = new_session platform 2 issue

abbrev signed_in : AuthenticatedSession
signed_in = record { session = session; user = user }

revoke-validate_example :
    (validate_token platform 77 2000
      (user ∷ [])
      (revoke_by_token platform 77 1500 (session ∷ []))).0
    ≡ none
revoke-validate_example = revoke-validate platform 77 1500 2000 (user ∷ []) (session ∷ [])

validate-IsLive_example :
    IsLive 2000 (sha256_hex platform 77) signed_in × (ends (session ∷ []) ≡ ends (session ∷ []))
unfolding validate_token find_live find_user touch
validate-IsLive_example =
    validate-IsLive platform 77 2000 2000 (user ∷ []) (session ∷ []) signed_in (session ∷ []) refl

create-validate_example :
    (validate_token platform 77 2000 (user ∷ []) (session ∷ [])).0 ≡ some signed_in
unfolding create_session has_hash find_user
create-validate_example =
    create-validate platform 2 issue user (user ∷ []) [] (session ∷ [])
      (record { session = session; token = 77; csrf_token = 88 }) 2000 refl refl (omega arith)

summary-length_example :
    (get_summary 1 shop).pending_orders
      + (get_summary 1 shop).fulfilled_orders
      + (get_summary 1 shop).cancelled_orders
    ≡ length (filterb (of_organization 1) shop.orders)
summary-length_example = summary-length 1 shop

abbrev rows : List CursorFields
rows =
    record { created_at = 9000; id = 4 }
    ∷ record { created_at = 9000; id = 3 }
    ∷ record { created_at = 6000; id = 8 }
    ∷ []

-- A cursor that cuts an instant, in microseconds, to milliseconds.
abbrev in_milliseconds : CursorFields → CursorFields
in_milliseconds c = record c { created_at = c.created_at / 1000 * 1000 }

-- A platform that reads a text of the number 1 as a uuid's 36 characters.
abbrev uuid_units : List ℕ
uuid_units =
    b'1' ∷ b'1' ∷ b'1' ∷ b'1' ∷ b'1' ∷ b'1' ∷ b'1' ∷ b'1' ∷ b'-' ∷ b'2' ∷ b'2' ∷ b'2' ∷ b'2' ∷ b'-'
    ∷ b'3' ∷ b'3' ∷ b'3' ∷ b'3' ∷ b'-' ∷ b'4' ∷ b'4' ∷ b'4' ∷ b'4' ∷ b'-' ∷ b'a' ∷ b'a' ∷ b'a'
    ∷ b'a' ∷ b'A' ∷ b'A' ∷ b'A' ∷ b'A' ∷ b'f' ∷ b'f' ∷ b'f' ∷ b'f' ∷ []

abbrev pub site : Platform
site = record platform { text_units = λ x. if x == 1 then uuid_units else x ∷ [] }

abbrev pub member : Membership
member = record { organization_id = 1; user_id = 2; role = owner }

abbrev pub request : Request
request = record {
  method = post;
  cookies = λ name. some 77;
  organization_param = some 1;
  csrf_header = some 88;
}

abbrev route : Route
route = record { is_public = false; required_roles = owner ∷ [] }

abbrev grant : Grant
grant = record {
  auth = some (record { session = new_session site 2 issue; user = user });
  membership = member;
}

authorize-IsMediated_example :
    IsMediated site route request 2000
      (new_session site 2 issue ∷ [])
      (new_session site 2 issue ∷ [])
      grant
unfolding authorize session_auth validate_token find_live find_user touch membership_guard is_uuid
    dashed hex_run get_membership roles_guard includes same_role csrf_guard is_safe
authorize-IsMediated_example =
    authorize-IsMediated site route request 2000 (user ∷ []) (member ∷ [])
      (new_session site 2 issue ∷ []) (new_session site 2 issue ∷ []) grant refl

abbrev detail : OrderDetail
detail = record {
  id = 7;
  status = pending;
  currency = "USD";
  created_at = 2;
  updated_at = 2;
  cancelled_at = none;
  fulfilled_at = none;
  items =
      record { product_id = 11; sku = "SKU"; name = "Thing"; quantity = 3; unit_price_cents = 250 }
      ∷ [];
}

get_order_mine_example :
    (o : Order) × (find_order (is_order 7 1) shop.orders ≡ some o)
    × (o.id ≡ 7)
    × (o.organization_id ≡ 1)
    × (detail.id ≡ 7)
    × (detail.status ≡ o.status)
    × (detail.currency ≡ o.currency)
unfolding get_order find_order items_of insert_item details_of product_of
get_order_mine_example = get_order_mine platform 1 7 shop detail refl
