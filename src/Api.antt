-- ===== src/Api.antt =====
-- The controllers of the routes of an organization, with their guards:
-- apps/api/src/products/products.controller.ts, apps/api/src/inventory/inventory.controller.ts,
-- apps/api/src/orders/orders.controller.ts, apps/api/src/reservations/reservations.controller.ts and
-- apps/api/src/dashboard/dashboard.controller.ts. Pipes have validated what a call holds.
pub mod Mediated
use fulfill_os.Prelude.{ℕ, Bool, true, false, String, Option, none, some, List, [], ◌∷◌}
use fulfill_os.Platform.{Platform, Env}
use fulfill_os.Common.Body.{Body, InventoryLine}
use fulfill_os.Common.Pagination.{PageQuery, Read, CursorPage}
use fulfill_os.Database.{Db}
use fulfill_os.Database.Tx.{Result}
use fulfill_os.Products.{
  CreateProduct, ProductDetail, ProductSummary, list_products, get_product, create_product,
}
use fulfill_os.Inventory.{AdjustInventory, list_inventory, adjust_stock}
use fulfill_os.Orders.{OrderSummary, OrderDetail, list_orders, get_order, fulfill, cancel}
use fulfill_os.Reservations.Create.{ReservationItem, create_reservation}
use fulfill_os.Reservations.Release.{release_reservation}
use fulfill_os.Dashboard.{DashboardSummary, get_summary}
use fulfill_os.Sessions.{Session, AuthenticatedSession}
use fulfill_os.Access.{
  MembershipRole, owner, Method, get, post, Route, Request, Decision, allowed, refused, Grant,
  authorize,
}
use fulfill_os.Auth.{Accounts}

-- A route of each controller with its parameters and body, and its idempotency key where it has
-- one. A reservation has at least one item.
pub data ProductsCall : Type 0 where
  products_page : PageQuery → ProductsCall
  one_product : ℕ → ProductsCall
  new_product_call : CreateProduct → ProductsCall

pub data InventoryCall : Type 0 where
  inventory_list : InventoryCall
  adjustment_call : AdjustInventory → ℕ → InventoryCall

pub data OrdersCall : Type 0 where
  orders_page : PageQuery → OrdersCall
  one_order : ℕ → OrdersCall
  fulfill_call cancel_call : ℕ → ℕ → OrdersCall

pub data ReservationsCall : Type 0 where
  reservation_call : ReservationItem → List ReservationItem → Option String → ℕ → ReservationsCall
  release_call : ℕ → ℕ → ReservationsCall

pub data Call : Type 0 where
  products_call : ProductsCall → Call
  inventory_call : InventoryCall → Call
  orders_call : OrdersCall → Call
  reservations_call : ReservationsCall → Call
  dashboard_call : Call

-- The body of an answer, or the status of an exception of the guards.
pub data Answer : Type 0 where
  products_answer : Read (CursorPage ProductSummary) → Answer
  product_answer : Read ProductDetail → Answer
  new_product_answer : Result ProductDetail → Answer
  inventory_answer : List InventoryLine → Answer
  orders_answer : Read (CursorPage OrderSummary) → Answer
  order_answer : Read OrderDetail → Answer
  write_answer : Result Body → Answer
  summary_answer : DashboardSummary → Answer
  guard_refusal : ℕ → Answer

-- `@Get()` and `@Post()`
pub method_of : Call → Method
method_of (products_call (products_page _)) = get
method_of (products_call (one_product _)) = get
method_of (products_call (new_product_call _)) = post
method_of (inventory_call inventory_list) = get
method_of (inventory_call (adjustment_call _ _)) = post
method_of (orders_call (orders_page _)) = get
method_of (orders_call (one_order _)) = get
method_of (orders_call (fulfill_call _ _)) = post
method_of (orders_call (cancel_call _ _)) = post
method_of (reservations_call _) = post
method_of dashboard_call = get

-- `@Roles('owner')`; the other routes name no role.
pub roles_of : Call → List MembershipRole
roles_of (products_call (new_product_call _)) = owner ∷ []
roles_of (inventory_call (adjustment_call _ _)) = owner ∷ []
roles_of _ = []

abbrev pub route_of : Call → Route
route_of call = record { is_public = false; required_roles = roles_of call }

-- The handlers.
module _ (p : Platform) (env : Env) (organization user : ℕ) where
  abbrev written : Result Body × Db → Answer × Db
  written r = (write_answer r.0, r.1)

  abbrev product_written : Result ProductDetail × Db → Answer × Db
  product_written r = (new_product_answer r.0, r.1)

  abbrev handle_products : ProductsCall → Db → Answer × Db
  handle_products (products_page query) db =
      (products_answer (list_products p organization query db), db)
  handle_products (one_product i) db = (product_answer (get_product p organization i db), db)
  handle_products (new_product_call dto) db =
      product_written (create_product p env organization dto db)

  abbrev handle_inventory : InventoryCall → Db → Answer × Db
  handle_inventory inventory_list db = (inventory_answer (list_inventory organization db), db)
  handle_inventory (adjustment_call dto key) db =
      written (adjust_stock p env organization dto key db)

  abbrev handle_orders : OrdersCall → Db → Answer × Db
  handle_orders (orders_page query) db = (orders_answer (list_orders p organization query db), db)
  handle_orders (one_order i) db = (order_answer (get_order p organization i db), db)
  handle_orders (fulfill_call i key) db = written (fulfill p env organization user i key db)
  handle_orders (cancel_call i key) db = written (cancel p env organization user i key db)

  abbrev handle_reservations : ReservationsCall → Db → Answer × Db
  handle_reservations (reservation_call i is currency key) db = written (
      create_reservation p env organization user (record { items = i ∷ is; currency = currency })
        key db)
  handle_reservations (release_call i key) db =
      written (release_reservation p env organization user i key db)

  abbrev handle_dashboard : Db → Answer × Db
  handle_dashboard db = (summary_answer (get_summary organization db), db)

  abbrev pub handle : Call → Db → Answer × Db
  handle (products_call c) db = handle_products c db
  handle (inventory_call c) db = handle_inventory c db
  handle (orders_call c) db = handle_orders c db
  handle (reservations_call c) db = handle_reservations c db
  handle dashboard_call db = handle_dashboard db

pub record Response : Type 0 where
  pub answer : Answer
  pub sessions : List Session
  pub db : Db

-- `@Param('organizationId')`, as PostgreSQL reads it. The guards let no request through without it,
-- or without a session.
abbrev pub organization_of : Platform → Request → ℕ
organization_of p request = elim request.organization_param [ none ↦ 0 | some t ↦ p.parse_uuid t ]

-- `@CurrentUser()`
abbrev pub current_user : Option AuthenticatedSession → ℕ
current_user none = 0
current_user (some a) = a.user.id

-- A request to the route of a call: the guards, and then the handler.
abbrev pub routed : Call → Request → Request
routed call request = record request { method = method_of call }

module _ (p : Platform) (env : Env) (call : Call) (request : Request) (now : ℕ) where
  abbrev pub answered : Decision Grant → List Session → Db → Response
  answered (refused status) sessions db = record {
    answer = guard_refusal status;
    sessions = sessions;
    db = db;
  }
  answered (allowed grant) sessions db =
      let done = handle p env (organization_of p request) (current_user grant.auth) call db in
      record { answer = done.0; sessions = sessions; db = done.1 }

  pub serve : Accounts → Db → Response
  unfolding authorize
  serve accounts db =
      let (decision, sessions) =
        authorize p (route_of call) (routed call request) now accounts.users accounts.memberships
          accounts.sessions in
      answered decision sessions db
