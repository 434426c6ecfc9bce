-- ===== src/Lib.antt =====
-- FulfillOS: the order and stock core of the API under apps/api/src.
--
-- An organization keeps products, one stock row for a product (`on_hand` and `reserved`), and
-- orders of lines. Creating a reservation writes a pending order and raises `reserved`; a release
-- cancels the order and lowers it again; a fulfillment completes the order and lowers both counts;
-- an adjustment moves `on_hand`. Each runs in one transaction that first claims an idempotency key
-- and last completes it, so that a repeated request is answered from the stored outcome.
--
-- Where each part stands:
-- - Platform: what the code uses of PostgreSQL, the driver, Node.js and its configuration, as
--   parameters.
-- - Common: apps/api/src/common. Body and Outcome hold the results and OperationOutcome
--   (operation-outcome.util.ts), PgError pg-error.util.ts, PostgresInt postgres-int.util.ts,
--   CanonicalJson canonical-json.util.ts.
-- - Database: apps/api/src/database/schema as records and lists, the errors that statements throw,
--   and transactions (Database.Tx), which commit the last state or restore the first.
-- - Idempotency: apps/api/src/idempotency/idempotency.util.ts, and `guarded`, the transaction and
--   its catch that adjustStock, createReservation, releaseReservation and fulfillOrder share.
-- - Stocks, Catalog, OrderTable: the statements on `inventory`, `products`, `orders`,
--   `order_items`, `inventory_movements` and `audit_log`, with the constraints that they can meet;
--   `lock_rows` is SELECT … FOR UPDATE, `locked_row` the Map of its rows, `for_lines` the loop.
-- - Reservations: apps/api/src/reservations/reservations.service.ts. Create is createReservation
--   and reserveStock, Release releaseReservation and releaseStock, Fulfill fulfillOrder and
--   fulfillStock. Backed states the invariant: keyed tables, counts within their constraints, and
--   the reserved count of every product equal to what the lines of the pending orders hold.
--   Undo is a reservation followed by its release.
-- - Inventory: apps/api/src/inventory/inventory.service.ts. Products:
--   apps/api/src/products/products.service.ts.
-- - Ledger: the movements of all these services, read as a ledger of the counts. Consistency: what
--   holds between all the tables, kept by every guarded operation whatever its key says (Served,
--   Kept), and so by every history of requests (History). Warehouse: the counts without tables, and
--   the step that each request asks for.
-- - Orders, Dashboard, Common.Pagination: the read side, apps/api/src/orders/orders.service.ts,
--   apps/api/src/dashboard/dashboard.service.ts and apps/api/src/common/pagination.util.ts.
-- - Sessions: apps/api/src/auth/session.service.ts. Access: the guards of apps/api/src/auth/guards
--   and apps/api/src/organizations/guards in the order in which a route of an organization runs
--   them, with getMembership of organizations.service.ts. RateLimit:
--   apps/api/src/auth/guards/rate-limit.guard.ts.
-- - Auth: apps/api/src/auth/auth.service.ts, with the handlers of auth.controller.ts; Passwords
--   password.service.ts and Cookies cookie.util.ts beside it. Organizations:
--   apps/api/src/organizations/organizations.service.ts.
-- - Api: the routes of an organization in products.controller.ts, inventory.controller.ts,
--   orders.controller.ts, reservations.controller.ts and dashboard.controller.ts of apps/api/src,
--   behind the guards of Access.
-- - Web: apps/web/lib/api.ts, the headers and errors of the web client.
-- - Examples: a small shop, a history, a registration and a request on which the theorems are applied.
--
-- Every loop is recursion on its list, so there is no fuel. Counts are naturals where a CHECK keeps
-- them from being negative, and integers where the code subtracts or adds a signed delta; the range
-- of a 32-bit column is a test of every write (`checked_counts`).
--
-- A walk along the pages of a listing has fuel, of one page for each row and one more, and gives
-- nothing where the fuel runs out before the last page.
--
-- Not modelled: statements of two transactions in between each other (a transaction is one step,
-- which commits or rolls back as PostgreSQL documents it, and locks do not show), foreign keys of the
-- stock tables, audit metadata, columns that no modelled code reads, the validation pipes, the text
-- of a cursor, an order or product id of a path that is not written as PostgreSQL prints the uuid
-- (such an id is compared by value, but hashed as it is written), the routes and
-- the pages of the web client, the rest of the configuration, and health checks.
pub mod Prelude
pub mod Platform
pub mod Common
pub mod Database
pub mod Idempotency
pub mod Stocks
pub mod Catalog
pub mod OrderTable
pub mod Reservations
pub mod Inventory
pub mod Ledger
pub mod Consistency
pub mod Warehouse
pub mod Products
pub mod Passwords
pub mod Organizations
pub mod Auth
pub mod Cookies
pub mod RateLimit
pub mod Web
pub mod Api
pub mod Sessions
pub mod Access
pub mod Orders
pub mod Dashboard
mod Examples
