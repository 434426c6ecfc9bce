-- ===== src/Database.antt =====
-- apps/api/src/database/schema: the rows of the tables that the stock services read and write, and
-- the database as one record of tables. A uuid, an idempotency key and a fingerprint are only
-- stored and compared, so each is a number; an instant is a number of microseconds. Columns that
-- no modelled code reads are left out (the ids of order items, movements, audit entries and keys,
-- and the timestamps of stock rows). A counter that a CHECK keeps from being negative is a natural.
pub mod Enums
mod Rows
pub mod Thrown
pub mod Tx
pub use Rows.*
use fulfill_os.Prelude.{List, []}

pub record Db : Type 0 where
  pub products : List Product
  pub inventory : List Stock
  pub orders : List Order
  pub order_items : List OrderItem
  pub movements : List Movement
  pub audit_log : List AuditEntry
  pub idempotency_keys : List KeyRow

abbrev pub empty_db : Db
empty_db = record {
  products = [];
  inventory = [];
  orders = [];
  order_items = [];
  movements = [];
  audit_log = [];
  idempotency_keys = [];
}
