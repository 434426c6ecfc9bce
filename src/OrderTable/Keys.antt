-- ===== src/OrderTable/Keys.antt =====
-- The statements of `OrderTable` leave the products and the table of idempotency keys alone.
use fulfill_os.Prelude.{List, arith}
use fulfill_os.Database.{Db, Product, Stock, Order, OrderItem, Movement, AuditEntry, KeyRow}
use fulfill_os.Database.Tx.{Result}
use fulfill_os.Database.Tx.Keeps.{Keeps, keeps_rules}
use fulfill_os.OrderTable.{on_inventory, on_orders, on_items, insert_movements, insert_audit}

abbrev pub kept : Db → List Product × List KeyRow
kept db = (db.products, db.idempotency_keys)

pub Keeps-on_inventory : (f : List Stock → Result (List Stock)) → Keeps kept (on_inventory f)
Keeps-on_inventory f = record { at = λ s s' a h. ground (arith, h) }

pub Keeps-on_orders : (f : List Order → Result (List Order)) → Keeps kept (on_orders f)
Keeps-on_orders f = record { at = λ s s' a h. ground (arith, h) }

pub Keeps-on_items : (f : List OrderItem → Result (List OrderItem)) → Keeps kept (on_items f)
Keeps-on_items f = record { at = λ s s' a h. ground (arith, h) }

pub Keeps-insert_movements : (ms : List Movement) → Keeps kept (insert_movements ms)
Keeps-insert_movements ms = record { at = λ s s' a h. ground (arith, h) }

pub Keeps-insert_audit : (e : AuditEntry) → Keeps kept (insert_audit e)
Keeps-insert_audit e = record { at = λ s s' a h. ground (arith, h) }

pub ruleset keys_rules = (
  keeps_rules, Keeps-on_inventory, Keeps-on_orders, Keeps-on_items, Keeps-insert_movements,
  Keeps-insert_audit,
)
