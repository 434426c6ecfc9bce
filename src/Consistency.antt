-- ===== src/Consistency.antt =====
-- What holds between the tables of apps/api/src/database/schema, taken together: the keys and the
-- checks of the tables, the reserved stock of the pending orders, the owners of the stock rows, the
-- unique SKUs, and the ledger.
pub mod Served
pub mod Kept
pub mod History
use fulfill_os.Database.{Db}
use fulfill_os.Catalog.{IsCatalogued, SkusKeyed}
use fulfill_os.Reservations.Backed.{IsBacked}
use fulfill_os.Ledger.{IsExplained}

pub record IsConsistent (db : Db) : Type 0 where
  pub backed : IsBacked db
  pub catalogued : IsCatalogued db.products db.inventory
  pub skus : SkusKeyed db.products
  pub explained : IsExplained db.inventory db.movements
