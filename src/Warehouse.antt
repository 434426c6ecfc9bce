-- ===== src/Warehouse.antt =====
-- What the stock services of apps/api/src promise, without tables: the counts of every product, and
-- the step that each event takes (docs/architecture/inventory.md).
pub mod Refines
use fulfill_os.Prelude.{ℕ, ◌+◌, ◌-◌, ◌≤◌, ◌≡◌, ◌≢◌}
use fulfill_os.Prelude.Int.{ℤ, pos, ◌+ℤ◌}
use fulfill_os.Common.PostgresInt.{pg_int4_max}
use fulfill_os.Database.{Db}
use fulfill_os.Stocks.{stock_of}
use fulfill_os.Reservations.Backed.{on_hand_of, reserved_of}

pub record Counts : Type 0 where
  pub on_hand : ℕ
  pub reserved : ℕ

-- What the warehouse is asked for: to take in a new product with its first units, to move the
-- on-hand count of a product by a delta, or to reserve, take back or ship units of its products.
pub data Event : Type 0 where
  arrives : ℕ → ℕ → Event
  moves : ℕ → ℤ → Event
  reserves gives_back ships : (ℕ → ℕ) → Event

-- The step of an event: the counts before determine the counts after, which are never more reserved
-- than on hand, and never more than the range of the column.
abbrev pub Steps : Event → (ℕ → Counts) → (ℕ → Counts) → Type 0
Steps (arrives i n) before after =
    (before i ≡ record { on_hand = 0; reserved = 0 })
    × (after i ≡ record { on_hand = n; reserved = 0 })
    × (n ≤ pg_int4_max)
    × ((q : ℕ) → q ≢ i → after q ≡ before q)
Steps (moves i delta) before after =
    (pos (after i).on_hand ≡ pos (before i).on_hand +ℤ delta)
    × ((after i).reserved ≡ (before i).reserved)
    × ((after i).reserved ≤ (after i).on_hand)
    × ((after i).on_hand ≤ pg_int4_max)
    × ((q : ℕ) → q ≢ i → after q ≡ before q)
Steps (reserves units) before after =
    ((q : ℕ) → (before q).reserved + units q ≤ (before q).on_hand)
    × ((q : ℕ)
        → after q
          ≡ record { on_hand = (before q).on_hand; reserved = (before q).reserved + units q })
Steps (gives_back units) before after =
    ((q : ℕ) → units q ≤ (before q).reserved)
    × ((q : ℕ)
        → after q
          ≡ record { on_hand = (before q).on_hand; reserved = (before q).reserved - units q })
Steps (ships units) before after =
    ((q : ℕ) → units q ≤ (before q).reserved)
    × ((q : ℕ)
        → after q ≡ record {
          on_hand = (before q).on_hand - units q;
          reserved = (before q).reserved - units q;
        })

abbrev pub Idle : (ℕ → Counts) → (ℕ → Counts) → Type 0
Idle before after = (q : ℕ) → after q ≡ before q

-- The counts that a database holds.
abbrev pub shelf : Db → ℕ → Counts
shelf db q = record {
  on_hand = on_hand_of (stock_of q db.inventory);
  reserved = reserved_of (stock_of q db.inventory);
}
