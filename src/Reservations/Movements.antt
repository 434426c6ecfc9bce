-- ===== src/Reservations/Movements.antt =====
-- What `releaseStock` and `fulfillStock` of apps/api/src/reservations/reservations.service.ts share:
-- the movements are written only if there are lines.
use fulfill_os.Prelude.{
  List, [], ◌∷◌, ◌++◌, ◌≡◌, refl, ltb, lt→ltb, suc, arith, length, if◌then◌else◌,
}
use fulfill_os.Database.{Db, Movement}
use fulfill_os.Database.Tx.{ok, Tx, pure}
use fulfill_os.Database.Tx.Keeps.{Keeps}
use fulfill_os.OrderTable.Keys.{kept, Keeps-insert_movements}
use fulfill_os.OrderTable.{insert_movements}

-- `if (items.length > 0) { await tx.insert(inventoryMovements)… }`
unfoldable pub insert_any_movements : List Movement → Tx Db (Unit {0})
insert_any_movements ms = if ltb 0 (length ms) then insert_movements ms else pure tt

pub insert_any_movements-ok :
    (ms : List Movement) (db : Db)
    → insert_any_movements ms db ≡ ok (tt, record db { movements = ms ++ db.movements })
unfolding insert_any_movements
insert_any_movements-ok [] db = refl
insert_any_movements-ok (m ∷ ms) db = rw (lt→ltb 0 (suc (length ms)) (omega arith)) refl

pub Keeps-insert_any_movements : (ms : List Movement) → Keeps kept (insert_any_movements ms)
unfolding insert_any_movements
Keeps-insert_any_movements [] = record { at = λ s s' a h. cc }
Keeps-insert_any_movements (m ∷ ms) =
    rw (lt→ltb 0 (suc (length ms)) (omega arith)) (Keeps-insert_movements (m ∷ ms))
