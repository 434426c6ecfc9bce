-- ===== src/Reservations.antt =====
-- apps/api/src/reservations/reservations.service.ts: reserving stock for an order, releasing it and
-- consuming it.
pub mod Create
pub mod Held
pub mod Backed
pub mod Movements
pub mod Release
pub mod Fulfill
pub mod Once
pub mod Race
pub mod Undo
pub mod Closing
