-- ===== src/Examples.antt =====
-- Runs of the operations of apps/api/src/reservations and apps/api/src/inventory on a small shop.
mod Shop
mod Runs
mod Witnesses
mod Reads
mod Histories
mod SignUps
mod Listings
mod Requests
mod Answers
