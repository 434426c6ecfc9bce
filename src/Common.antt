-- ===== src/Common.antt =====
-- apps/api/src/common: what the services share.
pub mod Body
pub mod Outcome
pub mod PgError
pub mod PostgresInt
pub mod Pagination
pub mod CanonicalJson
