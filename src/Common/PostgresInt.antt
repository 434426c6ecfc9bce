-- ===== src/Common/PostgresInt.antt =====
-- apps/api/src/common/postgres-int.util.ts: the bounds of a PostgreSQL `integer` column.
use fulfill_os.Prelude.{ℕ}

abbrev pub pg_int4_max : ℕ
pg_int4_max = 2147483647

-- The magnitude of `PG_INT4_MIN`.
abbrev pub pg_int4_min : ℕ
pg_int4_min = 2147483648
