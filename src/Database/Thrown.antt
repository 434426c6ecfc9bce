-- ===== src/Database/Thrown.antt =====
-- What a statement or a service can throw. A PostgreSQL error carries a state and, where the driver
-- reports one, the constraint's name; drizzle-orm wraps it as the `cause` of its own error.
use fulfill_os.Prelude.{ℕ, Option, none, some}
use fulfill_os.Common.Body.{Body}

pub data SqlState : Type 0 where
  unique_violation foreign_key_violation check_violation not_null_violation : SqlState
  deadlock_detected serialization_failure numeric_out_of_range : SqlState

pub data Constraint : Type 0 where
  idempotency_keys_org_operation_key_key : Constraint
  inventory_on_hand_non_negative inventory_reserved_non_negative : Constraint
  inventory_reserved_not_exceeding_on_hand inventory_product_id_key inventory_pkey : Constraint
  orders_pkey order_items_quantity_positive : Constraint
  products_pkey products_org_sku_normalized_key sessions_token_hash_key : Constraint
  organizations_pkey users_pkey users_email_normalized_key memberships_org_user_key : Constraint

pub record PgFields : Type 0 where
  pub code : Option SqlState
  pub constraint : Option Constraint

pub record PgFault : Type 0 where
  pub cause : Option PgFields
  pub own : PgFields

-- `invariant_violated` is the services' own `Error`, `undefined_row` the TypeError of a field of
-- `undefined`, `empty_values` drizzle-orm's refusal to insert no rows, `password_length` the
-- RangeError of `assertLength`.
pub data Thrown : Type 0 where
  query_error : PgFault → Thrown
  key_claimed : Thrown
  invariant_violated : ℕ → Thrown
  undefined_row empty_values password_length : Thrown
  http_exception : ℕ → Body → Thrown

abbrev no_fields : PgFields
no_fields = record { code = none; constraint = none }

-- A failed statement, as drizzle-orm reports it.
unfoldable pub pg_failure : SqlState → Option Constraint → Thrown
pg_failure state name =
    query_error
      (record { cause = some (record { code = some state; constraint = name }); own = no_fields })
