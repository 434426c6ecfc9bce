-- ===== src/Database/Rows.antt =====
-- The tables of apps/api/src/database/schema, one record for each.
use fulfill_os.Prelude.{ℕ, String, Option}
use fulfill_os.Prelude.Int.{ℤ}
use fulfill_os.Common.Body.{Body}
use fulfill_os.Database.Enums.{OrderStatus, MovementType, KeyState, ProductStatus, Operation}

-- `sku_normalized` is the generated column.
pub record Product : Type 0 where
  pub id : ℕ
  pub organization_id : ℕ
  pub sku : String
  pub sku_normalized : String
  pub name : String
  pub description : Option String
  pub unit_price_cents : ℕ
  pub status : ProductStatus
  pub created_at : ℕ

pub record Stock : Type 0 where
  pub id : ℕ
  pub organization_id : ℕ
  pub product_id : ℕ
  pub on_hand : ℕ
  pub reserved : ℕ

pub record Order : Type 0 where
  pub id : ℕ
  pub organization_id : ℕ
  pub status : OrderStatus
  pub currency : String
  pub created_at : ℕ
  pub updated_at : ℕ
  pub cancelled_at : Option ℕ
  pub fulfilled_at : Option ℕ

pub record OrderItem : Type 0 where
  pub organization_id : ℕ
  pub order_id : ℕ
  pub product_id : ℕ
  pub quantity : ℕ
  pub unit_price_cents : ℕ

-- `reference` is the order id of `{ orderId }`, or nothing for `{}`.
pub record Movement : Type 0 where
  pub organization_id : ℕ
  pub product_id : ℕ
  pub movement_type : MovementType
  pub on_hand_delta : ℤ
  pub reserved_delta : ℤ
  pub reason : String
  pub reference : Option ℕ

-- The metadata of an entry is left out.
pub record AuditEntry : Type 0 where
  pub organization_id : ℕ
  pub actor_user_id : ℕ
  pub action : Operation
  pub resource_id : ℕ

pub record KeyRow : Type 0 where
  pub organization_id : ℕ
  pub operation : Operation
  pub idempotency_key : ℕ
  pub request_fingerprint : ℕ
  pub state : KeyState
  pub response_status : Option ℕ
  pub response_body : Option Body
