-- ===== src/Common/Body.antt =====
-- The JSON bodies that the guarded operations answer with, and that `idempotency_keys` stores:
-- apps/api/src/reservations/reservations.service.ts, inventory/inventory.service.ts and
-- idempotency/idempotency.util.ts. A template text is a constructor over its parts.
use fulfill_os.Prelude.{ℕ, String, Option, List}
use fulfill_os.Prelude.Int.{ℤ}
use fulfill_os.Database.Enums.{OrderStatus}

pub record ReservationItemResult : Type 0 where
  pub product_id : ℕ
  pub quantity : ℕ
  pub unit_price_cents : ℕ

pub record ReservationResult : Type 0 where
  pub order_id : ℕ
  pub status : OrderStatus
  pub currency : String
  pub items : List ReservationItemResult
  pub created_at : ℕ

pub record ReleaseResult : Type 0 where
  pub order_id : ℕ
  pub status : OrderStatus
  pub cancelled_at : Option ℕ

pub record FulfillResult : Type 0 where
  pub order_id : ℕ
  pub status : OrderStatus
  pub fulfilled_at : Option ℕ

pub record InventoryLine : Type 0 where
  pub product_id : ℕ
  pub sku : String
  pub name : String
  pub on_hand : ℕ
  pub reserved : ℕ
  pub available : ℤ

pub record Shortfall : Type 0 where
  pub product_id : ℕ
  pub requested : ℕ
  pub available : ℤ

-- The bodies of rejections.
pub data Message : Type 0 where
  duplicate_product_lines unknown_products : Message
  insufficient_stock : List Shortfall → Message
  reservation_not_found order_not_found product_not_found : Message
  cannot_release cannot_fulfill : OrderStatus → Message
  no_inventory_record : Message
  negative_on_hand : ℕ → ℤ → Message
  below_reserved : ℕ → ℕ → ℤ → Message
  stock_overflow sku_taken email_taken invalid_credentials : Message
  key_briefly_claimed key_payload_differs key_in_progress : Message

pub data Body : Type 0 where
  reservation : ReservationResult → Body
  released : ReleaseResult → Body
  fulfilled : FulfillResult → Body
  line : InventoryLine → Body
  rejection : Message → Body
