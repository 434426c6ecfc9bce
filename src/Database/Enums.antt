-- ===== src/Database/Enums.antt =====
-- The enum types of apps/api/src/database/schema.
use fulfill_os.Prelude.{Bool, true, false}

pub data OrderStatus : Type 0 where
  pending fulfilled cancelled : OrderStatus

pub data MovementType : Type 0 where
  on_hand_adjustment reservation release fulfillment : MovementType

pub data KeyState : Type 0 where
  in_progress completed failed : KeyState

pub data ProductStatus : Type 0 where
  active archived : ProductStatus

-- The `operation` and `action` texts.
pub data Operation : Type 0 where
  reservation_create reservation_release order_fulfill inventory_adjust : Operation

-- Comparisons of an enum column with a value.
unfoldable pub is_pending : OrderStatus → Bool
is_pending pending = true
is_pending fulfilled = false
is_pending cancelled = false

unfoldable pub same_operation : Operation → Operation → Bool
same_operation reservation_create reservation_create = true
same_operation reservation_release reservation_release = true
same_operation order_fulfill order_fulfill = true
same_operation inventory_adjust inventory_adjust = true
same_operation _ _ = false
