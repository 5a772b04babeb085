-- ===== src/Orders/Status.antt =====
-- The status matrix of an order (`allowedOrderTransition`, `validStatusTarget`).
use launlog_api.Prelude.{Bool, true, false, ◌||◌}
use launlog_api.Store.{
  OrderStatus, received, processing, ready_for_pickup, is_cancelled, is_completed,
}

abbrev pub is_processing : OrderStatus → Bool
is_processing processing = true
is_processing _ = false

abbrev pub is_ready : OrderStatus → Bool
is_ready ready_for_pickup = true
is_ready _ = false

unfoldable pub allowed_order_transition : OrderStatus → OrderStatus → Bool
allowed_order_transition received to_status = is_processing to_status || is_cancelled to_status
allowed_order_transition processing to_status = is_ready to_status || is_cancelled to_status
allowed_order_transition ready_for_pickup to_status =
    is_completed to_status || is_cancelled to_status
allowed_order_transition _ to_status = false

unfoldable pub valid_status_target : OrderStatus → Bool
valid_status_target status = is_processing status || is_ready status || is_completed status
