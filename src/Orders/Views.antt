-- ===== src/Orders/Views.antt =====
-- The orders that `OrderCatalog` takes and returns: the types `Order`, `OrderItem`,
-- `CreateOrderInput` and `OrderCreationResult` of the service.
use launlog_api.Prelude.{ℕ, Bool, Option, List}
use launlog_api.Prelude.Int.{ℤ}
use launlog_api.Prelude.Text.{Text, Bytes}
use launlog_api.Store.{Order, OrderItem, OrderStatus, PaymentStatus, ServiceUnit}
use launlog_api.Orders.Lines.{OrderItemInput}
use launlog_api.Orders.Quantity.{numeric_text, format_quantity}

pub record CreateOrderInput : Type 0 where
  pub outlet_id : ℕ
  pub customer_id : ℕ
  pub perfume_id : Option ℕ
  pub due_at : Option ℕ
  pub notes : Option Text
  pub items : List OrderItemInput
  pub idempotency_key : Bytes
  pub request_hash : Bytes

-- The type `OrderItem` of the service: a row without its keys, its quantity as a text.
pub record OrderItemView : Type 0 where
  pub id : ℕ
  pub service_id : ℕ
  pub perfume_id : Option ℕ
  pub service_name_snapshot : Text
  pub service_unit_snapshot : ServiceUnit
  pub unit_price_amount_snapshot : ℤ
  pub perfume_name_snapshot : Option Text
  pub quantity : Bytes
  pub line_total_amount : ℤ
  pub notes : Option Text

-- The type `Order` of the service.
pub record OrderView : Type 0 where
  pub id : ℕ
  pub business_id : ℕ
  pub outlet_timezone : Text
  pub outlet_id : ℕ
  pub customer_id : ℕ
  pub invoice_number : Text
  pub status : OrderStatus
  pub payment_status : PaymentStatus
  pub total_amount : ℤ
  pub notes : Option Text
  pub received_at : ℕ
  pub due_at : Option ℕ
  pub created_by : ℕ
  pub created_at : ℕ
  pub updated_at : ℕ
  pub items : List OrderItemView

pub record OrderCreationResult : Type 0 where
  pub order : OrderView
  pub replayed : Bool

unfoldable pub item_from : OrderItem → OrderItemView
item_from x = record {
  id = x.id;
  service_id = x.service_id;
  perfume_id = x.perfume_id;
  service_name_snapshot = x.service_name_snapshot;
  service_unit_snapshot = x.service_unit_snapshot;
  unit_price_amount_snapshot = x.unit_price_amount_snapshot;
  perfume_name_snapshot = x.perfume_name_snapshot;
  quantity = format_quantity (numeric_text x.quantity);
  line_total_amount = x.line_total_amount;
  notes = x.notes;
}

unfoldable pub order_from : Order → Text → List OrderItemView → OrderView
order_from o timezone items = record {
  id = o.id;
  business_id = o.business_id;
  outlet_timezone = timezone;
  outlet_id = o.outlet_id;
  customer_id = o.customer_id;
  invoice_number = o.invoice_number;
  status = o.status;
  payment_status = o.payment_status;
  total_amount = o.total_amount;
  notes = o.notes;
  received_at = o.received_at;
  due_at = o.due_at;
  created_by = o.created_by;
  created_at = o.created_at;
  updated_at = o.updated_at;
  items = items;
}
