-- ===== src/Orders/Reads.antt =====
-- `OrderCatalog.StatusHistory` and `OrderCatalog.List` (internal/service/orders.go).
use launlog_api.Prelude.{ℕ, ◌||◌, Option, List, ltb, map}
use launlog_api.Prelude.Int.{ℤ}
use launlog_api.Prelude.Text.{Text}
use launlog_api.Store.{Order, OrderStatus, PaymentStatus, OrderStatusHistory, is_admin}
use launlog_api.Effect.{
  M, pure, raise_if, query, or_no_rows, rolled_back, ◌>>=◌, ◌>>◌, order_not_found,
  list_order_status_history, list_orders, count_orders,
}
use launlog_api.Query.Listing as Listing
use launlog_api.Actor.{Actor, is_anonymous}
use launlog_api.Orders.Lifecycle.{lock_lifecycle_order}

pub record OrderStatusHistoryEntry : Type 0 where
  pub id : ℕ
  pub from_status : Option OrderStatus
  pub to_status : OrderStatus
  pub changed_by : ℕ
  pub changed_by_name : Text
  pub notes : Option Text
  pub changed_at : ℕ

unfoldable pub history_entry : OrderStatusHistory × Text → OrderStatusHistoryEntry
history_entry (h, name) = record {
  id = h.id;
  from_status = h.from_status;
  to_status = h.to_status;
  changed_by = h.changed_by;
  changed_by_name = name;
  notes = h.notes;
  changed_at = h.changed_at;
}

unfoldable pub status_history_body : Actor → ℕ → M (List OrderStatusHistoryEntry)
status_history_body actor order_id = do
  o ← or_no_rows order_not_found (lock_lifecycle_order actor order_id)
  rows ←
      query list_order_status_history
        (Listing.list_order_status_history actor.business_id o.outlet_id order_id)
  pure (map history_entry rows)

unfoldable pub status_history : Actor → ℕ → M (List OrderStatusHistoryEntry)
status_history actor order_id = do
  raise_if (ltb order_id 1 || is_anonymous actor) order_not_found
  rolled_back (status_history_body actor order_id)

pub record OrderFilter : Type 0 where
  pub outlet_id : Option ℕ
  pub status : Option Text
  pub page_offset : ℕ
  pub page_limit : ℕ

pub record OrderSummary : Type 0 where
  pub outlet_timezone : Text
  pub id : ℕ
  pub business_id : ℕ
  pub outlet_id : ℕ
  pub customer_id : ℕ
  pub invoice_number : Text
  pub status : OrderStatus
  pub payment_status : PaymentStatus
  pub total_amount : ℤ
  pub notes : Option Text
  pub received_at : ℕ
  pub due_at : Option ℕ
  pub created_by : ℕ
  pub created_at : ℕ
  pub updated_at : ℕ

unfoldable pub order_summary_from : Order × Text → OrderSummary
order_summary_from (o, timezone) = record {
  outlet_timezone = timezone;
  id = o.id;
  business_id = o.business_id;
  outlet_id = o.outlet_id;
  customer_id = o.customer_id;
  invoice_number = o.invoice_number;
  status = o.status;
  payment_status = o.payment_status;
  total_amount = o.total_amount;
  notes = o.notes;
  received_at = o.received_at;
  due_at = o.due_at;
  created_by = o.created_by;
  created_at = o.created_at;
  updated_at = o.updated_at;
}

-- Two calls outside a transaction: the page, and the number of all matches.
unfoldable pub list_order_summaries : Actor → OrderFilter → M (List OrderSummary × ℕ)
list_order_summaries actor filter = do
  rows ← query list_orders (
      Listing.list_orders actor.business_id (is_admin actor.role) actor.outlet_ids filter.outlet_id
        filter.status filter.page_offset filter.page_limit)
  total ← query count_orders (
      Listing.count_orders actor.business_id (is_admin actor.role) actor.outlet_ids filter.outlet_id
        filter.status)
  pure (map order_summary_from rows, total)
