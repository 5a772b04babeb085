-- ===== src/Store.antt =====
-- The database as the queries see it: one list for each table, in the order of insertion, and the
-- next value of each id sequence.
mod Enums
mod Rows
pub use Enums.*
pub use Rows.*
use launlog_api.Prelude.{ℕ, List}

pub record Db : Type 0 where
  pub orders : List Order
  pub order_items : List OrderItem
  pub order_status_history : List OrderStatusHistory
  pub payments : List Payment
  pub payment_refunds : List PaymentRefund
  pub audit_logs : List AuditLog
  pub invoice_counters : List InvoiceCounter
  pub outlets : List Outlet
  pub users : List User
  pub user_outlets : List UserOutlet
  pub customers : List Customer
  pub services : List Service
  pub perfumes : List Perfume
  pub businesses : List Business
  pub user_permissions : List UserPermission
  pub session_families : List SessionFamily
  pub refresh_tokens : List RefreshToken
  pub next_order_id : ℕ
  pub next_item_id : ℕ
  pub next_history_id : ℕ
  pub next_payment_id : ℕ
  pub next_service_id : ℕ
  pub next_family_id : ℕ
  pub next_token_id : ℕ
