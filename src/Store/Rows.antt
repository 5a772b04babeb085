-- ===== src/Store/Rows.antt =====
-- The rows of the tables that orders, payments, services and sessions read and write
-- (internal/repository/postgresql/models.go). A nullable column is an `Option`, an id a natural
-- number, an amount an int64, and a timestamp a number of microseconds.
use launlog_api.Prelude.{Bool, ℕ, Option, List}
use launlog_api.Prelude.Int.{ℤ}
use launlog_api.Prelude.Text.{Text, Bytes}
use launlog_api.Store.Enums.{
  OrderStatus, PaymentStatus, EntryStatus, Method, Role, ServiceUnit, AuditAction, EntityType,
}

pub record Order : Type 0 where
  pub id : ℕ
  pub business_id : ℕ
  pub outlet_id : ℕ
  pub outlet_code_snapshot : Option Text
  pub customer_id : ℕ
  pub invoice_number : Text
  pub status : OrderStatus
  pub payment_status : PaymentStatus
  pub total_amount : ℤ
  pub notes : Option Text
  pub received_at : ℕ
  pub due_at : Option ℕ
  pub completed_at : Option ℕ
  pub cancelled_at : Option ℕ
  pub cancelled_by : Option ℕ
  pub cancellation_reason : Option Text
  pub deleted_at : Option ℕ
  pub created_by : ℕ
  pub created_at : ℕ
  pub updated_at : ℕ
  pub idempotency_key : Option Bytes
  pub request_hash : Option Bytes

pub record OrderItem : Type 0 where
  pub id : ℕ
  pub business_id : ℕ
  pub outlet_id : ℕ
  pub order_id : ℕ
  pub service_id : ℕ
  pub perfume_id : Option ℕ
  pub service_name_snapshot : Text
  pub service_unit_snapshot : ServiceUnit
  pub unit_price_amount_snapshot : ℤ
  pub perfume_name_snapshot : Option Text
  -- NUMERIC(12,3), in thousandths
  pub quantity : ℤ
  pub line_total_amount : ℤ
  pub notes : Option Text

pub record OrderStatusHistory : Type 0 where
  pub id : ℕ
  pub business_id : ℕ
  pub outlet_id : ℕ
  pub order_id : ℕ
  pub from_status : Option OrderStatus
  pub to_status : OrderStatus
  pub changed_by : ℕ
  pub notes : Option Text
  pub changed_at : ℕ

pub record Payment : Type 0 where
  pub id : ℕ
  pub business_id : ℕ
  pub outlet_id : ℕ
  pub order_id : ℕ
  pub amount : ℤ
  pub method : Method
  pub status : EntryStatus
  pub external_reference : Option Text
  pub notes : Option Text
  pub confirmed_at : Option ℕ
  pub voided_at : Option ℕ
  pub voided_by : Option ℕ
  pub void_reason : Option Text
  pub created_by : ℕ
  pub created_at : ℕ
  pub idempotency_key : Option Bytes
  pub request_hash : Option Bytes

pub record PaymentRefund : Type 0 where
  pub id : ℕ
  pub business_id : ℕ
  pub outlet_id : ℕ
  pub order_id : ℕ
  pub payment_id : ℕ
  pub amount : ℤ

pub record InvoiceCounter : Type 0 where
  pub business_id : ℕ
  pub outlet_id : ℕ
  pub counter_date : ℕ
  pub next_number : ℕ

pub record Outlet : Type 0 where
  pub id : ℕ
  pub business_id : ℕ
  pub code : Text
  pub is_active : Bool
  pub timezone : Text

pub record User : Type 0 where
  pub id : ℕ
  pub business_id : ℕ
  pub email : Text
  pub password_hash : Bytes
  pub full_name : Text
  pub role : Role
  pub is_active : Bool

pub record UserOutlet : Type 0 where
  pub business_id : ℕ
  pub user_id : ℕ
  pub outlet_id : ℕ

pub record Customer : Type 0 where
  pub id : ℕ
  pub business_id : ℕ
  pub deleted_at : Option ℕ

pub record Service : Type 0 where
  pub id : ℕ
  pub business_id : ℕ
  pub name : Text
  pub description : Option Text
  pub unit : ServiceUnit
  pub unit_price_amount : ℤ
  pub estimated_duration_minutes : ℤ
  pub is_active : Bool
  pub created_at : ℕ
  pub updated_at : ℕ
  pub deleted_at : Option ℕ

-- A service as `ServiceCatalog` answers with it, and marshals it.
pub record ServiceView : Type 0 where
  pub id : ℕ
  pub business_id : ℕ
  pub name : Text
  pub description : Option Text
  pub unit : ServiceUnit
  pub unit_price_amount : ℤ
  pub estimated_duration_minutes : ℤ
  pub is_active : Bool
  pub created_at : ℕ
  pub updated_at : ℕ

pub record Perfume : Type 0 where
  pub id : ℕ
  pub business_id : ℕ
  pub name : Text
  pub is_active : Bool
  pub deleted_at : Option ℕ

-- An entry of `items` in the audit of a new order, with the quantity as the request wrote it.
pub record AuditItem : Type 0 where
  pub service_id : ℕ
  pub service_name : Text
  pub service_unit : ServiceUnit
  pub unit_price_amount : ℤ
  pub quantity : Bytes
  pub line_total_amount : ℤ
  pub perfume_id : Option ℕ
  pub perfume_name : Option Text

-- The values that a handler marshals into `old_values` and `new_values`.
pub data AuditValues : Type 0 where
  no_values : AuditValues
  status_before : OrderStatus → Option ℕ → AuditValues
  status_after : OrderStatus → Option ℕ → Option Text → AuditValues
  cancel_before : OrderStatus → PaymentStatus → AuditValues
  cancel_after : OrderStatus → PaymentStatus → Option ℕ → ℕ → Text → Option ℕ → AuditValues
  ledger_before : PaymentStatus → ℤ → ℤ → AuditValues
  ledger_after : ℕ → Method → ℤ → PaymentStatus → ℤ → ℤ → AuditValues
  void_before : ℕ → ℤ → EntryStatus → PaymentStatus → AuditValues
  void_after : ℕ → ℤ → EntryStatus → ℕ → Text → PaymentStatus → ℤ → ℤ → AuditValues
  session_event : AuditAction → AuditValues
  service_values : ServiceView → AuditValues
  service_gone : AuditValues
  created_values : Text → ℕ → ℤ → Option ℕ → ℕ → List AuditItem → Option ℕ → AuditValues

-- The table `businesses`.
pub record Business : Type 0 where
  pub id : ℕ
  pub is_active : Bool

pub record UserPermission : Type 0 where
  pub business_id : ℕ
  pub user_id : ℕ
  pub permission_code : Text

pub record SessionFamily : Type 0 where
  pub id : ℕ
  pub business_id : ℕ
  pub user_id : ℕ
  pub revoked_at : Option ℕ

pub record RefreshToken : Type 0 where
  pub id : ℕ
  pub business_id : ℕ
  pub user_id : ℕ
  pub family_id : ℕ
  pub token_hash : Text
  pub expires_at : ℕ
  pub revoked_at : Option ℕ

pub record AuditLog : Type 0 where
  pub business_id : ℕ
  pub outlet_id : Option ℕ
  pub actor_user_id : Option ℕ
  pub action : AuditAction
  pub entity_type : EntityType
  pub entity_id : Option ℕ
  pub old_values : AuditValues
  pub new_values : AuditValues
  pub ip_address : Option Bytes
  pub user_agent : Option Bytes
