-- ===== src/Store/Enums.antt =====
-- The text columns and arguments that the program compares with fixed words
-- (internal/repository/postgresql/models.go). A word that a request may spell freely keeps its
-- unknown spellings under a last constructor.
use launlog_api.Prelude.{String, Bool, true, false}
use launlog_api.Prelude.Text.{Text, codes}

-- orders.status, and the `toStatus` of a request.
pub data OrderStatus : Type 0 where
  received processing ready_for_pickup completed cancelled : OrderStatus
  other_status : String → OrderStatus

-- orders.payment_status.
pub data PaymentStatus : Type 0 where
  unpaid partially_paid paid refunded : PaymentStatus

-- payments.status.
pub data EntryStatus : Type 0 where
  pending confirmed voided : EntryStatus

-- payments.method, and the `method` of a request.
pub data Method : Type 0 where
  cash bca_transfer qris : Method
  other_method : String → Method

-- users.role, and the role of a principal.
pub data Role : Type 0 where
  admin laundry_staff : Role
  other_role : String → Role

-- services.unit: kg, pcs, m and m2.
pub data ServiceUnit : Type 0 where
  kg pcs metre square_metre : ServiceUnit

-- audit_logs.action.
pub data AuditAction : Type 0 where
  order_created order_status_changed order_cancelled payment_confirmed payment_voided : AuditAction
  auth_session_created auth_session_refreshed auth_refresh_replay_detected : AuditAction
  auth_session_revoked : AuditAction
  service_created service_updated service_deactivated service_reactivated : AuditAction
  service_deleted : AuditAction

-- audit_logs.entity_type.
pub data EntityType : Type 0 where
  order_entity payment_entity session_family_entity service_entity : EntityType

abbrev pub is_admin : Role → Bool
is_admin admin = true
is_admin laundry_staff = false
is_admin (other_role _) = false

abbrev pub is_staff : Role → Bool
is_staff laundry_staff = true
is_staff admin = false
is_staff (other_role _) = false

abbrev pub is_completed : OrderStatus → Bool
is_completed completed = true
is_completed _ = false

abbrev pub is_cancelled : OrderStatus → Bool
is_cancelled cancelled = true
is_cancelled _ = false

abbrev pub is_unpaid : PaymentStatus → Bool
is_unpaid unpaid = true
is_unpaid _ = false

abbrev pub is_confirmed : EntryStatus → Bool
is_confirmed confirmed = true
is_confirmed _ = false

abbrev pub is_voided : EntryStatus → Bool
is_voided voided = true
is_voided _ = false

abbrev pub is_cash : Method → Bool
is_cash cash = true
is_cash _ = false

abbrev pub is_pcs : ServiceUnit → Bool
is_pcs pcs = true
is_pcs _ = false

-- The word that orders.status holds.
abbrev pub status_text : OrderStatus → Text
status_text received = codes "RECEIVED"
status_text processing = codes "PROCESSING"
status_text ready_for_pickup = codes "READY_FOR_PICKUP"
status_text completed = codes "COMPLETED"
status_text cancelled = codes "CANCELLED"
status_text (other_status s) = codes s

-- The word that users.role holds.
abbrev pub role_text : Role → Text
role_text admin = codes "ADMIN"
role_text laundry_staff = codes "LAUNDRY_STAFF"
role_text (other_role s) = codes s

-- The word that services.unit holds.
abbrev pub unit_text : ServiceUnit → Text
unit_text kg = codes "kg"
unit_text pcs = codes "pcs"
unit_text metre = codes "m"
unit_text square_metre = codes "m2"
