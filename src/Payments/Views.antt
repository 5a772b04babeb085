-- ===== src/Payments/Views.antt =====
-- What the payment methods take and return.
use launlog_api.Prelude.{ℕ, Bool, Option, none, some, List, ltb, length}
use launlog_api.Prelude.Int.{ℤ}
use launlog_api.Prelude.Text.{Text, Bytes}
use launlog_api.Store.{Payment, PaymentStatus, EntryStatus, Method}

pub record RecordPaymentInput : Type 0 where
  pub tendered_amount : ℤ
  pub method : Method
  pub external_reference : Option Text
  pub notes : Option Text
  pub idempotency_key : Bytes
  pub request_hash : Bytes

-- The type `Payment` of the service: a row without its keys.
pub record PaymentView : Type 0 where
  pub id : ℕ
  pub amount : ℤ
  pub method : Method
  pub status : EntryStatus
  pub external_reference : Option Text
  pub notes : Option Text
  pub confirmed_at : Option ℕ
  pub voided_at : Option ℕ
  pub voided_by : Option ℕ
  pub void_reason : Option Text
  pub created_by : ℕ
  pub created_at : ℕ

pub record PaymentRecordResult : Type 0 where
  pub payment : PaymentView
  pub payment_status : PaymentStatus
  pub paid_amount : ℤ
  pub outstanding_amount : ℤ
  pub tendered_amount : ℤ
  pub change_amount : ℤ
  pub replayed : Bool

pub record PaymentListResult : Type 0 where
  pub order_id : ℕ
  pub order_total : ℤ
  pub payment_status : PaymentStatus
  pub paid_amount : ℤ
  pub outstanding_amount : ℤ
  pub items : List PaymentView
  pub total_items : ℕ

pub record PaymentVoidResult : Type 0 where
  pub payment : PaymentView
  pub payment_status : PaymentStatus
  pub paid_amount : ℤ
  pub outstanding_amount : ℤ

unfoldable pub payment_from : Payment → PaymentView
payment_from p = record {
  id = p.id;
  amount = p.amount;
  method = p.method;
  status = p.status;
  external_reference = p.external_reference;
  notes = p.notes;
  confirmed_at = p.confirmed_at;
  voided_at = p.voided_at;
  voided_by = p.voided_by;
  void_reason = p.void_reason;
  created_by = p.created_by;
  created_at = p.created_at;
}

-- `value != nil && utf8.RuneCountInString(*value) > max`.
unfoldable pub exceeds_payment_text_limit : Option Text → ℕ → Bool
exceeds_payment_text_limit none max = Bool.false
exceeds_payment_text_limit (some s) max = ltb max (length s)
