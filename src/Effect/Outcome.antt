-- ===== src/Effect/Outcome.antt =====
-- What a service method can return: the errors of internal/service, and those of the database.
use launlog_api.Prelude.{ℕ, String, Option}
use launlog_api.Prelude.Text.{Text}

-- An error of the driver or of the server. A violated constraint is one too.
pub data DbError : Type 0 where
  unique_violation : String → DbError
  failure : String → DbError

pub data Error : Type 0 where
  -- pgx.ErrNoRows
  no_rows : Error
  database : DbError → Error
  -- orders.go
  invalid_order invalid_order_quantity order_due_at_before_receive order_not_found : Error
  order_outlet_forbidden order_customer_not_found order_service_not_found : Error
  order_perfume_not_found order_idempotency_conflict order_total_overflow : Error
  invalid_order_transition order_requires_refund invalid_cancellation : Error
  -- payments.go
  invalid_payment payment_not_found payment_overpayment payment_no_balance : Error
  payment_order_cancelled payment_idempotency_conflict payment_not_voidable : Error
  invalid_payment_void payment_ledger_invariant payment_refunds_unsupported : Error
  -- services.go
  invalid_name invalid_unit invalid_price invalid_duration not_found conflict : Error
  -- the responses of the handlers of internal/handlers/auth.go
  invalid_request request_too_large unauthorized internal_error : Error

pub data Result {ℓ} (A : Type ℓ) : Type ℓ where
  ok : A → Result A
  err : Error → Result A

-- The calls of the database that a method makes. A call in a loop carries its round.
pub data Call : Type 0 where
  begin_tx commit_tx : Call
  -- orders.sql.go
  lock_order_idempotency get_active_order_outlet get_active_staff_order_outlet : Call
  get_order_by_idempotency_key get_active_order_customer get_active_order_perfume : Call
  get_active_order_service : ℕ → Call
  get_order_time allocate_invoice_number create_order : Call
  create_order_item : ℕ → Call
  create_initial_order_status insert_order_audit_log list_order_items : Call
  get_order get_order_for_update lock_current_order_outlet_assignment : Call
  transition_order_status cancel_order insert_order_status_history : Call
  insert_order_lifecycle_audit_log list_order_status_history list_orders count_orders : Call
  -- payments.sql.go
  count_order_payment_refunds get_payment_by_idempotency_key get_confirmed_payment_total : Call
  create_confirmed_payment update_order_payment_status insert_payment_audit_log : Call
  list_order_payments count_order_payments get_order_payment_for_update : Call
  void_confirmed_payment : Call
  -- auth.sql.go, and the audit of management.sql.go
  get_user_for_login list_user_outlet_ids list_user_outlets list_user_permission_codes : Call
  create_session_family create_refresh_token find_refresh_token_family : Call
  lock_session_family get_refresh_token_for_update get_refresh_token_by_id : Call
  revoke_refresh_token revoke_session_family get_active_user : Call
  get_active_refresh_session get_logout_session insert_audit_log : Call
  -- services.sql.go
  list_services count_services get_service create_service get_service_for_update : Call
  update_service soft_delete_service : Call

-- What a transaction finds outside the tables: its start time, the session's date, the clock of the
-- program, the next random text of a refresh token if the generator does not fail, and which calls
-- of the database fail.
pub record Env : Type 0 where
  pub now : ℕ
  pub today : ℕ
  pub clock : ℕ
  pub random : Option Text
  pub failure_of : Call → Option DbError
