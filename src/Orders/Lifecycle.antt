-- ===== src/Orders/Lifecycle.antt =====
-- The methods of internal/service/orders.go that move an order through its life.
pub mod Locking
pub mod Locked
use launlog_api.Prelude.{ℕ, not, ◌||◌, Option, none, some, ltb, if◌then◌else◌}
use launlog_api.Prelude.Text.{Text, byte_len, is_empty, trim_space}
use launlog_api.Store.{
  Order, OrderStatus, PaymentStatus, AuditAction, AuditValues, cancelled, is_admin, is_unpaid,
  order_status_changed, order_cancelled, status_before, status_after, cancel_before, cancel_after,
}
use launlog_api.Effect.{
  M, pure, raise_if, query_one, update_one, exec, or_no_rows, transaction, ◌>>=◌, ◌>>◌,
  get_order_for_update, lock_current_order_outlet_assignment, transition_order_status, cancel_order,
  insert_order_status_history, insert_order_lifecycle_audit_log, order_not_found,
  order_outlet_forbidden, invalid_order_transition, invalid_cancellation, order_requires_refund,
}
use launlog_api.Query.Lifecycle as Sql
use launlog_api.Actor.{Actor, is_anonymous, audit_user_agent}
use launlog_api.Orders.Status.{allowed_order_transition, valid_status_target}

pub record OrderLifecycleResult : Type 0 where
  pub order_id : ℕ
  pub status : OrderStatus
  pub payment_status : PaymentStatus
  pub updated_at : ℕ
  pub completed_at : Option ℕ
  pub cancelled_at : Option ℕ
  pub cancellation_reason : Option Text

-- The assignment of staff is read once more, under a lock.
unfoldable pub lock_assignment : Actor → Order → M (Unit {0})
lock_assignment actor o = if is_admin actor.role then pure tt else do
  _ ← or_no_rows order_outlet_forbidden (
      query_one lock_current_order_outlet_assignment
        (Sql.lock_current_order_outlet_assignment actor.business_id actor.user_id o.outlet_id))
  pure tt

unfoldable pub lock_lifecycle_order : Actor → ℕ → M Order
lock_lifecycle_order actor order_id = do
  o ←
      query_one get_order_for_update
        (Sql.get_order_for_update actor.user_id (is_admin actor.role) actor.business_id order_id)
  lock_assignment actor o
  pure o

unfoldable pub insert_lifecycle_audit :
    Actor → ℕ → ℕ → AuditAction → AuditValues → AuditValues → M (Unit {0})
insert_lifecycle_audit actor outlet_id order_id action old_values new_values =
    exec insert_order_lifecycle_audit_log (
      Sql.insert_order_lifecycle_audit_log actor.business_id (some outlet_id) (some actor.user_id)
        action (some order_id) old_values new_values actor.ip (audit_user_agent actor))

-- The transaction of `TransitionStatus`.
unfoldable pub transition_body : Actor → ℕ → OrderStatus → Option Text → M OrderLifecycleResult
transition_body actor order_id to_status notes = do
  before ← or_no_rows order_not_found (lock_lifecycle_order actor order_id)
  raise_if (not (allowed_order_transition before.status to_status)) invalid_order_transition
  updated ←
      update_one transition_order_status
        (Sql.transition_order_status to_status actor.business_id order_id)
  exec insert_order_status_history (
      Sql.insert_order_status_history actor.business_id before.outlet_id order_id
        (some before.status) to_status actor.user_id notes)
  insert_lifecycle_audit actor before.outlet_id order_id order_status_changed
      (status_before before.status before.completed_at)
      (status_after updated.status updated.completed_at notes)
  pure (record {
    order_id = order_id;
    status = updated.status;
    payment_status = updated.payment_status;
    updated_at = updated.updated_at;
    completed_at = updated.completed_at;
    cancelled_at = none;
    cancellation_reason = none;
  })

unfoldable pub transition_status : Actor → ℕ → OrderStatus → Option Text → M OrderLifecycleResult
transition_status actor order_id to_status notes = do
  raise_if (ltb order_id 1 || is_anonymous actor || not (valid_status_target to_status))
      invalid_order_transition
  transaction (transition_body actor order_id to_status notes)

-- The transaction of `Cancel`, with the trimmed reason.
unfoldable pub cancel_body : Actor → ℕ → Text → M OrderLifecycleResult
cancel_body actor order_id reason = do
  before ← or_no_rows order_not_found (lock_lifecycle_order actor order_id)
  raise_if (not (allowed_order_transition before.status cancelled)) invalid_order_transition
  raise_if (not (is_unpaid before.payment_status)) order_requires_refund
  updated ←
      update_one cancel_order (Sql.cancel_order actor.user_id reason actor.business_id order_id)
  exec insert_order_status_history (
      Sql.insert_order_status_history actor.business_id before.outlet_id order_id
        (some before.status) cancelled actor.user_id (some reason))
  insert_lifecycle_audit actor before.outlet_id order_id order_cancelled
      (cancel_before before.status before.payment_status)
      (cancel_after updated.status updated.payment_status updated.cancelled_at actor.user_id reason
        updated.deleted_at)
  pure (record {
    order_id = order_id;
    status = updated.status;
    payment_status = updated.payment_status;
    updated_at = updated.updated_at;
    completed_at = none;
    cancelled_at = updated.cancelled_at;
    cancellation_reason = updated.cancellation_reason;
  })

unfoldable pub cancel : Actor → ℕ → Text → M OrderLifecycleResult
cancel actor order_id reason = do
  let trimmed = trim_space reason
  raise_if (ltb order_id 1 || is_anonymous actor || is_empty trimmed || ltb 2000 (byte_len trimmed))
      invalid_cancellation
  transaction (cancel_body actor order_id trimmed)
