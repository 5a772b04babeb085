-- ===== src/Payments/Void.antt =====
-- `PaymentCatalog.Void`.
use launlog_api.Prelude.{
  ℕ, Bool, false, not, ◌||◌, ◌&&◌, Option, none, some, ltb, ◌==◌, length, eq_text, if◌then◌else◌,
}
use launlog_api.Prelude.Int.{ℤ, sub64}
use launlog_api.Prelude.Text.{Text, is_empty, trim_space}
use launlog_api.Store.{
  Order, Payment, is_confirmed, is_voided, payment_voided, void_before, void_after,
}
use launlog_api.Effect.{
  M, pure, raise_if, query_one, update_one, or_no_rows, transaction, ◌>>=◌, ◌>>◌,
  invalid_payment_void, payment_not_found, payment_not_voidable, get_order_payment_for_update,
  void_confirmed_payment, update_order_payment_status,
}
use launlog_api.Query.Payments as Sql
use launlog_api.Actor.{Actor, is_anonymous}
use launlog_api.Payments.Amounts.{payment_status_for}
use launlog_api.Payments.Views.{PaymentVoidResult, payment_from}
use launlog_api.Payments.Steps.{
  lock_payable_order, ensure_no_payment_refunds, read_ledger, insert_payment_audit,
}

-- `value.Valid && value.Int64 == x`, and the same of a text.
abbrev pub is_id : Option ℕ → ℕ → Bool
is_id none x = false
is_id (some y) x = y == x

abbrev pub is_text : Option Text → Text → Bool
is_text none x = false
is_text (some y) x = eq_text y x

-- The same user has voided the payment with the same reason before.
unfoldable pub is_void_retry : Actor → Text → Payment → Bool
is_void_retry actor reason p =
    is_voided p.status && is_id p.voided_by actor.user_id && is_text p.void_reason reason

abbrev pub void_result : Order → Payment → ℤ → PaymentVoidResult
void_result o p credited = record {
  payment = payment_from p;
  payment_status = payment_status_for o.total_amount credited;
  paid_amount = credited;
  outstanding_amount = sub64 o.total_amount credited;
}

unfoldable pub replay_void : Actor → ℕ → Order → Payment → M PaymentVoidResult
replay_void actor order_id o p = do
  credited ← read_ledger actor.business_id order_id o
  pure (void_result o p credited)

-- After the payment is voided: the ledger is read again, and the order's status follows.
unfoldable pub finish_void : Actor → ℕ → ℕ → Text → Order → Payment → Payment → M PaymentVoidResult
finish_void actor order_id payment_id reason o p voided = do
  credited ← read_ledger actor.business_id order_id o
  let status = payment_status_for o.total_amount credited
  updated ←
      update_one update_order_payment_status
        (Sql.update_order_payment_status actor.business_id o.outlet_id order_id status)
  insert_payment_audit actor o.outlet_id payment_id payment_voided
      (void_before payment_id p.amount p.status o.payment_status)
      (void_after payment_id p.amount voided.status actor.user_id reason updated credited
        (sub64 o.total_amount credited))
  pure (record {
    payment = payment_from voided;
    payment_status = updated;
    paid_amount = credited;
    outstanding_amount = sub64 o.total_amount credited;
  })

unfoldable pub void_confirmed : Actor → ℕ → ℕ → Text → Order → Payment → M PaymentVoidResult
void_confirmed actor order_id payment_id reason o p = do
  raise_if (not (is_confirmed p.status)) payment_not_voidable
  voided ← update_one void_confirmed_payment (
      Sql.void_confirmed_payment actor.business_id o.outlet_id order_id payment_id actor.user_id
        reason)
  finish_void actor order_id payment_id reason o p voided

unfoldable pub void_body : Actor → ℕ → ℕ → Text → M PaymentVoidResult
void_body actor order_id payment_id reason = do
  o ← lock_payable_order actor order_id
  ensure_no_payment_refunds actor.business_id o.outlet_id order_id
  p ← or_no_rows payment_not_found (
      query_one get_order_payment_for_update
        (Sql.get_order_payment_for_update actor.business_id o.outlet_id order_id payment_id))
  if is_void_retry actor reason p
      then replay_void actor order_id o p
      else void_confirmed actor order_id payment_id reason o p

unfoldable pub void_payment : Actor → ℕ → ℕ → Text → M PaymentVoidResult
void_payment actor order_id payment_id reason = do
  let trimmed = trim_space reason
  raise_if
      (ltb order_id 1
        || ltb payment_id 1
        || is_anonymous actor
        || is_empty (trim_space trimmed)
        || ltb 2000 (length trimmed))
      invalid_payment_void
  transaction (void_body actor order_id payment_id trimmed)
