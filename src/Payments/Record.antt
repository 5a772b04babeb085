-- ===== src/Payments/Record.antt =====
-- `PaymentCatalog.Record`.
use launlog_api.Prelude.{ℕ, Bool, true, false, not, ◌||◌, Option, none, some, ltb, ◌==◌, length}
use launlog_api.Prelude.Int.{pos, leb_ℤ, add64, sub64}
use launlog_api.Store.{Order, Payment, is_cancelled, payment_confirmed, ledger_before, ledger_after}
use launlog_api.Effect.{
  M, pure, lift, raise_if, query, insert_one, update_one, transaction, ◌>>=◌, ◌>>◌, invalid_payment,
  payment_order_cancelled, payment_idempotency_conflict, payment_no_balance,
  get_payment_by_idempotency_key, create_confirmed_payment, update_order_payment_status,
}
use launlog_api.Query.Payments as Sql
use launlog_api.Actor.{Actor, is_anonymous}
use launlog_api.Payments.Amounts.{
  valid_payment_method, payment_amounts, payment_status_for, change_for,
}
use launlog_api.Payments.Views.{
  RecordPaymentInput, PaymentRecordResult, payment_from, exceeds_payment_text_limit,
}
use launlog_api.Payments.Steps.{
  lock_payable_order, ensure_no_payment_refunds, read_ledger, insert_payment_audit, same_hash,
}

abbrev pub is_some {ℓ} : {A : Type ℓ} → Option A → Bool
is_some none = false
is_some (some _) = true

-- The answer to a retry: the payment that the key already names.
unfoldable pub replay_payment :
    Actor → ℕ → RecordPaymentInput → Order → Payment → M PaymentRecordResult
replay_payment actor order_id input o existing = do
  raise_if (not (same_hash existing.request_hash input.request_hash)) payment_idempotency_conflict
  credited ← read_ledger actor.business_id order_id o
  pure (record {
    payment = payment_from existing;
    payment_status = payment_status_for o.total_amount credited;
    paid_amount = credited;
    outstanding_amount = sub64 o.total_amount credited;
    tendered_amount = input.tendered_amount;
    change_amount = change_for existing.method input.tendered_amount existing.amount;
    replayed = true;
  })

-- A first request: the ledger is read, the payment is written, and the order's status follows.
unfoldable pub record_new_payment : Actor → ℕ → RecordPaymentInput → Order → M PaymentRecordResult
record_new_payment actor order_id input o = do
  credited ← read_ledger actor.business_id order_id o
  let outstanding = sub64 o.total_amount credited
  raise_if (leb_ℤ outstanding (pos 0)) payment_no_balance
  amounts ← lift (payment_amounts input.method input.tendered_amount outstanding)
  created ← insert_one create_confirmed_payment (
      Sql.create_confirmed_payment actor.business_id o.outlet_id order_id amounts.0 input.method
        input.external_reference input.notes actor.user_id input.idempotency_key input.request_hash)
  let credited_after = add64 credited amounts.0
  let status = payment_status_for o.total_amount credited_after
  updated ←
      update_one update_order_payment_status
        (Sql.update_order_payment_status actor.business_id o.outlet_id order_id status)
  insert_payment_audit actor o.outlet_id created.id payment_confirmed
      (ledger_before (payment_status_for o.total_amount credited) credited outstanding)
      (ledger_after created.id input.method amounts.0 status credited_after
        (sub64 o.total_amount credited_after))
  pure (record {
    payment = payment_from created;
    payment_status = updated;
    paid_amount = credited_after;
    outstanding_amount = sub64 o.total_amount credited_after;
    tendered_amount = input.tendered_amount;
    change_amount = amounts.1;
    replayed = false;
  })

abbrev pub replay_or_record :
    Actor → ℕ → RecordPaymentInput → Order → Option Payment → M PaymentRecordResult
replay_or_record actor order_id input o none = record_new_payment actor order_id input o
replay_or_record actor order_id input o (some existing) =
    replay_payment actor order_id input o existing

-- The transaction of `Record`. A key that names no payment is the driver's ErrNoRows.
unfoldable pub record_body : Actor → ℕ → RecordPaymentInput → M PaymentRecordResult
record_body actor order_id input = do
  o ← lock_payable_order actor order_id
  raise_if (is_cancelled o.status || is_some o.deleted_at) payment_order_cancelled
  ensure_no_payment_refunds actor.business_id o.outlet_id order_id
  existing ← query get_payment_by_idempotency_key (
      Sql.get_payment_by_idempotency_key actor.business_id o.outlet_id order_id
        input.idempotency_key)
  replay_or_record actor order_id input o existing

unfoldable pub is_invalid_request : Actor → ℕ → RecordPaymentInput → Bool
is_invalid_request actor order_id input =
    ltb order_id 1
    || is_anonymous actor
    || leb_ℤ input.tendered_amount (pos 0)
    || not (valid_payment_method input.method)
    || ltb (length input.idempotency_key) 1
    || ltb 128 (length input.idempotency_key)
    || not (length input.request_hash == 32)

unfoldable pub record_payment : Actor → ℕ → RecordPaymentInput → M PaymentRecordResult
record_payment actor order_id input = do
  raise_if (is_invalid_request actor order_id input) invalid_payment
  raise_if
      (exceeds_payment_text_limit input.external_reference 256
        || exceeds_payment_text_limit input.notes 2000)
      invalid_payment
  transaction (record_body actor order_id input)
