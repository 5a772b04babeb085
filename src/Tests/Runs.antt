-- ===== src/Tests/Runs.antt =====
-- Runs of the payment methods on the small shop.
use launlog_api.Prelude.{Distinct, true, false, ◌≡◌, some, none, refl, arith, [], ◌∷◌}
use launlog_api.Prelude.Int.{pos, ◌+ℤ◌, ◌-ℤ◌, sub64, add64, wrap64}
use launlog_api.Prelude.Text.{codes, trim_space}
use launlog_api.Store.{voided, confirmed, Db, cash, unpaid, paid}
use launlog_api.Effect.{
  ok, transaction, rolled_back, pure, raise_if, lift, query, query_one, insert_one, update_one,
  exec, or_no_rows, ◌>>=◌,
}
use launlog_api.Query.Lifecycle.{is_order}
use launlog_api.Query.Lifecycle as Orders
use launlog_api.Query.Payments.{confirmed_total}
use launlog_api.Query.Payments as Sql
use launlog_api.Actor.{audit_user_agent}
use launlog_api.Orders.Lifecycle.{lock_lifecycle_order, lock_assignment}
use launlog_api.Payments.Amounts.{
  payment_amounts, payment_status_for, valid_payment_method, change_for,
}
use launlog_api.Payments.Views.{
  PaymentListResult, PaymentVoidResult, PaymentRecordResult, payment_from,
  exceeds_payment_text_limit,
}
use launlog_api.Payments.Steps.{
  lock_payable_order, ensure_no_payment_refunds, read_ledger, insert_payment_audit,
}
use launlog_api.Payments.Record.{
  record_payment, record_body, record_new_payment, is_invalid_request, replay_payment,
}
use launlog_api.Payments.Listing.{list_payments, list_payments_body}
use launlog_api.Query.Listing as Sorted
use launlog_api.Timeline.Payments.{record_payment-IsTimeline}
use launlog_api.Payments.Void.{void_payment, void_body, finish_void, void_confirmed, is_void_retry}
use launlog_api.Ledger.{IsLedger}
use launlog_api.Ledger.Outcomes.{record_payment-IsLedger}
use launlog_api.Ledger.Retry.{has_long_text}
use launlog_api.Timeline.{IsTimeline}
use launlog_api.Orders.Quantity.{parse_milli_quantity, parse_parts, with_fraction, check_milli}
use launlog_api.Orders.Quantity.Decimal.{IsDecimal, with_point}
use launlog_api.Tests.{owner, shop, healthy, tender, changed_tender, shop-IsLedger, shop-IsTimeline}

-- The shop after the first payment, and its answer.
abbrev pub paid_shop : Db
paid_shop = (record_payment owner 7 tender healthy shop).1

abbrev pub first_answer : PaymentRecordResult
first_answer = record {
  payment = record {
    id = 1;
    amount = pos 10000;
    method = cash;
    status = confirmed;
    external_reference = none;
    notes = none;
    confirmed_at = some 60;
    voided_at = none;
    voided_by = none;
    void_reason = none;
    created_by = 2;
    created_at = 60;
  };
  payment_status = paid;
  paid_amount = pos 10000;
  outstanding_amount = pos 0;
  tendered_amount = pos 15000;
  change_amount = pos 5000;
  replayed = false;
}

pub first_run : record_payment owner 7 tender healthy shop ≡ (ok first_answer, paid_shop)
unfolding record_payment record_body record_new_payment is_invalid_request transaction pure raise_if
    lift query query_one insert_one update_one exec or_no_rows ◌>>=◌ lock_lifecycle_order
    lock_assignment lock_payable_order ensure_no_payment_refunds read_ledger insert_payment_audit
    payment_amounts payment_status_for valid_payment_method payment_from exceeds_payment_text_limit
    Orders.get_order_for_update Sql.count_order_payment_refunds confirmed_total
    Sql.get_payment_by_idempotency_key Sql.create_confirmed_payment Sql.update_order_payment_status
    Sql.insert_payment_audit_log audit_user_agent sub64 wrap64 ◌-ℤ◌ add64 ◌+ℤ◌
first_run = refl

pub paid_shop-IsLedger : IsLedger paid_shop
paid_shop-IsLedger =
    record_payment-IsLedger owner 7 healthy shop tender shop-IsLedger (omega arith) _ _ refl

pub tender_valid : is_invalid_request owner 7 changed_tender ≡ false
unfolding is_invalid_request valid_payment_method
tender_valid = refl

pub tender_short : has_long_text changed_tender ≡ false
unfolding exceeds_payment_text_limit
tender_short = refl

pub second_run :
    record_payment owner 7 tender healthy paid_shop
    ≡ (ok (record first_answer { replayed = true }), paid_shop)
unfolding record_payment record_body record_new_payment is_invalid_request transaction pure raise_if
    lift query query_one insert_one update_one exec or_no_rows ◌>>=◌ lock_lifecycle_order
    lock_assignment lock_payable_order ensure_no_payment_refunds read_ledger insert_payment_audit
    payment_amounts payment_status_for valid_payment_method payment_from exceeds_payment_text_limit
    replay_payment Orders.get_order_for_update Sql.count_order_payment_refunds confirmed_total
    change_for Sql.get_payment_by_idempotency_key Sql.create_confirmed_payment
    Sql.update_order_payment_status Sql.insert_payment_audit_log audit_user_agent sub64 wrap64 ◌-ℤ◌
    add64 ◌+ℤ◌
second_run = refl

pub cash_run : payment_amounts cash (pos 15000) (pos 10000) ≡ ok (pos 10000, pos 5000)
unfolding payment_amounts valid_payment_method sub64 wrap64 ◌-ℤ◌ ◌+ℤ◌
cash_run = refl

pub cash_valid : valid_payment_method cash ≡ true
unfolding valid_payment_method
cash_valid = refl

pub paid_shop-Distinct : Distinct (λ p. p.id) paid_shop.payments
unfolding record_payment record_body record_new_payment is_invalid_request transaction pure raise_if
    lift query query_one insert_one update_one exec or_no_rows ◌>>=◌ lock_lifecycle_order
    lock_assignment lock_payable_order ensure_no_payment_refunds read_ledger insert_payment_audit
    payment_amounts payment_status_for valid_payment_method payment_from exceeds_payment_text_limit
    Orders.get_order_for_update Sql.count_order_payment_refunds confirmed_total
    Sql.get_payment_by_idempotency_key Sql.create_confirmed_payment Sql.update_order_payment_status
    Sql.insert_payment_audit_log audit_user_agent sub64 wrap64 ◌-ℤ◌ add64 ◌+ℤ◌
paid_shop-Distinct = (tt, tt)

abbrev pub void_answer : PaymentVoidResult
void_answer = record {
  payment = record first_answer.payment {
    status = voided;
    voided_at = some 60;
    voided_by = some 2;
    void_reason = some (codes "typo");
  };
  payment_status = unpaid;
  paid_amount = pos 0;
  outstanding_amount = pos 10000;
}

pub void_run :
    void_payment owner 7 1 (codes "typo") healthy paid_shop
    ≡ (ok void_answer, (void_payment owner 7 1 (codes "typo") healthy paid_shop).1)
unfolding void_payment record_payment record_body record_new_payment is_invalid_request transaction
    pure raise_if lift query query_one insert_one update_one exec or_no_rows ◌>>=◌
    lock_lifecycle_order lock_assignment lock_payable_order ensure_no_payment_refunds read_ledger
    insert_payment_audit payment_amounts payment_status_for valid_payment_method payment_from
    exceeds_payment_text_limit Orders.get_order_for_update Sql.count_order_payment_refunds
    confirmed_total Sql.get_payment_by_idempotency_key Sql.create_confirmed_payment
    Sql.update_order_payment_status Sql.insert_payment_audit_log audit_user_agent sub64 wrap64 ◌-ℤ◌
    add64 ◌+ℤ◌ void_body finish_void void_confirmed is_void_retry Sql.void_confirmed_payment
    Sql.get_order_payment_for_update trim_space
void_run = refl

abbrev pub list_answer : PaymentListResult
list_answer = record {
  order_id = 7;
  order_total = pos 10000;
  payment_status = paid;
  paid_amount = pos 10000;
  outstanding_amount = pos 0;
  items = first_answer.payment ∷ [];
  total_items = 1;
}

pub list_run : list_payments owner 7 0 20 healthy paid_shop ≡ (ok list_answer, paid_shop)
unfolding list_payments list_payments_body rolled_back Sorted.list_order_payments
    Sql.count_order_payments record_payment record_body record_new_payment is_invalid_request
    transaction pure raise_if lift query query_one insert_one update_one exec or_no_rows ◌>>=◌
    lock_lifecycle_order lock_assignment lock_payable_order ensure_no_payment_refunds read_ledger
    insert_payment_audit payment_amounts payment_status_for valid_payment_method payment_from
    exceeds_payment_text_limit Orders.get_order_for_update Sql.count_order_payment_refunds
    confirmed_total Sql.get_payment_by_idempotency_key Sql.create_confirmed_payment
    Sql.update_order_payment_status Sql.insert_payment_audit_log audit_user_agent sub64 wrap64 ◌-ℤ◌
    add64 ◌+ℤ◌
list_run = refl

pub paid_shop-IsTimeline : IsTimeline paid_shop
paid_shop-IsTimeline =
    record_payment-IsTimeline owner 7 healthy shop tender shop-IsLedger (omega arith)
      shop-IsTimeline _ _ refl

pub quantity_run : parse_milli_quantity (codes "2.5") ≡ ok 2500
unfolding parse_milli_quantity parse_parts with_fraction check_milli
quantity_run = refl

pub codes-IsDecimal : IsDecimal (codes "2.5") 2500
codes-IsDecimal =
    with_point (codes "2") (codes "5") refl (omega arith) (omega arith) refl (omega arith)
      (omega arith)
