-- ===== src/Tests/Witnesses.antt =====
-- The theorems at work on the small shop.
use launlog_api.Prelude.{true, ◌≡◌, ◌⊎◌, ◌↔◌, inl, ◌≤◌, some, none, find?, refl, arith, [], ◌∷◌}
use launlog_api.Prelude.Int.{pos, ◌≤ℤ◌, ◌<ℤ◌, ◌+ℤ◌, ◌-ℤ◌}
use launlog_api.Prelude.Text.{codes, trim_space}
use launlog_api.Store.{
  Order, Payment, cash, is_cash, unpaid, partially_paid, PaymentStatus, processing, paid,
}
use launlog_api.Effect.{ok, err, payment_idempotency_conflict}
use launlog_api.Query.Lifecycle.{is_order}
use launlog_api.Query.Payments as Sql
use launlog_api.Query.Payments.{confirmed_total}
use launlog_api.Orders.Lifecycle.{transition_status}
use launlog_api.Payments.Amounts.{payment_amounts, payment_status_for}
use launlog_api.Payments.Views.{PaymentRecordResult}
use launlog_api.Payments.Record.{record_payment}
use launlog_api.Ledger.Listing.{Lists, list_payments_answer}
use launlog_api.Payments.Void.{void_payment}
use launlog_api.Ledger.{IsLedger}
use launlog_api.Ledger.Credit.{Describes}
use launlog_api.Ledger.Outcomes.{record_payment-IsLedger, record_payment_new, void_payment_lowers}
use launlog_api.Ledger.Voids.{IsRepeated, IsMarked}
use launlog_api.Ledger.Replay.{record_payment_retry, record_payment_conflict}
use launlog_api.Timeline.Outcomes.{transition_status-IsTimeline}
use launlog_api.Payments.Amounts.Bounds.{
  applied_amount, payment_amounts_sound, payment_amounts_complete, payment_status_for_exact,
}
use launlog_api.Timeline.{IsTimeline}
use launlog_api.Tests.{
  owner, wash, shop, healthy, healthy-IsHealthy, tender, changed_tender, shop-IsLedger,
  shop-IsTimeline,
}
use launlog_api.Orders.Quantity.{parse_milli_quantity}
use launlog_api.Orders.Quantity.Decimal.{IsDecimal}
use launlog_api.Orders.Quantity.Accepted.{parse_milli_quantity_sound, parse_milli_quantity_complete}
use launlog_api.Tests.Runs.{
  quantity_run, codes-IsDecimal, paid_shop, first_answer, first_run, paid_shop-IsLedger,
  tender_valid, tender_short, cash_run, cash_valid, void_run, void_answer, paid_shop-Distinct,
  list_answer, list_run,
}

record_payment-IsLedger_example : IsLedger (record_payment owner 7 tender healthy shop).1
record_payment-IsLedger_example =
    record_payment-IsLedger owner 7 healthy shop tender shop-IsLedger (omega arith) _ _ refl

record_payment_new_example :
    (o : Order) × (find? (is_order 1 7) (wash ∷ []) ≡ some o)
    × (pos 15000 ≡ pos 10000 +ℤ pos 5000)
    × (pos 1 ≤ℤ pos 10000)
    × (pos 0 ≤ℤ pos 5000)
    × (confirmed_total 1 o.outlet_id 7 paid_shop.payments
        ≡ confirmed_total 1 o.outlet_id 7 [] +ℤ pos 10000)
    × Describes 1 7 o paid_shop.payments paid (pos 10000) (pos 0)
record_payment_new_example =
    record_payment_new owner 7 healthy shop tender shop-IsLedger (omega arith) first_run refl

record_payment_retry_example :
    (again : PaymentRecordResult) × (record_payment owner 7 tender healthy paid_shop
      ≡ (ok again, paid_shop))
    × (again.replayed ≡ true)
    × (again.payment ≡ first_answer.payment)
record_payment_retry_example =
    record_payment_retry owner 7 tender healthy shop shop-IsLedger (omega arith) first_run refl
      healthy healthy-IsHealthy

record_payment_conflict_example :
    record_payment owner 7 changed_tender healthy paid_shop
    ≡ (err payment_idempotency_conflict, paid_shop)
record_payment_conflict_example =
    record_payment_conflict owner 7 tender healthy shop shop-IsLedger (omega arith) first_run refl
      changed_tender healthy healthy-IsHealthy tender_valid tender_short refl refl

transition_status-IsTimeline_example :
    IsTimeline (transition_status owner 7 processing none healthy shop).1
transition_status-IsTimeline_example =
    transition_status-IsTimeline owner 7 healthy shop processing none shop-IsTimeline _ _ refl

payment_amounts_sound_example :
    (pos 1 ≤ℤ pos 10000)
    × (pos 10000 ≤ℤ pos 10000)
    × (pos 0 ≤ℤ pos 5000)
    × (pos 15000 ≡ pos 10000 +ℤ pos 5000)
    × ((is_cash cash ≡ true) ⊎ (pos 5000 ≡ pos 0))
payment_amounts_sound_example =
    payment_amounts_sound cash (pos 15000) (pos 10000) (pos 10000) (pos 5000) (omega arith) cash_run

payment_amounts_complete_example :
    payment_amounts cash (pos 15000) (pos 10000)
    ≡ ok (
      applied_amount (pos 15000) (pos 10000),
      pos 15000 -ℤ applied_amount (pos 15000) (pos 10000),
    )
payment_amounts_complete_example =
    payment_amounts_complete cash (pos 15000) (pos 10000) (omega arith) cash_valid (omega arith)
      (omega arith) (inl refl)

payment_status_for_exact_example :
    ((payment_status_for (pos 10000) (pos 4000) ≡ unpaid) ↔ (pos 4000 ≡ pos 0))
    × ((payment_status_for (pos 10000) (pos 4000) ≡ PaymentStatus.paid)
        ↔ ((pos 4000 ≡ pos 10000) × (pos 1 ≤ℤ pos 10000)))
    × ((payment_status_for (pos 10000) (pos 4000) ≡ partially_paid)
        ↔ ((pos 1 ≤ℤ pos 4000) × (pos 4000 <ℤ pos 10000)))
payment_status_for_exact_example =
    payment_status_for_exact (pos 10000) (pos 4000) (omega arith) (omega arith)

void_payment_lowers_example :
    let d = (void_payment owner 7 1 (codes "typo") healthy paid_shop).1 in
    (o : Order) × (find? (is_order 1 7) paid_shop.orders ≡ some o)
    × Describes 1 7 o d.payments unpaid (pos 0) (pos 10000)
    × ((p : Payment) × (Sql.get_order_payment_for_update 1 o.outlet_id 7 1 paid_shop ≡ some p)
        × (pos 1 ≤ℤ p.amount)
        × (IsRepeated owner 7 1 (codes "typo") healthy paid_shop p void_answer d
            ⊎ IsMarked owner 7 1 (codes "typo") healthy paid_shop o p void_answer d))
unfolding trim_space
void_payment_lowers_example =
    void_payment_lowers owner 7 healthy paid_shop 1 (codes "typo") paid_shop-IsLedger
      paid_shop-Distinct void_run

list_payments_answer_example :
    (paid_shop ≡ paid_shop) × Lists owner 7 0 20 healthy paid_shop paid_shop-IsLedger list_answer
list_payments_answer_example =
    list_payments_answer owner 7 0 20 healthy paid_shop paid_shop-IsLedger list_run

parse_milli_quantity_sound_example :
    IsDecimal (codes "2.5") 2500 × (1 ≤ 2500) × (2500 ≤ 999999999999)
parse_milli_quantity_sound_example = parse_milli_quantity_sound (codes "2.5") 2500 quantity_run

parse_milli_quantity_complete_example : parse_milli_quantity (codes "2.5") ≡ ok 2500
parse_milli_quantity_complete_example =
    parse_milli_quantity_complete (codes "2.5") 2500 codes-IsDecimal (omega arith) (omega arith)
