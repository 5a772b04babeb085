-- ===== src/Payments/Listing.antt =====
-- `PaymentCatalog.List`.
use launlog_api.Prelude.{ℕ, ◌||◌, ltb, map}
use launlog_api.Prelude.Int.{sub64}
use launlog_api.Effect.{
  M, pure, raise_if, query, rolled_back, ◌>>=◌, ◌>>◌, payment_not_found, list_order_payments,
  count_order_payments,
}
use launlog_api.Query.Payments as Sql
use launlog_api.Query.Listing as Listing
use launlog_api.Actor.{Actor, is_anonymous}
use launlog_api.Payments.Amounts.{payment_status_for}
use launlog_api.Payments.Views.{PaymentListResult, payment_from}
use launlog_api.Payments.Steps.{lock_payable_order, ensure_no_payment_refunds, read_ledger}

unfoldable pub list_payments_body : Actor → ℕ → ℕ → ℕ → M PaymentListResult
list_payments_body actor order_id page_offset page_limit = do
  o ← lock_payable_order actor order_id
  ensure_no_payment_refunds actor.business_id o.outlet_id order_id
  credited ← read_ledger actor.business_id order_id o
  rows ←
      query list_order_payments
        (Listing.list_order_payments actor.business_id o.outlet_id order_id page_offset page_limit)
  total_items ←
      query count_order_payments (Sql.count_order_payments actor.business_id o.outlet_id order_id)
  pure (record {
    order_id = order_id;
    order_total = o.total_amount;
    payment_status = payment_status_for o.total_amount credited;
    paid_amount = credited;
    outstanding_amount = sub64 o.total_amount credited;
    items = map payment_from rows;
    total_items = total_items;
  })

unfoldable pub list_payments : Actor → ℕ → ℕ → ℕ → M PaymentListResult
list_payments actor order_id page_offset page_limit = do
  raise_if (ltb order_id 1 || is_anonymous actor) payment_not_found
  rolled_back (list_payments_body actor order_id page_offset page_limit)
