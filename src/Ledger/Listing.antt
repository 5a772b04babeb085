-- ===== src/Ledger/Listing.antt =====
-- What `PaymentCatalog.List` answers on a ledger.
use launlog_api.Prelude.{ℕ, ◌-◌, ◌≡◌, some, find?, refl, length, ap, ◌∙◌, select}
use launlog_api.Store.{Db, Order}
use launlog_api.Effect.{Env, ok}
use launlog_api.Effect.Hoare.{
  Reads, Ensures-pure, Ensures-rolled_back, Ensures-ok, after_read, after_query, after_raise_if,
}
use launlog_api.Query.Lifecycle.{is_order}
use launlog_api.Query.Payments.{pays}
use launlog_api.Query.Payments as Sql
use launlog_api.Query.Listing as Sorted
use launlog_api.Query.Listing.Pages.{smaller, sort_by-length, page-length, map-length}
use launlog_api.Actor.{Actor}
use launlog_api.Payments.Views.{PaymentListResult, payment_from}
use launlog_api.Payments.Steps.Reading.{
  lock_payable_order-Reads, ensure_no_payment_refunds-Reads, read_ledger-Reads,
}
use launlog_api.Payments.Listing.{list_payments, list_payments_body}
use launlog_api.Ledger.{IsLedger}
use launlog_api.Ledger.Credit.{Describes}
use launlog_api.Ledger.RecordPayment.{IsLocked-found, Describes-read}

module _ (actor : Actor) (i offset limit : ℕ) (env : Env) (db : Db) (ledger : IsLedger db) where
  -- What an answer says: the order's ledger, the number of its payments, and a page of them.
  abbrev pub Lists : PaymentListResult → Type 0
  Lists r =
      (o : Order) × (find? (is_order actor.business_id i) db.orders ≡ some o)
      × (r.total_items ≡ length (select (pays actor.business_id o.outlet_id i) db.payments))
      × (length r.items ≡ smaller limit (r.total_items - offset))
      × Describes actor.business_id i o db.payments r.payment_status r.paid_amount
          r.outstanding_amount

  items-length :
      (b t : ℕ)
      → length (Sorted.list_order_payments b t i offset limit db)
        ≡ smaller limit (length (select (pays b t i) db.payments) - offset)
  unfolding Sorted.list_order_payments
  items-length b t =
      page-length limit offset _ ∙ ap (λ n. smaller limit (n - offset)) (sort_by-length _ _)

  list_payments_body-Reads : Reads env (list_payments_body actor i offset limit) db Lists
  unfolding list_payments_body Sql.count_order_payments
  list_payments_body-Reads = after_read _ _ (lock_payable_order-Reads actor i env db) λ o locked.
      let found = IsLocked-found actor i db ledger locked in
      after_read _ _ (ensure_no_payment_refunds-Reads actor.business_id o.outlet_id i env db) λ _ _.
        after_read _ _ (read_ledger-Reads actor.business_id i o env db) λ c (is_c, fits).
          after_query _ _ _ (
            after_query _ _ _ (
              Ensures-pure _ (
                refl,
                (
                  o,
                  found,
                  refl,
                  map-length payment_from _ ∙ items-length actor.business_id o.outlet_id,
                  Describes-read actor.business_id i o db c ledger
                      (ledger.balanced actor.business_id i o found).in_range is_c fits,
                ),
              )))

  -- On a ledger, when `List` succeeds it has written nothing; it counts the payments of the order,
  -- returns as many as the page has room for after its offset, and its paid and outstanding amounts
  -- and status are those of the order's ledger.
  pub list_payments_answer :
      {r : PaymentListResult} {d : Db}
      → list_payments actor i offset limit env db ≡ (ok r, d)
      → (d ≡ db) × Lists r
  unfolding list_payments
  list_payments_answer h =
      Ensures-ok {Q = λ r d. (d ≡ db) × Lists r}
        (after_raise_if _ _ _ λ _. Ensures-rolled_back _ list_payments_body-Reads) h
