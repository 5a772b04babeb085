-- ===== src/Ledger/VoidPayment.antt =====
-- `PaymentCatalog.Void` keeps the ledger, on every outcome.
use mathlib.Core.Path.{subst₂}
use launlog_api.Prelude.{
  ℕ, true, false, ◌≡◌, some, find?, update, List, All, sym, ◌∙◌, subst, ap, arith,
}
use launlog_api.Prelude.Int.{ℤ, pos, ◌≤ℤ◌, eq_of_parts, ltb_ℤ, sub64}
use launlog_api.Prelude.Text.{Text, trim_space}
use launlog_api.Store.{Db, Order, Payment, PaymentStatus, is_cancelled}
use launlog_api.Effect.{Env, ok}
use launlog_api.Effect.Hoare.{
  Ensures, Ensures-pure, Ensures-transaction, Ensures-ok, Ensures-if, after_raise_if, after_exec,
  after_read, after_update_one,
}
use launlog_api.Query.Lifecycle.{is_order, store_orders, update_returning}
use launlog_api.Query.Payments.{confirmed_total, marked_voided}
use launlog_api.Query.Payments as Sql
use launlog_api.Query.Writes.{store_orders-writes, store_payments-writes, with_payments}
use launlog_api.Actor.{Actor}
use launlog_api.Payments.Amounts.{payment_status_for}
use launlog_api.Payments.Views.{PaymentVoidResult}
use launlog_api.Payments.Steps.{insert_payment_audit}
use launlog_api.Payments.Steps.Reading.{
  found_payment-Reads, lock_payable_order-Reads, ensure_no_payment_refunds-Reads, read_ledger-Reads,
}
use launlog_api.Payments.Void.{void_payment, void_body, void_confirmed, replay_void, finish_void}
use launlog_api.Ledger.{IsLedger, IsLedgerOf}
use launlog_api.Ledger.Totals.{confirmed_total_nonneg}
use launlog_api.Ledger.Credit.{Describes}
use launlog_api.Ledger.Settle.{is_order_at, with_payment_status, IsLedgerOf-settle, own_total}
use launlog_api.Ledger.Voiding.{to_void, voided_rows, other_kept, voided_le, voided_positive}
use launlog_api.Ledger.RecordPayment.{IsLocked-found, Describes-read, Describes-total}

module _ (actor : Actor) (i : ℕ) (env : Env) (db : Db) (ledger : IsLedger db) where
  -- What a successful answer promises: the result describes the ledger of the order that the key
  -- names, which holds.
  pub record VoidAnswers (r : PaymentVoidResult) (d : Db) : Type 0 where
    pub target : Order
    pub found : find? (is_order actor.business_id i) db.orders ≡ some target
    pub keeps : IsLedger d
    pub describes :
        Describes actor.business_id i target d.payments r.payment_status r.paid_amount
          r.outstanding_amount

  module _ (o : Order) (found : find? (is_order actor.business_id i) db.orders ≡ some o) where
    replay_void-Answers : (p : Payment) → Ensures env (replay_void actor i o p) db VoidAnswers
    unfolding replay_void
    replay_void-Answers p =
        after_read _ _ (read_ledger-Reads actor.business_id i o env db) λ c (is_c, fits).
          Ensures-pure _ (record {
            target = o;
            found = found;
            keeps = ledger;
            describes =
                Describes-read actor.business_id i o db c ledger
                  (ledger.balanced actor.business_id i o found).in_range is_c fits;
          })

    module _ (payment_id : ℕ) (reason : Text) where
      abbrev rows : List Payment
      rows =
          voided_rows actor.business_id o.outlet_id i payment_id actor.user_id reason env.now
            db.payments

      abbrev credit_after : ℤ
      credit_after = confirmed_total actor.business_id o.outlet_id i rows

      abbrev credit_before : ℤ
      credit_before = confirmed_total actor.business_id o.outlet_id i db.payments

      less : credit_after ≤ℤ credit_before
      less =
          voided_le actor.business_id o.outlet_id i payment_id actor.user_id reason env.now
            db.payments ledger.positive

      after_positive : All (λ p. pos 1 ≤ℤ p.amount) rows
      after_positive =
          voided_positive actor.business_id o.outlet_id i payment_id actor.user_id reason env.now
            db.payments ledger.positive

      no_credit : is_cancelled o.status ≡ true → credit_after ≡ pos 0
      no_credit gone =
          let none_before : credit_before ≡ pos 0 =
            sym (own_total db.orders db.payments actor.business_id i o found)
            ∙ (ledger.balanced actor.business_id i o found).cancelled_unpaid gone in
          let low = confirmed_total_nonneg actor.business_id o.outlet_id i rows after_positive in
          let high : credit_after ≤ℤ pos 0 = subst (λ z. credit_after ≤ℤ z) none_before less in
          eq_of_parts credit_after (pos 0) (omega arith)

      ledger_after_void :
          (status : PaymentStatus)
          → status ≡ payment_status_for o.total_amount credit_after
          → credit_after ≤ℤ o.total_amount
          → IsLedgerOf
              (update
                (is_order_at actor.business_id o.outlet_id i)
                (with_payment_status status env.now)
                db.orders)
              rows
      ledger_after_void status agrees covered =
          IsLedgerOf-settle rows actor.business_id i env.now o status ledger found after_positive
            (λ b' t' i' miss.
              other_kept actor.business_id o.outlet_id i payment_id actor.user_id reason env.now b'
                t' i' db.payments miss)
            agrees covered no_credit

      abbrev Voided : PaymentStatus → ℤ → ℤ → Db → Type 0
      Voided s paid_amount outstanding d =
          IsLedger d × Describes actor.business_id i o d.payments s paid_amount outstanding

      written-Voided :
          (c : ℤ) (s : PaymentStatus) (d : Db)
          → c ≡ credit_after
          → ltb_ℤ o.total_amount c ≡ false
          → store_orders
              (with_payments db rows)
              (λ o. o.payment_status)
              (update_returning
                (is_order_at actor.business_id o.outlet_id i)
                (with_payment_status (payment_status_for o.total_amount c) env.now)
                db.orders)
            ≡ some (s, d)
          → Voided s c (sub64 o.total_amount c) d
      written-Voided c s d is_c fits written =
          let status = payment_status_for o.total_amount c in
          let covered : c ≤ℤ o.total_amount = ground arith in
          let (_, _, is_s, is_d) =
            store_orders-writes (with_payments db rows) (λ o. o.payment_status)
              (is_order_at actor.business_id o.outlet_id i) (with_payment_status status env.now)
              db.orders written in
          let low : pos 0 ≤ℤ c =
            subst (λ z. pos 0 ≤ℤ z) (sym is_c)
              (confirmed_total_nonneg actor.business_id o.outlet_id i rows after_positive) in
          subst₂ (λ s d. Voided s c (sub64 o.total_amount c) d) (sym is_s) (sym is_d)
            (
              ledger_after_void status (ap (payment_status_for o.total_amount) is_c)
                  (subst (λ z. z ≤ℤ o.total_amount) is_c covered),
              Describes-total actor.business_id i o rows c
                  (ledger.balanced actor.business_id i o found).in_range is_c low covered,
            )

      void_rest :
          (p voided : Payment)
          → Ensures env
              (finish_void actor i payment_id reason o p voided)
              (with_payments db rows)
              VoidAnswers
      unfolding finish_void insert_payment_audit Sql.update_order_payment_status
          Sql.insert_payment_audit_log
      void_rest p voided =
          after_read _ _ (read_ledger-Reads actor.business_id i o env (with_payments db rows))
            λ c (is_c, fits). after_update_one _ _ _ λ s d written.
              let (keeps, describes) = written-Voided c s d is_c fits written in
              after_exec _ _ _ (
                Ensures-pure _
                  (record { target = o; found = found; keeps = keeps; describes = describes }))

      void_confirmed-Answers :
          (p : Payment) → Ensures env (void_confirmed actor i payment_id reason o p) db VoidAnswers
      unfolding void_confirmed Sql.void_confirmed_payment
      void_confirmed-Answers p = after_raise_if _ _ _ λ _.
          after_update_one _ _ _ λ voided d written.
            let (_, _, _, is_d) =
              store_payments-writes db (to_void actor.business_id o.outlet_id i payment_id)
                (marked_voided actor.user_id reason env.now) db.payments written in
            subst
              (λ d. Ensures env (finish_void actor i payment_id reason o p voided) d VoidAnswers)
              (sym is_d) (void_rest p voided)

  void_body-Answers :
      (payment_id : ℕ) (reason : Text)
      → Ensures env (void_body actor i payment_id reason) db VoidAnswers
  unfolding void_body
  void_body-Answers payment_id reason =
      after_read _ _ (lock_payable_order-Reads actor i env db) λ o locked.
        let found = IsLocked-found actor i db ledger locked in
        after_read _ _ (ensure_no_payment_refunds-Reads actor.business_id o.outlet_id i env db)
          λ _ _.
            after_read _ _ (found_payment-Reads actor.business_id o.outlet_id i payment_id env db)
              λ p _.
                Ensures-if _ _ _ (λ _. replay_void-Answers o found p)
                  (λ _. void_confirmed-Answers o found payment_id reason p)

  -- The answer of `Void` describes the order's ledger.
  pub void_payment_answer :
      (payment_id : ℕ) (reason : Text) {r : PaymentVoidResult} {d : Db}
      → void_payment actor i payment_id reason env db ≡ (ok r, d)
      → VoidAnswers r d
  unfolding void_payment
  void_payment_answer payment_id reason h =
      Ensures-ok
        (after_raise_if _ _ _
          λ _. Ensures-transaction _ (void_body-Answers payment_id (trim_space reason)))
        h
