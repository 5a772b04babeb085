-- ===== src/Ledger/Voided.antt =====
-- What `Void` writes when it succeeds.
use launlog_api.Prelude.{ℕ, ◌≡◌, ◌⊎◌, inl, inr, update, refl, ap, ◌∙◌}
use launlog_api.Prelude.Text.{Text, trim_space}
use launlog_api.Store.{Db, Order, Payment, PaymentStatus, AuditLog}
use launlog_api.Effect.{Env, ok}
use launlog_api.Effect.Hoare.{
  Ensures, Ensures-pure, Ensures-if, Ensures-weaken, Ensures-ok, Ensures-transaction, after_read,
  after_raise_if, after_update_one, after_exec,
}
use launlog_api.Query.Lifecycle.{add_audit}
use launlog_api.Query.Payments as Sql
use launlog_api.Query.Payments.{marked_voided}
use launlog_api.Query.Writes.{
  store_orders-writes, store_payments-writes, with_orders, with_payments,
}
use launlog_api.Actor.{Actor}
use launlog_api.Payments.Amounts.{payment_status_for}
use launlog_api.Payments.Steps.{insert_payment_audit}
use launlog_api.Payments.Steps.Reading.{
  found_payment-Reads, lock_payable_order-Reads, ensure_no_payment_refunds-Reads, read_ledger-Reads,
}
use launlog_api.Payments.Void.{void_payment, void_body, void_confirmed, replay_void, finish_void}
use launlog_api.Payments.Views.{PaymentVoidResult}
use launlog_api.Ledger.Settle.{is_order_at, with_payment_status}
use launlog_api.Ledger.Voiding.{to_void}

-- The tables after a payment status is written.
abbrev pub settled : ℕ → ℕ → ℕ → PaymentStatus → ℕ → AuditLog → Db → Db
settled b t i status now log db =
    add_audit log
      (with_orders db (update (is_order_at b t i) (with_payment_status status now) db.orders))

abbrev pub without_payment : ℕ → ℕ → ℕ → ℕ → ℕ → Text → ℕ → Db → Db
without_payment b t i payment_id voided_by reason now db =
    with_payments db
      (update (to_void b t i payment_id) (marked_voided voided_by reason now) db.payments)

module _ (actor : Actor) (i payment_id : ℕ) (env : Env) where
  -- A payment of the order was voided, and the order's payment status written.
  pub record Voided (db d : Db) : Type 0 where
    pub outlet_id : ℕ
    pub reason : Text
    pub status : PaymentStatus
    pub log : AuditLog
    pub leaves :
        d
        ≡ settled actor.business_id outlet_id i status env.now log (
            without_payment actor.business_id outlet_id i payment_id actor.user_id reason env.now
              db)

  module _ (reason : Text) (o : Order) (p : Payment) (db : Db) where
    finish_void-Writes :
        (voided : Payment) (d : Db)
        → d
          ≡ without_payment actor.business_id o.outlet_id i payment_id actor.user_id reason env.now
              db
        → Ensures env (finish_void actor i payment_id reason o p voided) d (λ _ d'. Voided db d')
    unfolding finish_void insert_payment_audit Sql.update_order_payment_status
        Sql.insert_payment_audit_log
    finish_void-Writes voided d is_d =
        after_read _ _ (read_ledger-Reads actor.business_id i o env d) λ c _.
          after_update_one _ _ _ λ s d' written.
            let (_, _, _, is_d') =
              store_orders-writes d (λ o. o.payment_status) _ _ d.orders written in
            after_exec _ _ _ (
              Ensures-pure _ (record {
                outlet_id = o.outlet_id;
                reason = reason;
                status = _;
                log = _;
                leaves = ap (add_audit _) (
                    is_d'
                    ∙ ap
                        (λ d. with_orders d (
                          update (is_order_at actor.business_id o.outlet_id i)
                            (with_payment_status (payment_status_for o.total_amount c) env.now)
                            d.orders))
                        is_d);
              }))

    void_confirmed-Writes :
        Ensures env (void_confirmed actor i payment_id reason o p) db (λ _ d. Voided db d)
    unfolding void_confirmed Sql.void_confirmed_payment
    void_confirmed-Writes = after_raise_if _ _ _ λ _. after_update_one _ _ _ λ voided d written.
        let (_, _, _, is_d) = store_payments-writes db _ _ db.payments written in
        finish_void-Writes voided d is_d

    replay_void-Writes : Ensures env (replay_void actor i o p) db (λ _ d. d ≡ db)
    unfolding replay_void
    replay_void-Writes =
        after_read _ _ (read_ledger-Reads actor.business_id i o env db) λ c _. Ensures-pure _ refl

  void_body-Writes :
      (reason : Text) (db : Db)
      → Ensures env (void_body actor i payment_id reason) db (λ _ d. (d ≡ db) ⊎ Voided db d)
  unfolding void_body
  void_body-Writes reason db = after_read _ _ (lock_payable_order-Reads actor i env db) λ o _.
      after_read _ _ (ensure_no_payment_refunds-Reads actor.business_id o.outlet_id i env db) λ _ _.
        after_read _ _ (found_payment-Reads actor.business_id o.outlet_id i payment_id env db)
          λ p _.
            Ensures-if _ _ _
              (λ _. Ensures-weaken _ (replay_void-Writes reason o p db) λ _ _ same. inl same)
              (λ _. Ensures-weaken _ (void_confirmed-Writes reason o p db) λ _ _ v. inr v)

  -- A success of `Void` is a replay, or voids a payment of the order.
  pub void_payment_wrote :
      (reason : Text) (db : Db) {r : PaymentVoidResult} {d : Db}
      → void_payment actor i payment_id reason env db ≡ (ok r, d)
      → (d ≡ db) ⊎ Voided db d
  unfolding void_payment
  void_payment_wrote reason db h =
      Ensures-ok {Q = λ _ d. (d ≡ db) ⊎ Voided db d}
        (after_raise_if _ _ _ λ _. Ensures-transaction _ (void_body-Writes (trim_space reason) db))
        h
