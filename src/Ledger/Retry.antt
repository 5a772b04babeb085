-- ===== src/Ledger/Retry.antt =====
-- What a newly recorded payment leaves for a retry of the same request.
use launlog_api.Prelude.{
  Bool, ℕ, ◌+◌, true, false, ◌≡◌, ◌⊎◌, inl, inr, ◌||◌, Option, none, some, [], ◌∷◌, ◌++◌, update,
  refl, ap,
}
use launlog_api.Prelude.Int.{ℤ}
use launlog_api.Store.{Db, Order, Payment, PaymentStatus, AuditLog, is_cancelled}
use launlog_api.Effect.{Env, ok}
use launlog_api.Effect.Hoare.{
  Ensures-weaken, Ensures-transaction, Ensures-ok, Ensures, Ensures-pure, after_raise_if,
  after_lift, after_query, after_insert_one, after_update_one, after_exec, after_read,
}
use launlog_api.Query.Lifecycle.{add_audit}
use launlog_api.Query.Payments.{pays, has_key}
use launlog_api.Query.Payments as Sql
use launlog_api.Query.Writes.{store_orders-writes, with_orders}
use launlog_api.Actor.{Actor}
use launlog_api.Orders.Lifecycle.Locking.{IsLocked}
use launlog_api.Payments.Views.{
  RecordPaymentInput, PaymentRecordResult, payment_from, exceeds_payment_text_limit,
}
use launlog_api.Payments.Steps.{insert_payment_audit}
use launlog_api.Payments.Steps.Reading.{
  lock_payable_order-Reads, ensure_no_payment_refunds-Reads, read_ledger-Reads,
}
use launlog_api.Payments.Record.{
  record_payment, is_invalid_request, record_body, replay_payment, replay_or_record,
  record_new_payment, is_some,
}
use launlog_api.Ledger.Settle.{is_order_at, with_payment_status}

abbrev pub has_long_text : RecordPaymentInput → Bool
has_long_text input =
    exceeds_payment_text_limit input.external_reference 256
    || exceeds_payment_text_limit input.notes 2000

-- The tables after a payment `row` of the order `i` at the outlet `t`.
abbrev pub recorded : ℕ → ℕ → ℕ → Payment → PaymentStatus → ℕ → AuditLog → Db → Db
recorded b t i row status now log db = add_audit log (
    with_orders
      (record db { payments = db.payments ++ row ∷ []; next_payment_id = db.next_payment_id + 1 })
      (update (is_order_at b t i) (with_payment_status status now) db.orders))

module _ (actor : Actor) (i : ℕ) (input : RecordPaymentInput) (env : Env) (db : Db) where
  -- A newly recorded payment: the request was in order, and its row carries the request's key and
  -- hash.
  pub record Wrote (r : PaymentRecordResult) (d : Db) : Type 0 where
    pub o : Order
    pub locked : IsLocked actor i db o
    pub open_order : is_cancelled o.status || is_some o.deleted_at ≡ false
    pub no_refunds : Sql.count_order_payment_refunds actor.business_id o.outlet_id i db ≡ 0
    pub new_key :
        Sql.get_payment_by_idempotency_key actor.business_id o.outlet_id i input.idempotency_key db
        ≡ none
    pub row : Payment
    pub log : AuditLog
    pub status : PaymentStatus
    pub is_view : r.payment ≡ payment_from row
    pub is_for :
        (row.business_id ≡ actor.business_id) × (row.outlet_id ≡ o.outlet_id) × (row.order_id ≡ i)
    pub has_its_key : row.idempotency_key ≡ some input.idempotency_key
    pub has_its_hash : row.request_hash ≡ some input.request_hash
    pub leaves : d ≡ recorded actor.business_id o.outlet_id i row status env.now log db

  abbrev pub WroteOrReplayed : PaymentRecordResult → Db → Type 0
  WroteOrReplayed r d = (r.replayed ≡ true) ⊎ Wrote r d

  module _ (o : Order) (locked : IsLocked actor i db o)
      (open_order : is_cancelled o.status || is_some o.deleted_at ≡ false)
      (no_refunds : Sql.count_order_payment_refunds actor.business_id o.outlet_id i db ≡ 0) where
    abbrev inserted : ℤ → Db
    inserted a =
        (Sql.create_confirmed_payment actor.business_id o.outlet_id i a input.method
          input.external_reference input.notes actor.user_id input.idempotency_key
          input.request_hash env db).1

    record_new_payment-Wrote :
        Sql.get_payment_by_idempotency_key actor.business_id o.outlet_id i input.idempotency_key db
          ≡ none
        → Ensures env (record_new_payment actor i input o) db WroteOrReplayed
    unfolding record_new_payment insert_payment_audit Sql.create_confirmed_payment
        Sql.update_order_payment_status Sql.insert_payment_audit_log
    record_new_payment-Wrote new_key =
        after_read _ _ (read_ledger-Reads actor.business_id i o env db) λ c _.
          after_raise_if _ _ _ λ _. after_lift _ _ λ amounts _. after_insert_one _ _ _ (
            after_update_one _ _ _ λ s d written.
              let (_, _, _, is_d) =
                store_orders-writes (inserted amounts.0) (λ o. o.payment_status) _ _ db.orders
                  written in
              after_exec _ _ _ (
                Ensures-pure _ (
                  inr (record {
                    o = o;
                    locked = locked;
                    open_order = open_order;
                    no_refunds = no_refunds;
                    new_key = new_key;
                    row = _;
                    log = _;
                    status = _;
                    is_view = refl;
                    is_for = (refl, refl, refl);
                    has_its_key = refl;
                    has_its_hash = refl;
                    leaves = ap (add_audit _) is_d;
                  }))))

    replay-Replayed :
        (p : Payment) → Ensures env (replay_payment actor i input o p) db WroteOrReplayed
    unfolding replay_payment
    replay-Replayed p = after_raise_if _ _ _ λ _.
        after_read _ _ (read_ledger-Reads actor.business_id i o env db)
          λ c _. Ensures-pure _ (inl refl)

    replay_or_record-Wrote :
        (existing : Option Payment)
        → Sql.get_payment_by_idempotency_key actor.business_id o.outlet_id i input.idempotency_key
            db
          ≡ existing
        → Ensures env (replay_or_record actor i input o existing) db WroteOrReplayed
    replay_or_record-Wrote none e = record_new_payment-Wrote e
    replay_or_record-Wrote (some p) e = replay-Replayed p

  record_body-Wrote : Ensures env (record_body actor i input) db WroteOrReplayed
  unfolding record_body
  record_body-Wrote = after_read _ _ (lock_payable_order-Reads actor i env db) λ o locked.
      after_raise_if _ _ _ λ open_order.
        after_read _ _ (ensure_no_payment_refunds-Reads actor.business_id o.outlet_id i env db)
          λ _ no_refunds.
            after_query _ _ _ (replay_or_record-Wrote o locked open_order no_refunds _ refl)

  -- A success is in order, and either replays or writes a new payment.
  pub record_payment_wrote :
      {r : PaymentRecordResult} {d : Db}
      → record_payment actor i input env db ≡ (ok r, d)
      → (is_invalid_request actor i input ≡ false)
        × (has_long_text input ≡ false)
        × WroteOrReplayed r d
  unfolding record_payment
  record_payment_wrote h =
      Ensures-ok
        {Q = λ r d.
          (is_invalid_request actor i input ≡ false)
          × (has_long_text input ≡ false)
          × WroteOrReplayed r d}
        (after_raise_if _ _ _ λ valid. after_raise_if _ _ _ λ short.
          Ensures-transaction _ (Ensures-weaken _ record_body-Wrote λ r d w. (valid, short, w)))
        h
