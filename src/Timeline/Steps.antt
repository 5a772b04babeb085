-- ===== src/Timeline/Steps.antt =====
-- What `TransitionStatus` and `Cancel` write when they succeed.
use launlog_api.Prelude.{ℕ, true, false, ◌≡◌, Option, some, ap, arith}
use launlog_api.Prelude.Text.{Text, trim_space}
use launlog_api.Store.{
  Db, Order, OrderStatus, AuditLog, cancelled, unpaid, PaymentStatus, is_cancelled, is_unpaid,
}
use launlog_api.Effect.{Env, ok}
use launlog_api.Effect.Hoare.{
  Ensures, Ensures-weaken, Ensures-pure, Ensures-or_no_rows, Ensures-transaction, Ensures-ok,
  after_raise_if, after_read, after_update_one, after_exec,
}
use launlog_api.Query.Lifecycle.{is_order, add_history, add_audit, transitioned, marked_cancelled}
use launlog_api.Query.Lifecycle as Sql
use launlog_api.Query.Writes.{store_orders-writes}
use launlog_api.Actor.{Actor}
use launlog_api.Orders.Status.{allowed_order_transition, valid_status_target}
use launlog_api.Orders.Lifecycle.{
  OrderLifecycleResult, transition_status, transition_body, cancel, cancel_body,
  insert_lifecycle_audit,
}
use launlog_api.Orders.Lifecycle.Locking.{IsLocked, lock_lifecycle_order-Reads}
use launlog_api.Timeline.Moving.{stepped}

-- One step of the order `i`: allowed from the status that its locked row has, and written by
-- `change`.
pub record Stepped (actor : Actor) (i : ℕ) (to_status : OrderStatus) (change : Order → Order)
    (env : Env) (db : Db) (r : OrderLifecycleResult) (d : Db) : Type 0 where
  pub before : Order
  pub notes : Option Text
  pub log : AuditLog
  pub locked : IsLocked actor i db before
  pub allowed : allowed_order_transition before.status to_status ≡ true
  pub answers : r.status ≡ to_status
  pub leaves :
      d
      ≡ stepped actor.business_id before.outlet_id i change before.status to_status actor.user_id
          notes log env db

-- The locked order was unpaid.
abbrev pub WasUnpaid : Actor → ℕ → Db → Type 0
WasUnpaid actor i db = (o : Order) × IsLocked actor i db o × (o.payment_status ≡ unpaid)

is_unpaid-unpaid : (s : PaymentStatus) → is_unpaid s ≡ true → s ≡ unpaid
is_unpaid-unpaid s h = ground arith

not_cancelled : (s : OrderStatus) → valid_status_target s ≡ true → is_cancelled s ≡ false
unfolding valid_status_target
not_cancelled s h = ground arith

module _ (actor : Actor) (i : ℕ) (env : Env) (db : Db) where
  abbrev add_row : Order → OrderStatus → Option Text → Db → Db
  add_row o to_status notes d =
      add_history actor.business_id o.outlet_id i (some o.status) to_status actor.user_id notes env
        d

  transition_body-Stepped :
      (to_status : OrderStatus) (notes : Option Text)
      → Ensures env
          (transition_body actor i to_status notes)
          db
          (Stepped actor i to_status (transitioned to_status env.now) env db)
  unfolding transition_body Sql.transition_order_status Sql.insert_order_status_history
      insert_lifecycle_audit Sql.insert_order_lifecycle_audit_log
  transition_body-Stepped to_status notes =
      after_read _ _ (Ensures-or_no_rows _ _ (lock_lifecycle_order-Reads actor i env db))
        λ o locked. after_raise_if _ _ _ λ allowed. after_update_one _ _ _ λ u d written.
          let (_, _, is_u, is_d) = store_orders-writes db (λ o. o) _ _ db.orders written in
          after_exec _ _ _ (
            after_exec _ _ _ (
              Ensures-pure _ (record {
                before = o;
                notes = notes;
                log = _;
                locked = locked;
                allowed = ground arith;
                answers = ap (λ (x : Order). x.status) is_u;
                leaves = ap (add_audit _) (ap (add_row o to_status notes) is_d);
              })))

  cancel_body-Stepped :
      (reason : Text)
      → Ensures env (cancel_body actor i reason) db λ r d.
        Stepped actor i cancelled (marked_cancelled actor.user_id reason env.now) env db r d
        × WasUnpaid actor i db
  unfolding cancel_body Sql.cancel_order Sql.insert_order_status_history insert_lifecycle_audit
      Sql.insert_order_lifecycle_audit_log
  cancel_body-Stepped reason =
      after_read _ _ (Ensures-or_no_rows _ _ (lock_lifecycle_order-Reads actor i env db))
        λ o locked. after_raise_if _ _ _ λ allowed. after_raise_if _ _ _ λ not_paid.
          after_update_one _ _ _ λ u d written.
            let (_, _, is_u, is_d) = store_orders-writes db (λ o. o) _ _ db.orders written in
            after_exec _ _ _ (
              after_exec _ _ _ (
                Ensures-pure _ (
                  record {
                    before = o;
                    notes = some reason;
                    log = _;
                    locked = locked;
                    allowed = ground arith;
                    answers = ap (λ (x : Order). x.status) is_u;
                    leaves = ap (add_audit _) (ap (add_row o cancelled (some reason)) is_d);
                  },
                  (o, locked, is_unpaid-unpaid o.payment_status (ground arith)),
                )))

  -- A success of `TransitionStatus` is a step to its target, which is not CANCELLED.
  pub transition_status-Stepped :
      (to_status : OrderStatus) (notes : Option Text) {r : OrderLifecycleResult} {d : Db}
      → transition_status actor i to_status notes env db ≡ (ok r, d)
      → (is_cancelled to_status ≡ false)
        × Stepped actor i to_status (transitioned to_status env.now) env db r d
  unfolding transition_status
  transition_status-Stepped to_status notes h =
      Ensures-ok
        {Q = λ r d.
          (is_cancelled to_status ≡ false)
          × Stepped actor i to_status (transitioned to_status env.now) env db r d}
        (after_raise_if _ _ _ λ valid. Ensures-transaction _ (
          Ensures-weaken _ (transition_body-Stepped to_status notes)
            λ r d s. (not_cancelled to_status (ground arith), s)))
        h

  -- A success of `Cancel` is a step to CANCELLED of an order that was unpaid.
  pub cancel-Stepped :
      (reason : Text) {r : OrderLifecycleResult} {d : Db}
      → cancel actor i reason env db ≡ (ok r, d)
      → Stepped actor i cancelled
          (marked_cancelled actor.user_id (trim_space reason) env.now)
          env
          db
          r
          d
        × WasUnpaid actor i db
  unfolding cancel
  cancel-Stepped reason h =
      Ensures-ok
        (after_raise_if _ _ _ λ _. Ensures-transaction _ (cancel_body-Stepped (trim_space reason)))
        h
