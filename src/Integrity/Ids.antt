-- ===== src/Integrity/Ids.antt =====
-- The ids in use stay below the next one in the methods that change an order.
use launlog_api.Prelude.{
  ℕ, ◌<◌, Bool, ◌≡◌, ◌⊎◌, inl, inr, update, All-append, All-update, All-find?, find?-true, arith,
  refl, sym, subst,
}
use launlog_api.Store.{Db, Order, OrderStatus, Payment}
use launlog_api.Effect.{Env}
use launlog_api.Query.Lifecycle.{is_order}
use launlog_api.Query.Writes.{with_orders, with_payments}
use launlog_api.Actor.{Actor}
use launlog_api.Ledger.{IsUnique}
use launlog_api.Ledger.Totals.{is_order_key}
use launlog_api.Ledger.Retry.{Wrote}
use launlog_api.Timeline.Changes.{IsLocked-key}
use launlog_api.Timeline.Steps.{Stepped}
use launlog_api.Orders.Lifecycle.{OrderLifecycleResult}
use launlog_api.Orders.Lifecycle.Locking.{IsLocked}
use launlog_api.Payments.Views.{RecordPaymentInput, PaymentRecordResult}
use launlog_api.Integrity.{IsInRange}
use launlog_api.Ledger.Voided.{Voided}
use launlog_api.Ledger.Voiding.{to_void}
use launlog_api.Query.Payments.{marked_voided}
use launlog_api.Ledger.Settle.{is_order_at, with_payment_status}

module _ (db : Db) (fresh : IsInRange db) where
  orders-IsInRange :
      (test : Order → Bool) (change : Order → Order)
      → ((o : Order) → (change o).id ≡ o.id)
      → IsInRange (with_orders db (update test change db.orders))
  orders-IsInRange test change keep = record {
    orders_below =
        All-update (λ o. o.id < db.next_order_id) test change
          (λ o low. subst (λ i. i < db.next_order_id) (sym (keep o)) low) db.orders
          fresh.orders_below;
    items_below = fresh.items_below;
    payments_below = fresh.payments_below;
    history_below = fresh.history_below;
    priced = fresh.priced;
  }

  payments-IsInRange :
      (test : Payment → Bool) (change : Payment → Payment)
      → ((p : Payment) → (change p).order_id ≡ p.order_id)
      → IsInRange (with_payments db (update test change db.payments))
  payments-IsInRange test change keep = record {
    orders_below = fresh.orders_below;
    items_below = fresh.items_below;
    payments_below =
        All-update (λ p. p.order_id < db.next_order_id) test change
          (λ p low. subst (λ i. i < db.next_order_id) (sym (keep p)) low) db.payments
          fresh.payments_below;
    history_below = fresh.history_below;
    priced = fresh.priced;
  }

  -- An order that the tables hold has an id in use.
  locked_below :
      (actor : Actor) (i : ℕ) (o : Order)
      → IsUnique db.orders
      → IsLocked actor i db o
      → i < db.next_order_id
  locked_below actor i o unique locked =
      let found = IsLocked-key actor i db unique locked in
      let low = All-find? (λ o. o.id < db.next_order_id) _ db.orders fresh.orders_below found in
      let (_, same) = is_order_key actor.business_id i o (find?-true _ db.orders found) in
      omega (arith, low, same)

  pub Stepped-IsInRange :
      (actor : Actor) (i : ℕ) (to_status : OrderStatus) (change : Order → Order) (env : Env)
      {r : OrderLifecycleResult} {d : Db}
      → IsUnique db.orders
      → ((o : Order) → (change o).id ≡ o.id)
      → Stepped actor i to_status change env db r d
      → IsInRange d
  Stepped-IsInRange actor i to_status change env unique keep s =
      let low = locked_below actor i s.before unique s.locked in
      let moved = orders-IsInRange (is_order actor.business_id i) change keep in
      subst IsInRange (sym s.leaves) (record {
        orders_below = moved.orders_below;
        items_below = fresh.items_below;
        payments_below = fresh.payments_below;
        history_below = All-append _ db.order_status_history _ fresh.history_below (low, tt);
        priced = fresh.priced;
      })

  pub Wrote-IsInRange :
      (actor : Actor) (i : ℕ) (input : RecordPaymentInput) (env : Env) {r : PaymentRecordResult}
      {d : Db}
      → IsUnique db.orders
      → Wrote actor i input env db r d
      → IsInRange d
  Wrote-IsInRange actor i input env unique w =
      let low = locked_below actor i w.o unique w.locked in
      let paid = orders-IsInRange _ _ (λ o. refl) in
      subst IsInRange (sym w.leaves) (record {
        orders_below = paid.orders_below;
        items_below = fresh.items_below;
        payments_below =
            All-append _ db.payments _ fresh.payments_below
              (subst (λ j. j < db.next_order_id) (sym w.is_for.2) low, tt);
        history_below = fresh.history_below;
        priced = fresh.priced;
      })

pub Voided-IsInRange :
    (actor : Actor) (i payment_id : ℕ) (env : Env) (db d : Db)
    → IsInRange db
    → (d ≡ db) ⊎ Voided actor i payment_id env db d
    → IsInRange d
Voided-IsInRange actor i payment_id env db d fresh (inl same) = subst IsInRange (sym same) fresh
Voided-IsInRange actor i payment_id env db d fresh (inr v) =
    let paid =
      payments-IsInRange db fresh (to_void actor.business_id v.outlet_id i payment_id)
        (marked_voided actor.user_id v.reason env.now) (λ p. refl) in
    let after =
      orders-IsInRange _ paid (is_order_at actor.business_id v.outlet_id i)
        (with_payment_status v.status env.now) (λ o. refl) in
    subst IsInRange (sym v.leaves) (record {
      orders_below = after.orders_below;
      items_below = after.items_below;
      payments_below = after.payments_below;
      history_below = after.history_below;
      priced = after.priced;
    })
