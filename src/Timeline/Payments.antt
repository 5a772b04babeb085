-- ===== src/Timeline/Payments.antt =====
-- Payments leave the lives of the orders alone.
use launlog_api.Prelude.{
  ℕ, Bool, true, false, ◌≡◌, some, find?, update, refl, sym, subst, ap, Bool-cases, inl, inr,
  touched, ◌⊎◌,
}
use launlog_api.Prelude.Text.{Text}
use launlog_api.Prelude.Int.{InInt64}
use launlog_api.Store.{Db, Order, PaymentStatus}
use launlog_api.Effect.{Env, Result, ok, err}
use launlog_api.Query.Lifecycle.{is_order}
use launlog_api.Actor.{Actor}
use launlog_api.Payments.Void.{void_payment}
use launlog_api.Payments.Views.{RecordPaymentInput, PaymentRecordResult, PaymentVoidResult}
use launlog_api.Payments.Record.{record_payment}
use launlog_api.Ledger.{IsLedger}
use launlog_api.Ledger.Keys.{KeepsKey, IsUnique-update, find?-before}
use launlog_api.Ledger.Settle.{is_order_at, with_payment_status}
use launlog_api.Ledger.Retry.{WroteOrReplayed, recorded, record_payment_wrote}
use launlog_api.Ledger.Voided.{Voided, void_payment_wrote}
use launlog_api.Ledger.Outcomes.{void_payment_error, record_payment_error, record_payment_replayed}
use launlog_api.Timeline.{IsTimeline, IsTracked}

-- An update of payment statuses keeps the timeline.
IsTimeline-settled :
    (db d : Db) (test : Order → Bool) (s : PaymentStatus) (now : ℕ)
    → d.orders ≡ update test (with_payment_status s now) db.orders
    → d.order_status_history ≡ db.order_status_history
    → IsTimeline db
    → IsTimeline d
IsTimeline-settled db d test s now same_orders same_history timeline = record {
  unique =
      rw same_orders
        (IsUnique-update test (with_payment_status s now) keep db.orders timeline.unique);
  tracked = λ b i o' found'.
      let (o, found, is_o) =
        find?-before test (with_payment_status s now) keep b i db.orders
          (subst (λ os. find? (is_order b i) os ≡ some o') same_orders found') in
      rw same_history (
        subst (IsTracked db.order_status_history b i) (sym is_o)
          (kept b i o (Bool-cases (test o)) (timeline.tracked b i o found)));
}
  where
    keep : KeepsKey (with_payment_status s now)
    keep = record { same_business = λ o. refl; same_id = λ o. refl }

    kept :
        (b i : ℕ) (o : Order)
        → (test o ≡ true) ⊎ (test o ≡ false)
        → IsTracked db.order_status_history b i o
        → IsTracked db.order_status_history b i (touched test (with_payment_status s now) o)
    kept b i o (inl hit) t = rw hit (record {
      follows = t.follows;
      completed_stamp = t.completed_stamp;
      cancelled_stamp = t.cancelled_stamp;
      deleted_stamp = t.deleted_stamp;
    })
    kept b i o (inr miss) t = rw miss t

module _ (actor : Actor) (i : ℕ) (env : Env) (db : Db) (input : RecordPaymentInput)
    (ledger : IsLedger db) (range : InInt64 input.tendered_amount) (timeline : IsTimeline db) where
  wrote-IsTimeline :
      {r : PaymentRecordResult} {d : Db}
      → record_payment actor i input env db ≡ (ok r, d)
      → WroteOrReplayed actor i input env db r d
      → IsTimeline d
  wrote-IsTimeline h (inl replayed) =
      subst IsTimeline
        (sym (record_payment_replayed actor i env db input ledger range h replayed).0) timeline
  wrote-IsTimeline h (inr w) = subst IsTimeline (sym w.leaves) (
      IsTimeline-settled db
        (recorded actor.business_id w.o.outlet_id i w.row w.status env.now w.log db)
        (is_order_at actor.business_id w.o.outlet_id i) w.status env.now refl refl timeline)

  -- If the histories, statuses and time stamps of the orders agree before `Record` on a ledger with
  -- an int64 tender, then they agree after it, whether it succeeds or fails.
  pub record_payment-IsTimeline :
      (r : Result PaymentRecordResult) (d : Db)
      → record_payment actor i input env db ≡ (r, d)
      → IsTimeline d
  record_payment-IsTimeline (ok r) d h =
      wrote-IsTimeline h (record_payment_wrote actor i input env db h).2
  record_payment-IsTimeline (err e) d h =
      subst IsTimeline (sym (record_payment_error actor i input env db h)) timeline

module _ (actor : Actor) (i : ℕ) (env : Env) where
  Voided-IsTimeline :
      (payment_id : ℕ) (db d : Db)
      → IsTimeline db
      → (d ≡ db) ⊎ Voided actor i payment_id env db d
      → IsTimeline d
  Voided-IsTimeline payment_id db d timeline (inl same) = subst IsTimeline (sym same) timeline
  Voided-IsTimeline payment_id db d timeline (inr v) =
      IsTimeline-settled db d (is_order_at actor.business_id v.outlet_id i) v.status env.now
        (ap (λ (x : Db). x.orders) v.leaves) (ap (λ (x : Db). x.order_status_history) v.leaves)
        timeline

  -- If the histories, statuses and time stamps of the orders agree before `Void`, then they agree
  -- after it, whether it succeeds or fails.
  pub void_payment-IsTimeline :
      (payment_id : ℕ) (reason : Text) (db : Db)
      → IsTimeline db
      → (r : Result PaymentVoidResult) (d : Db)
      → void_payment actor i payment_id reason env db ≡ (r, d)
      → IsTimeline d
  void_payment-IsTimeline payment_id reason db timeline (ok r) d h =
      Voided-IsTimeline payment_id db d timeline
        (void_payment_wrote actor i payment_id env reason db h)
  void_payment-IsTimeline payment_id reason db timeline (err e) d h =
      subst IsTimeline (sym (void_payment_error actor i payment_id reason env db h)) timeline
