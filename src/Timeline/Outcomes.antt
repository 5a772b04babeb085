-- ===== src/Timeline/Outcomes.antt =====
-- What `TransitionStatus` and `Cancel` do to the orders, whatever they answer.
use launlog_api.Prelude.{ℕ, ◌≡◌, Option, sym, subst}
use launlog_api.Prelude.Text.{Text, trim_space}
use launlog_api.Store.{Db, OrderStatus, cancelled}
use launlog_api.Effect.{Env, Result, ok, err}
use launlog_api.Query.Lifecycle.{transitioned, marked_cancelled}
use launlog_api.Actor.{Actor}
use launlog_api.Orders.Lifecycle.{OrderLifecycleResult, transition_status, cancel}
use launlog_api.Ledger.{IsLedger}
use launlog_api.Timeline.{IsTimeline}
use launlog_api.Timeline.Moving.{IsTimeline-stepped}
use launlog_api.Timeline.Steps.{transition_status-Stepped, cancel-Stepped}
use launlog_api.Timeline.Money.{IsLedgerOf-changed}
use launlog_api.Timeline.Changes.{
  transition_status_error, cancel_error, IsLocked-key, transitioned-KeepsMoney,
  marked_cancelled-KeepsMoney, transitioned-Marks, marked_cancelled-Marks, WasUnpaid-credited,
}

module _ (actor : Actor) (i : ℕ) (env : Env) (db : Db) where
  -- If the histories, statuses and time stamps of the orders agree before `TransitionStatus`, then
  -- they agree after it, whether it succeeds or fails.
  pub transition_status-IsTimeline :
      (to_status : OrderStatus) (notes : Option Text)
      → IsTimeline db
      → (r : Result OrderLifecycleResult) (d : Db)
      → transition_status actor i to_status notes env db ≡ (r, d)
      → IsTimeline d
  transition_status-IsTimeline to_status notes timeline (err e) d h =
      subst IsTimeline (sym (transition_status_error actor i to_status notes env db h)) timeline
  transition_status-IsTimeline to_status notes timeline (ok r) d h =
      let (alive, s) = transition_status-Stepped actor i env db to_status notes h in
      let found = IsLocked-key actor i db timeline.unique s.locked in
      subst IsTimeline (sym s.leaves) (
        IsTimeline-stepped actor.business_id i (transitioned to_status env.now)
          (transitioned-KeepsMoney to_status env.now).key env db timeline found s.before.outlet_id
          to_status actor.user_id s.notes s.log s.allowed
          (transitioned-Marks to_status env.now actor.business_id i db s.before timeline found
            s.allowed alive))

  -- If the histories, statuses and time stamps of the orders agree before `Cancel`, then they agree
  -- after it, whether it succeeds or fails.
  pub cancel-IsTimeline :
      (reason : Text)
      → IsTimeline db
      → (r : Result OrderLifecycleResult) (d : Db) → cancel actor i reason env db ≡ (r, d)
      → IsTimeline d
  cancel-IsTimeline reason timeline (err e) d h =
      subst IsTimeline (sym (cancel_error actor i reason env db h)) timeline
  cancel-IsTimeline reason timeline (ok r) d h =
      let (s, _) = cancel-Stepped actor i env db reason h in
      let found = IsLocked-key actor i db timeline.unique s.locked in
      subst IsTimeline (sym s.leaves) (
        IsTimeline-stepped actor.business_id i
          (marked_cancelled actor.user_id (trim_space reason) env.now)
          (marked_cancelled-KeepsMoney actor.user_id (trim_space reason) env.now).key env db
          timeline found s.before.outlet_id cancelled actor.user_id s.notes s.log s.allowed
          (marked_cancelled-Marks actor.user_id (trim_space reason) env.now actor.business_id i db
            s.before timeline found s.allowed))

  -- On tables that form a ledger, `TransitionStatus` leaves tables that form a ledger, whether it
  -- succeeds or fails.
  pub transition_status-IsLedger :
      (to_status : OrderStatus) (notes : Option Text)
      → IsLedger db
      → (r : Result OrderLifecycleResult) (d : Db)
      → transition_status actor i to_status notes env db ≡ (r, d)
      → IsLedger d
  transition_status-IsLedger to_status notes ledger (err e) d h =
      subst IsLedger (sym (transition_status_error actor i to_status notes env db h)) ledger
  transition_status-IsLedger to_status notes ledger (ok r) d h =
      let (alive, s) = transition_status-Stepped actor i env db to_status notes h in
      subst IsLedger (sym s.leaves) (
        IsLedgerOf-changed (transitioned to_status env.now)
          (transitioned-KeepsMoney to_status env.now) db.orders db.payments actor.business_id i
          ledger (λ o found gone. cc))

  -- On tables that form a ledger, `Cancel` leaves tables that form a ledger, whether it succeeds or
  -- fails: an order that is cancelled has no credit.
  pub cancel-IsLedger :
      (reason : Text)
      → IsLedger db
      → (r : Result OrderLifecycleResult) (d : Db) → cancel actor i reason env db ≡ (r, d)
      → IsLedger d
  cancel-IsLedger reason ledger (err e) d h =
      subst IsLedger (sym (cancel_error actor i reason env db h)) ledger
  cancel-IsLedger reason ledger (ok r) d h =
      let (s, was_unpaid) = cancel-Stepped actor i env db reason h in
      subst IsLedger (sym s.leaves) (
        IsLedgerOf-changed (marked_cancelled actor.user_id (trim_space reason) env.now)
          (marked_cancelled-KeepsMoney actor.user_id (trim_space reason) env.now) db.orders
          db.payments actor.business_id i ledger
          (λ o found gone. WasUnpaid-credited actor i db o ledger was_unpaid found))
