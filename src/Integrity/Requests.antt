-- ===== src/Integrity/Requests.antt =====
-- Every sequence of requests to the order, payment and catalog services.
pub mod Soundness
pub mod Orders
use launlog_api.Prelude.{
  ℕ, ◌≡◌, ◌⊎◌, inl, inr, Option, some, find?, refl, sym, ap, subst, true, ◌∙◌,
}
use launlog_api.Prelude.Int.{InInt64}
use launlog_api.Prelude.Text.{Text, trim_space}
use launlog_api.Store.{Db, Order, OrderStatus, is_completed, is_cancelled, cancelled}
use launlog_api.Effect.{Env, Result, ok, err}
use launlog_api.Query.Lifecycle.{is_order, transitioned, marked_cancelled}
use launlog_api.Actor.{Actor}
use launlog_api.Services.{ServiceInput, catalog_create, catalog_update, catalog_delete}
use launlog_api.Store.{ServiceView}
use launlog_api.Orders.Views.{CreateOrderInput, OrderCreationResult}
use launlog_api.Orders.Creation.{create}
use launlog_api.Orders.Creation.Outcome.{create_answer, order_of}
use launlog_api.Orders.Lifecycle.{OrderLifecycleResult, transition_status, cancel}
use launlog_api.Payments.Views.{RecordPaymentInput, PaymentRecordResult, PaymentVoidResult}
use launlog_api.Payments.Record.{record_payment}
use launlog_api.Payments.Void.{void_payment}
use launlog_api.Ledger.Outcomes.{
  record_payment_error, void_payment_error, record_payment-IsLedger, void_payment-IsLedger,
  record_payment_replayed,
}
use launlog_api.Ledger.Retry.{WroteOrReplayed, record_payment_wrote}
use launlog_api.Ledger.Voided.{void_payment_wrote}
use launlog_api.Timeline.Changes.{
  transition_status_error, cancel_error, transitioned-KeepsMoney, marked_cancelled-KeepsMoney,
  IsLocked-key,
}
use launlog_api.Timeline.Steps.{transition_status-Stepped, cancel-Stepped}
use launlog_api.Timeline.Outcomes.{
  transition_status-IsTimeline, cancel-IsTimeline, transition_status-IsLedger, cancel-IsLedger,
}
use launlog_api.Timeline.Payments.{record_payment-IsTimeline, void_payment-IsTimeline}
use launlog_api.Ledger.{IsLedger}
use launlog_api.Timeline.{IsTimeline}
use launlog_api.Integrity.{IsInRange, IsSound}
use launlog_api.Integrity.Creation.{create-IsSound, create_error, IsCreated-orders}
use launlog_api.Integrity.Ids.{Stepped-IsInRange, Wrote-IsInRange, Voided-IsInRange}
use launlog_api.Integrity.Continuity.{
  Continues, AllContinue, AllContinue-refl, AllContinue-trans, AllContinue-added,
  AllContinue-settled, AllContinue-stepped, Advances-closed,
}

-- A request that changes orders, payments or services, run to its end: whoever sends it, whatever its transaction finds,
-- and whatever it answers.
pub data Step (db d : Db) : Type 0 where
  creates :
      (actor : Actor) (input : CreateOrderInput) (env : Env) (r : Result OrderCreationResult)
      → create actor input env db ≡ (r, d)
      → Step db d
  transitions :
      (actor : Actor) (i : ℕ) (to_status : OrderStatus) (notes : Option Text) (env : Env)
      (r : Result OrderLifecycleResult)
      → transition_status actor i to_status notes env db ≡ (r, d)
      → Step db d
  cancels :
      (actor : Actor) (i : ℕ) (reason : Text) (env : Env) (r : Result OrderLifecycleResult)
      → cancel actor i reason env db ≡ (r, d)
      → Step db d
  records :
      (actor : Actor) (i : ℕ) (input : RecordPaymentInput) (env : Env)
      (r : Result PaymentRecordResult)
      → InInt64 input.tendered_amount
      → record_payment actor i input env db ≡ (r, d)
      → Step db d
  adds_service :
      (actor : Actor) (input : ServiceInput) (env : Env) (r : Result ServiceView)
      → catalog_create actor input env db ≡ (r, d)
      → Step db d
  updates_service :
      (actor : Actor) (i : ℕ) (input : ServiceInput) (env : Env) (r : Result ServiceView)
      → catalog_update actor i input env db ≡ (r, d)
      → Step db d
  deletes_service :
      (actor : Actor) (i : ℕ) (env : Env) (r : Result (Unit {0}))
      → catalog_delete actor i env db ≡ (r, d)
      → Step db d
  voids :
      (actor : Actor) (i payment_id : ℕ) (reason : Text) (env : Env) (r : Result PaymentVoidResult)
      → void_payment actor i payment_id reason env db ≡ (r, d)
      → Step db d

-- Any number of requests, one after another.
pub data Reaches (db : Db) : Db → Type 0 where
  begins : Reaches db db
  then : (c d : Db) → Reaches db c → Step c d → Reaches db d
