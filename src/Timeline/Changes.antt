-- ===== src/Timeline/Changes.antt =====
-- The two updates of an order, and the failures of `TransitionStatus` and `Cancel`.
use mathlib.Core.Option.{some-injective}
use launlog_api.Prelude.{
  ℕ, Bool, true, false, ◌≡◌, Option, none, some, find?, refl, sym, ap, ◌∙◌, arith, if◌then◌else◌,
}
use launlog_api.Prelude.Int.{pos, ℤ, eq_of_parts}
use launlog_api.Prelude.Text.{Text}
use launlog_api.Store.{Db, Order, OrderStatus, cancelled, unpaid, is_cancelled, is_completed}
use launlog_api.Effect.{Env, Error, err}
use launlog_api.Effect.Atomic.{IsAtomic-guard, IsAtomic-transaction}
use launlog_api.Query.Lifecycle.{is_order, transitioned, marked_cancelled}
use launlog_api.Query.Lifecycle as Sql
use launlog_api.Actor.{Actor}
use launlog_api.Orders.Status.{allowed_order_transition}
use launlog_api.Orders.Lifecycle.{transition_status, cancel}
use launlog_api.Orders.Lifecycle.Locking.{IsLocked}
use launlog_api.Payments.Amounts.{payment_status_for}
use launlog_api.Payments.Record.{is_some}
use launlog_api.Ledger.{IsLedger, IsUnique, credited}
use launlog_api.Ledger.Totals.{find?-weaken}
use launlog_api.Timeline.{IsTimeline}
use launlog_api.Timeline.Moving.{Marks}
use launlog_api.Timeline.Steps.{WasUnpaid}
use launlog_api.Timeline.Money.{KeepsMoney}

-- If `TransitionStatus` reports an error, whichever it is, the tables are as they were before.
pub transition_status_error :
    (actor : Actor) (i : ℕ) (to_status : OrderStatus) (notes : Option Text) (env : Env) (db : Db)
    {e : Error} {d : Db}
    → transition_status actor i to_status notes env db ≡ (err e, d)
    → d ≡ db
unfolding transition_status
transition_status_error actor i to_status notes env db h =
    (IsAtomic-guard _ _ _ (IsAtomic-transaction _)).at env db _ _ h

-- If `Cancel` reports an error, whichever it is, the tables are as they were before.
pub cancel_error :
    (actor : Actor) (i : ℕ) (reason : Text) (env : Env) (db : Db) {e : Error} {d : Db}
    → cancel actor i reason env db ≡ (err e, d)
    → d ≡ db
unfolding cancel
cancel_error actor i reason env db h =
    (IsAtomic-guard _ _ _ (IsAtomic-transaction _)).at env db _ _ h

-- The locked order is the one that its key finds.
pub IsLocked-key :
    (actor : Actor) (i : ℕ) (db : Db) {o : Order}
    → IsUnique db.orders
    → IsLocked actor i db o
    → find? (is_order actor.business_id i) db.orders ≡ some o
unfolding Sql.get_order_for_update
IsLocked-key actor i db unique locked = find?-weaken actor.business_id i _ db.orders unique locked

pub transitioned-KeepsMoney : (s : OrderStatus) (now : ℕ) → KeepsMoney (transitioned s now)
transitioned-KeepsMoney s now = record {
  key = record { same_business = λ o. refl; same_id = λ o. refl };
  same_total = λ o. refl;
  same_credit = λ ps o. refl;
  same_payment_status = λ o. refl;
}

pub marked_cancelled-KeepsMoney :
    (u : ℕ) (reason : Text) (now : ℕ) → KeepsMoney (marked_cancelled u reason now)
marked_cancelled-KeepsMoney u reason now = record {
  key = record { same_business = λ o. refl; same_id = λ o. refl };
  same_total = λ o. refl;
  same_credit = λ ps o. refl;
  same_payment_status = λ o. refl;
}

pub allowed_from_open :
    (s s' : OrderStatus)
    → allowed_order_transition s s' ≡ true
    → (is_cancelled s ≡ false) × (is_completed s ≡ false)
unfolding allowed_order_transition
allowed_from_open s s' h = ground arith

pub transitioned-Marks :
    (to_status : OrderStatus) (now b i : ℕ) (db : Db) (o : Order)
    → IsTimeline db
    → find? (is_order b i) db.orders ≡ some o
    → allowed_order_transition o.status to_status ≡ true
    → is_cancelled to_status ≡ false
    → Marks (transitioned to_status now) to_status o
transitioned-Marks to_status now b i db o timeline found allowed alive =
    let t = timeline.tracked b i o found in
    let (open_before, _) = allowed_from_open o.status to_status allowed in
    record {
      status_set = refl;
      completed_set = stamp (is_completed to_status);
      cancelled_set = t.cancelled_stamp ∙ (open_before ∙ sym alive);
      deleted_set = t.deleted_stamp ∙ (open_before ∙ sym alive);
    }
  where
    stamp : (b : Bool) → is_some (if b then some now else none) ≡ b
    stamp true = refl
    stamp false = refl

pub marked_cancelled-Marks :
    (u : ℕ) (reason : Text) (now b i : ℕ) (db : Db) (o : Order)
    → IsTimeline db
    → find? (is_order b i) db.orders ≡ some o
    → allowed_order_transition o.status cancelled ≡ true
    → Marks (marked_cancelled u reason now) cancelled o
marked_cancelled-Marks u reason now b i db o timeline found allowed =
    let t = timeline.tracked b i o found in
    let (_, open_before) = allowed_from_open o.status cancelled allowed in
    record {
      status_set = refl;
      completed_set = t.completed_stamp ∙ open_before;
      cancelled_set = refl;
      deleted_set = refl;
    }

-- An unpaid order of a ledger has no credit.
unpaid_no_credit : (total c : ℤ) → payment_status_for total c ≡ unpaid → c ≡ pos 0
unfolding payment_status_for
unpaid_no_credit total c h = ground (arith, eq_of_parts c (pos 0))

pub WasUnpaid-credited :
    (actor : Actor) (i : ℕ) (db : Db) (o : Order)
    → IsLedger db
    → WasUnpaid actor i db
    → find? (is_order actor.business_id i) db.orders ≡ some o
    → credited db.payments o ≡ pos 0
WasUnpaid-credited actor i db o ledger (o', locked, was_unpaid) found =
    let same : o' ≡ o =
      some-injective _ _ (sym (IsLocked-key actor i db ledger.unique locked) ∙ found) in
    unpaid_no_credit o.total_amount _ (
      sym (ledger.balanced actor.business_id i o found).status_agrees
      ∙ (ap (λ (x : Order). x.payment_status) (sym same) ∙ was_unpaid))
