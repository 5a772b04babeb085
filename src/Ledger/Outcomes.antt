-- ===== src/Ledger/Outcomes.antt =====
-- What `Record` and `Void` do to the ledger, whatever they answer.
use mathlib.Core.Option.{some-injective}
use launlog_api.Prelude.{
  ℕ, true, false, ◌≡◌, ◌⊎◌, some, find?, All-find?, Distinct, subst, sym, ◌∙◌,
}
use launlog_api.Prelude.Int.{pos, ◌≤ℤ◌, ◌+ℤ◌, InInt64}
use launlog_api.Prelude.Text.{Text, trim_space}
use launlog_api.Store.{Db, Order, Payment}
use launlog_api.Effect.{Env, Error, Result, ok, err}
use launlog_api.Effect.Atomic.{IsAtomic, IsAtomic-guard, IsAtomic-transaction}
use launlog_api.Query.Lifecycle.{is_order}
use launlog_api.Query.Payments as Sql
use launlog_api.Query.Payments.{confirmed_total}
use launlog_api.Actor.{Actor}
use launlog_api.Payments.Views.{RecordPaymentInput, PaymentRecordResult, PaymentVoidResult}
use launlog_api.Payments.Record.{record_payment}
use launlog_api.Payments.Void.{void_payment}
use launlog_api.Ledger.{IsLedger}
use launlog_api.Ledger.Credit.{Describes}
use launlog_api.Ledger.RecordPayment.{record_payment_answer, IsLocked-found}
use launlog_api.Ledger.VoidPayment.{void_payment_answer}
use launlog_api.Ledger.Voids.{IsRepeated, IsMarked, void_payment-Voids}

record_payment-IsAtomic :
    (actor : Actor) (i : ℕ) (input : RecordPaymentInput) → IsAtomic (record_payment actor i input)
unfolding record_payment
record_payment-IsAtomic actor i input =
    IsAtomic-guard _ _ _ (IsAtomic-guard _ _ _ (IsAtomic-transaction _))

void_payment-IsAtomic :
    (actor : Actor) (i payment_id : ℕ) (reason : Text)
    → IsAtomic (void_payment actor i payment_id reason)
unfolding void_payment
void_payment-IsAtomic actor i payment_id reason = IsAtomic-guard _ _ _ (IsAtomic-transaction _)

-- If `Record` reports an error, whichever it is, the tables are as they were before.
pub record_payment_error :
    (actor : Actor) (i : ℕ) (input : RecordPaymentInput) (env : Env) (db : Db) {e : Error} {d : Db}
    → record_payment actor i input env db ≡ (err e, d)
    → d ≡ db
record_payment_error actor i input env db h =
    (record_payment-IsAtomic actor i input).at env db _ _ h

-- If `Void` reports an error, whichever it is, the tables are as they were before.
pub void_payment_error :
    (actor : Actor) (i payment_id : ℕ) (reason : Text) (env : Env) (db : Db) {e : Error} {d : Db}
    → void_payment actor i payment_id reason env db ≡ (err e, d)
    → d ≡ db
void_payment_error actor i payment_id reason env db h =
    (void_payment-IsAtomic actor i payment_id reason).at env db _ _ h

module _ (actor : Actor) (i : ℕ) (env : Env) (db : Db) where
  -- On tables that form a ledger, `Record` with an int64 tender leaves tables that form a ledger,
  -- whether it succeeds or fails: no order is credited above its total, the payment status of each
  -- order is the one that its confirmed payments imply, and cancelled orders have no credit.
  pub record_payment-IsLedger :
      (input : RecordPaymentInput)
      → IsLedger db
      → InInt64 input.tendered_amount
      → (r : Result PaymentRecordResult) (d : Db) → record_payment actor i input env db ≡ (r, d)
      → IsLedger d
  record_payment-IsLedger input ledger range (ok r) d h =
      (record_payment_answer actor i input env db ledger range h).keeps
  record_payment-IsLedger input ledger range (err e) d h =
      subst IsLedger (sym (record_payment_error actor i input env db h)) ledger

  -- On tables that form a ledger, `Void` leaves tables that form a ledger, whether it succeeds or
  -- fails.
  pub void_payment-IsLedger :
      (payment_id : ℕ) (reason : Text)
      → IsLedger db
      → (r : Result PaymentVoidResult) (d : Db)
      → void_payment actor i payment_id reason env db ≡ (r, d)
      → IsLedger d
  void_payment-IsLedger payment_id reason ledger (ok r) d h =
      (void_payment_answer actor i env db ledger payment_id reason h).keeps
  void_payment-IsLedger payment_id reason ledger (err e) d h =
      subst IsLedger (sym (void_payment_error actor i payment_id reason env db h)) ledger

  -- On a ledger, a payment that `Record` newly records for an int64 tender splits the tender into a
  -- credit of at least 1 and a change of at least 0, raises the confirmed total of the order by the
  -- credit, and the answer's paid and outstanding amounts and status are those of the order after.
  pub record_payment_new :
      (input : RecordPaymentInput)
      → IsLedger db
      → InInt64 input.tendered_amount
      → {r : PaymentRecordResult} {d : Db} → record_payment actor i input env db ≡ (ok r, d)
      → r.replayed ≡ false
      → (o : Order) × (find? (is_order actor.business_id i) db.orders ≡ some o)
        × (input.tendered_amount ≡ r.payment.amount +ℤ r.change_amount)
        × (pos 1 ≤ℤ r.payment.amount)
        × (pos 0 ≤ℤ r.change_amount)
        × (confirmed_total actor.business_id o.outlet_id i d.payments
            ≡ confirmed_total actor.business_id o.outlet_id i db.payments +ℤ r.payment.amount)
        × Describes actor.business_id i o d.payments r.payment_status r.paid_amount
            r.outstanding_amount
  record_payment_new input ledger range h new =
      let a = record_payment_answer actor i input env db ledger range h in
      let (one, back, exact, total) = a.fresh new in
      (a.target, a.found, exact, one, back, total, a.describes)

  -- On a ledger, an answer of `Record` for an int64 tender that is marked as replayed has written
  -- nothing, and its amounts and status are those of the order's ledger.
  pub record_payment_replayed :
      (input : RecordPaymentInput)
      → IsLedger db
      → InInt64 input.tendered_amount
      → {r : PaymentRecordResult} {d : Db} → record_payment actor i input env db ≡ (ok r, d)
      → r.replayed ≡ true
      → (d ≡ db)
        × ((o : Order) × (find? (is_order actor.business_id i) db.orders ≡ some o)
            × Describes actor.business_id i o d.payments r.payment_status r.paid_amount
                r.outstanding_amount)
  record_payment_replayed input ledger range h again =
      let a = record_payment_answer actor i input env db ledger range h in
      (a.repeated again, (a.target, a.found, a.describes))

  -- On a ledger whose payments have ids of their own, when `Void` succeeds it has found the named
  -- payment of the order, of an amount of at least 1. Either the actor had voided it before for that
  -- reason, trimmed, nothing is written and the answer is the payment; or it was confirmed and its
  -- row, which is the answer, is now voided, with the time, the actor and the trimmed reason and all
  -- else as before, the confirmed total of the order has fallen by its amount, and the payments of
  -- other ids are as before. The answer's paid and outstanding amounts and status are those of the
  -- order after.
  pub void_payment_lowers :
      (payment_id : ℕ) (reason : Text)
      → IsLedger db
      → Distinct (λ (p : Payment). p.id) db.payments
      → {r : PaymentVoidResult} {d : Db} → void_payment actor i payment_id reason env db ≡ (ok r, d)
      → (o : Order) × (find? (is_order actor.business_id i) db.orders ≡ some o)
        × Describes actor.business_id i o d.payments r.payment_status r.paid_amount
            r.outstanding_amount
        × ((p : Payment) × (Sql.get_order_payment_for_update actor.business_id o.outlet_id i
                payment_id db
              ≡ some p)
            × (pos 1 ≤ℤ p.amount)
            × (IsRepeated actor i payment_id (trim_space reason) env db p r d
                ⊎ IsMarked actor i payment_id (trim_space reason) env db o p r d))
  unfolding Sql.get_order_payment_for_update
  void_payment_lowers payment_id reason ledger distinct {r} {d} h =
      let a = void_payment_answer actor i env db ledger payment_id reason h in
      let v = void_payment-Voids actor i payment_id reason env db distinct h in
      let same : a.target ≡ v.target =
        some-injective _ _ (sym a.found ∙ IsLocked-found actor i db ledger v.locked) in
      (
        v.target,
        IsLocked-found actor i db ledger v.locked,
        subst
            (λ o.
              Describes actor.business_id i o d.payments r.payment_status r.paid_amount
                r.outstanding_amount)
            same a.describes,
        (
          v.payment,
          v.found,
          All-find? (λ p. pos 1 ≤ℤ p.amount) _ db.payments ledger.positive v.found,
          v.done,
        ),
      )
