-- ===== src/Ledger/Recording.antt =====
-- What recording a payment does to the ledger.
use mathlib.Core.Path.{subst₂}
use launlog_api.Prelude.{
  ◌+◌, ℕ, Bool, true, false, ◌≡◌, some, [], ◌∷◌, ◌++◌, find?, update, All-append, arith, refl, sym,
  ◌∙◌, ap, subst,
}
use launlog_api.Prelude.Int.{
  ℤ, pos, ◌≤ℤ◌, ◌+ℤ◌, ◌-ℤ◌, ltb_ℤ, add64, sub64, InInt64, int_laws, add_zero, add_sub_cancel,
}
use launlog_api.Store.{Db, Order, Payment, PaymentStatus, is_cancelled, is_confirmed}
use launlog_api.Effect.{Env, ok}
use launlog_api.Effect.Hoare.{
  Ensures, Ensures-pure, after_raise_if, after_lift, after_insert_one, after_update_one, after_exec,
  after_read,
}
use launlog_api.Query.Lifecycle.{is_order, store_orders, update_returning}
use launlog_api.Query.Payments.{confirmed_total, new_payment}
use launlog_api.Query.Payments as Sql
use launlog_api.Query.Writes.{store_orders-writes}
use launlog_api.Actor.{Actor}
use launlog_api.Payments.Amounts.{payment_status_for, payment_amounts}
use launlog_api.Payments.Amounts.Bounds.{payment_amounts_sound}
use launlog_api.Payments.Views.{RecordPaymentInput, PaymentRecordResult, payment_from}
use launlog_api.Payments.Steps.{insert_payment_audit}
use launlog_api.Payments.Steps.Reading.{read_ledger-Reads}
use launlog_api.Payments.Record.{record_new_payment}
use launlog_api.Ledger.{IsLedgerOf, IsLedger}
use launlog_api.Ledger.Totals.{confirmed_total-append, confirmed_total_nonneg}
use launlog_api.Ledger.Credit.{Describes, IsCredit, IsCredit-lem, share_self, share_other}
use launlog_api.Ledger.Settle.{is_order_at, with_payment_status, IsLedgerOf-settle}

module _ (actor : Actor) (i : ℕ) (input : RecordPaymentInput) (o : Order) (env : Env) (db : Db)
    (ledger : IsLedger db) (range : InInt64 input.tendered_amount)
    (found : find? (is_order actor.business_id i) db.orders ≡ some o)
    (alive : is_cancelled o.status ≡ false) where
  abbrev pub before : ℤ
  before = confirmed_total actor.business_id o.outlet_id i db.payments

  -- What a new payment promises: the ledger holds, the answer describes it, the tender is the
  -- credit and the change, and the confirmed total grows by the credit.
  abbrev pub Answered : PaymentStatus → ℤ → ℤ → ℤ → ℤ → Db → Type 0
  Answered s paid_amount outstanding a change d =
      IsLedger d
      × Describes actor.business_id i o d.payments s paid_amount outstanding
      × (pos 1 ≤ℤ a)
      × (pos 0 ≤ℤ change)
      × (input.tendered_amount ≡ a +ℤ change)
      × (confirmed_total actor.business_id o.outlet_id i d.payments ≡ before +ℤ a)

  abbrev pub Recorded : PaymentRecordResult → Db → Type 0
  Recorded r d =
      (r.replayed ≡ false)
      × Answered r.payment_status r.paid_amount r.outstanding_amount r.payment.amount
          r.change_amount d

  module _ (p : Payment) (at_business : p.business_id ≡ actor.business_id)
      (at_outlet : p.outlet_id ≡ o.outlet_id) (at_order : p.order_id ≡ i)
      (conf : is_confirmed p.status ≡ true) (credit : IsCredit o.total_amount before p.amount) where
    after_payment :
        confirmed_total actor.business_id o.outlet_id i (db.payments ++ p ∷ []) ≡ before +ℤ p.amount
    after_payment =
        confirmed_total-append actor.business_id o.outlet_id i db.payments p
        ∙ ap (λ z. before +ℤ z)
            (share_self actor.business_id o.outlet_id i p at_business at_outlet at_order conf)

    ledger_after_payment :
        (now : ℕ) (status : PaymentStatus)
        → status ≡ payment_status_for o.total_amount (before +ℤ p.amount)
        → IsLedgerOf
            (update
              (is_order_at actor.business_id o.outlet_id i)
              (with_payment_status status now)
              db.orders)
            (db.payments ++ p ∷ [])
    ledger_after_payment now status agrees =
        IsLedgerOf-settle (db.payments ++ p ∷ []) actor.business_id i now o status ledger found
          (All-append _ db.payments (p ∷ []) ledger.positive (credit.positive, tt))
          (λ b' t' i' miss.
            confirmed_total-append b' t' i' db.payments p
            ∙ (ap (λ z. confirmed_total b' t' i' db.payments +ℤ z)
                  (share_other actor.business_id o.outlet_id i b' t' i' p at_business at_outlet
                    at_order miss)
                ∙ add_zero _))
          (agrees ∙ ap (payment_status_for o.total_amount) (sym after_payment))
          (subst (λ z. z ≤ℤ o.total_amount) (sym after_payment) credit.within)
          (λ h. absurd (clash h alive))
      where
        clash : {b : Bool} → b ≡ true → b ≡ false → ⊥
        clash e f = cc

  -- The equations that hold when the new payment is accepted.
  pub IsCredit-accepted :
      (c a change : ℤ)
      → c ≡ before
      → ltb_ℤ o.total_amount c ≡ false
      → payment_amounts input.method input.tendered_amount (sub64 o.total_amount c) ≡ ok (a, change)
      → IsCredit o.total_amount before a
  IsCredit-accepted c a change is_c fits accepted =
      let sound =
        payment_amounts_sound input.method input.tendered_amount (sub64 o.total_amount c) a change
          range accepted in
      IsCredit-lem o.total_amount before a (ledger.balanced actor.business_id i o found).in_range
        (confirmed_total_nonneg actor.business_id o.outlet_id i db.payments ledger.positive)
        (subst (λ z. z ≤ℤ o.total_amount) is_c (ground arith)) sound.0
        (subst (λ z. a ≤ℤ sub64 o.total_amount z) is_c sound.1)

  Describes-after :
      (p : Payment) (paid_amount : ℤ)
      → IsCredit o.total_amount before p.amount
      → confirmed_total actor.business_id o.outlet_id i (db.payments ++ p ∷ []) ≡ before +ℤ p.amount
      → paid_amount ≡ before +ℤ p.amount
      → Describes actor.business_id i o
          (db.payments ++ p ∷ [])
          (payment_status_for o.total_amount paid_amount)
          paid_amount
          (sub64 o.total_amount paid_amount)
  Describes-after p paid_amount credit after same =
      let low : pos 0 ≤ℤ before =
        confirmed_total_nonneg actor.business_id o.outlet_id i db.payments ledger.positive in
      let rest : sub64 o.total_amount paid_amount ≡ o.total_amount -ℤ paid_amount =
        subst (λ z. sub64 o.total_amount z ≡ o.total_amount -ℤ z) (sym same) credit.rest_exact in
      let one = credit.positive in
      let within : paid_amount ≤ℤ o.total_amount =
        subst (λ z. z ≤ℤ o.total_amount) (sym same) credit.within in
      let above : pos 0 ≤ℤ paid_amount = subst (λ z. pos 0 ≤ℤ z) (sym same) (omega int_laws) in
      record {
        is_total = same ∙ sym after;
        splits = ap (λ z. paid_amount +ℤ z) rest ∙ add_sub_cancel paid_amount o.total_amount;
        not_negative = (above, subst (λ z. pos 0 ≤ℤ z) (sym rest) (omega int_laws));
        is_status = refl;
      }

  -- The row that is inserted for the accepted amount.
  abbrev new_row : ℤ → Payment
  new_row a =
      new_payment actor.business_id o.outlet_id i a input.method input.external_reference
        input.notes actor.user_id input.idempotency_key input.request_hash env db

  abbrev inserted : ℤ → Db
  inserted a = record db {
    payments = db.payments ++ new_row a ∷ [];
    next_payment_id = db.next_payment_id + 1;
  }

  written-Answered :
      (c a change : ℤ) (s : PaymentStatus) (d : Db)
      → c ≡ before
      → ltb_ℤ o.total_amount c ≡ false
      → payment_amounts input.method input.tendered_amount (sub64 o.total_amount c) ≡ ok (a, change)
      → store_orders
          (inserted a)
          (λ o. o.payment_status)
          (update_returning
            (is_order_at actor.business_id o.outlet_id i)
            (with_payment_status (payment_status_for o.total_amount (add64 c a)) env.now)
            db.orders)
        ≡ some (s, d)
      → Answered s (add64 c a) (sub64 o.total_amount (add64 c a)) a change d
  written-Answered c a change s d is_c fits accepted written =
      let credit = IsCredit-accepted c a change is_c fits accepted in
      let after = after_payment (new_row a) refl refl refl refl credit in
      let same : add64 c a ≡ before +ℤ a = ap (λ z. add64 z a) is_c ∙ credit.sum_exact in
      let status = payment_status_for o.total_amount (add64 c a) in
      let (_, _, is_s, is_d) =
        store_orders-writes (inserted a) (λ o. o.payment_status)
          (is_order_at actor.business_id o.outlet_id i) (with_payment_status status env.now)
          db.orders written in
      let (one, _, back, exact, _) =
        payment_amounts_sound input.method input.tendered_amount (sub64 o.total_amount c) a change
          range accepted in
      subst₂ (λ s d. Answered s (add64 c a) (sub64 o.total_amount (add64 c a)) a change d)
        (sym is_s) (sym is_d)
        (
          ledger_after_payment (new_row a) refl refl refl refl credit env.now status
              (ap (payment_status_for o.total_amount) same),
          Describes-after (new_row a) (add64 c a) credit after same,
          one,
          back,
          exact,
          after,
        )

  pub record_new_payment-Recorded : Ensures env (record_new_payment actor i input o) db Recorded
  unfolding record_new_payment insert_payment_audit Sql.create_confirmed_payment
      Sql.update_order_payment_status Sql.insert_payment_audit_log payment_from
  record_new_payment-Recorded =
      after_read _ _ (read_ledger-Reads actor.business_id i o env db) λ c (is_c, fits).
        after_raise_if _ _ _ λ owed. after_lift _ _ λ amounts accepted. after_insert_one _ _ _ (
          after_update_one _ _ _ λ s d written. after_exec _ _ _ (
            Ensures-pure _
              (refl, written-Answered c amounts.0 amounts.1 s d is_c fits accepted written)))
