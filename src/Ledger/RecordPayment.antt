-- ===== src/Ledger/RecordPayment.antt =====
-- `PaymentCatalog.Record` keeps the ledger, on every outcome.
use launlog_api.Prelude.{
  ℕ, true, false, ◌≡◌, Option, none, some, find?, List, refl, sym, subst, ap, ◌∙◌, arith,
}
use launlog_api.Prelude.Int.{
  ℤ, pos, ◌≤ℤ◌, ◌+ℤ◌, InInt64, sub64, sub64_below, add_sub_cancel, int_laws, ltb_ℤ,
}
use launlog_api.Store.{Db, Order, Payment, is_cancelled}
use launlog_api.Effect.{Env, ok}
use launlog_api.Effect.Hoare.{
  Ensures, Ensures-pure, Ensures-transaction, Ensures-ok, after_raise_if, after_query, after_read,
  Ensures-weaken,
}
use launlog_api.Query.Lifecycle as Orders
use launlog_api.Query.Lifecycle.{is_order}
use launlog_api.Query.Payments.{confirmed_total}
use launlog_api.Actor.{Actor}
use launlog_api.Orders.Lifecycle.Locking.{IsLocked}
use launlog_api.Payments.Views.{RecordPaymentInput, PaymentRecordResult}
use launlog_api.Payments.Steps.Reading.{
  lock_payable_order-Reads, ensure_no_payment_refunds-Reads, read_ledger-Reads,
}
use launlog_api.Payments.Record.{record_payment, record_body, replay_payment, replay_or_record}
use launlog_api.Payments.Amounts.{payment_status_for}
use launlog_api.Ledger.{IsLedger}
use launlog_api.Ledger.Totals.{find?-weaken, confirmed_total_nonneg}
use launlog_api.Ledger.Credit.{Describes}
use launlog_api.Ledger.Recording.{record_new_payment-Recorded}

-- In a ledger, the order that a locked read returns is the one that its key finds.
pub IsLocked-found :
    (actor : Actor) (i : ℕ) (db : Db) {o : Order}
    → IsLedger db
    → IsLocked actor i db o
    → find? (is_order actor.business_id i) db.orders ≡ some o
unfolding Orders.get_order_for_update
IsLocked-found actor i db ledger locked =
    find?-weaken actor.business_id i _ db.orders ledger.unique locked

-- A total between zero and the order's total describes the order.
pub Describes-total :
    (b i : ℕ) (o : Order) (payments : List Payment) (c : ℤ)
    → InInt64 o.total_amount
    → c ≡ confirmed_total b o.outlet_id i payments
    → pos 0 ≤ℤ c
    → c ≤ℤ o.total_amount
    → Describes b i o payments (payment_status_for o.total_amount c) c (sub64 o.total_amount c)
Describes-total b i o payments c range is_c low high =
    let rest = sub64_below o.total_amount c range low high in
    record {
      is_total = is_c;
      splits = ap (λ z. c +ℤ z) rest ∙ add_sub_cancel c o.total_amount;
      not_negative = (low, subst (λ z. pos 0 ≤ℤ z) (sym rest) (omega int_laws));
      is_status = refl;
    }

-- A total that was read from a ledger describes the order.
pub Describes-read :
    (b i : ℕ) (o : Order) (db : Db) (c : ℤ)
    → IsLedger db
    → InInt64 o.total_amount
    → c ≡ confirmed_total b o.outlet_id i db.payments
    → ltb_ℤ o.total_amount c ≡ false
    → Describes b i o db.payments (payment_status_for o.total_amount c) c (sub64 o.total_amount c)
Describes-read b i o db c ledger range is_c fits =
    Describes-total b i o db.payments c range is_c
      (subst (λ z. pos 0 ≤ℤ z) (sym is_c)
        (confirmed_total_nonneg b o.outlet_id i db.payments ledger.positive))
      (ground arith)

module _ (actor : Actor) (i : ℕ) (input : RecordPaymentInput) (env : Env) (db : Db)
    (ledger : IsLedger db) (range : InInt64 input.tendered_amount) where
  -- What a successful answer promises about the order that the key names: the result describes the
  -- ledger. A new payment splits the tender into credit and change and raises the confirmed total
  -- by the credit; a replay writes nothing.
  pub record Answers (r : PaymentRecordResult) (d : Db) : Type 0 where
    pub target : Order
    pub found : find? (is_order actor.business_id i) db.orders ≡ some target
    pub alive : is_cancelled target.status ≡ false
    pub keeps : IsLedger d
    pub describes :
        Describes actor.business_id i target d.payments r.payment_status r.paid_amount
          r.outstanding_amount
    pub fresh :
        r.replayed ≡ false
        → (pos 1 ≤ℤ r.payment.amount)
          × (pos 0 ≤ℤ r.change_amount)
          × (input.tendered_amount ≡ r.payment.amount +ℤ r.change_amount)
          × (confirmed_total actor.business_id target.outlet_id i d.payments
              ≡ confirmed_total actor.business_id target.outlet_id i db.payments
                +ℤ r.payment.amount)
    pub repeated : r.replayed ≡ true → d ≡ db

  replay-Answers :
      (o : Order) (existing : Payment)
      → find? (is_order actor.business_id i) db.orders ≡ some o
      → is_cancelled o.status ≡ false
      → Ensures env (replay_payment actor i input o existing) db Answers
  unfolding replay_payment
  replay-Answers o existing found alive = after_raise_if _ _ _ λ _.
      after_read _ _ (read_ledger-Reads actor.business_id i o env db) λ c (is_c, fits).
        Ensures-pure _ (record {
          target = o;
          found = found;
          alive = alive;
          keeps = ledger;
          describes =
              Describes-read actor.business_id i o db c ledger
                (ledger.balanced actor.business_id i o found).in_range is_c fits;
          fresh = λ e. cc;
          repeated = λ _. refl;
        })

  replay_or_record-Answers :
      (o : Order) (existing : Option Payment)
      → find? (is_order actor.business_id i) db.orders ≡ some o
      → is_cancelled o.status ≡ false
      → Ensures env (replay_or_record actor i input o existing) db Answers
  replay_or_record-Answers o none found alive =
      Ensures-weaken _ (record_new_payment-Recorded actor i input o env db ledger range found alive)
        λ r d (new, (keeps, describes, one, back, exact, total)). record {
          target = o;
          found = found;
          alive = alive;
          keeps = keeps;
          describes = describes;
          fresh = λ _. (one, back, exact, total);
          repeated = λ e. cc;
        }
  replay_or_record-Answers o (some existing) found alive = replay-Answers o existing found alive

  record_body-Answers : Ensures env (record_body actor i input) db Answers
  unfolding record_body
  record_body-Answers = after_read _ _ (lock_payable_order-Reads actor i env db) λ o locked.
      after_raise_if _ _ _ λ open_order.
        after_read _ _ (ensure_no_payment_refunds-Reads actor.business_id o.outlet_id i env db)
          λ _ _.
            after_query _ _ _ (
              replay_or_record-Answers o _ (IsLocked-found actor i db ledger locked) (ground arith))

  record_payment-Answers : Ensures env (record_payment actor i input) db Answers
  unfolding record_payment
  record_payment-Answers =
      after_raise_if _ _ _ λ _. after_raise_if _ _ _ λ _. Ensures-transaction _ record_body-Answers

  -- The answer of `Record` describes the order's ledger; a new payment splits the tender and is
  -- added to the confirmed total.
  pub record_payment_answer :
      {r : PaymentRecordResult} {d : Db}
      → record_payment actor i input env db ≡ (ok r, d)
      → Answers r d
  record_payment_answer h = Ensures-ok record_payment-Answers h
