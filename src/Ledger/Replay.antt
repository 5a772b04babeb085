-- ===== src/Ledger/Replay.antt =====
-- A request of `Record` that is made again.
use launlog_api.Prelude.{
  ℕ, true, false, ◌≡◌, ◌&&◌, ◌||◌, not, none, some, [], ◌∷◌, find?, refl, sym, subst, ap, ◌∙◌,
  arith, ==_refl, eq_text, eq_text_refl, find?-update, find?-append, find?-true, touched, inl, inr,
  or_else, map_option,
}
use launlog_api.Prelude.Int.{ltb_ℤ, ◌≤ℤ◌, InInt64}
use launlog_api.Prelude.Text.{Bytes}
use launlog_api.Store.{Db, Order, Payment, PaymentStatus, AuditLog, is_cancelled}
use launlog_api.Effect.{Env, ok, err, pure, payment_idempotency_conflict}
use launlog_api.Effect.Run.{
  IsHealthy, run_bind, run_query, run_raise, run_transaction_err, run_raise_if, run_or_no_rows,
  run_transaction,
}
use launlog_api.Query.Lifecycle.{is_order}
use launlog_api.Query.Lifecycle as Orders
use launlog_api.Query.Payments as Sql
use launlog_api.Actor.{Actor}
use launlog_api.Orders.Lifecycle.Locking.{IsLocked}
use launlog_api.Orders.Lifecycle.Locked.{lock_lifecycle_order_ok}
use launlog_api.Payments.Views.{RecordPaymentInput, PaymentRecordResult, payment_from}
use launlog_api.Payments.Steps.{
  lock_payable_order, ensure_no_payment_refunds, read_ledger, same_hash,
}
use launlog_api.Payments.Record.{
  record_payment, record_body, replay_payment, replay_or_record, is_invalid_request, is_some,
}
use launlog_api.Ledger.{IsLedger}
use launlog_api.Ledger.Settle.{is_order_at, with_payment_status, own_total}
use launlog_api.Ledger.RecordPayment.{IsLocked-found, record_payment_answer}
use launlog_api.Ledger.Retry.{has_long_text, recorded, Wrote, WroteOrReplayed, record_payment_wrote}

-- What a request needs to reach the payment `p` that its key names: an order in order, no refunds,
-- and a ledger within the order's total.
pub record Known (actor : Actor) (i : ℕ) (input : RecordPaymentInput) (db : Db) (o : Order)
    (p : Payment) : Type 0 where
  pub valid : is_invalid_request actor i input ≡ false
  pub short : has_long_text input ≡ false
  pub locked : IsLocked actor i db o
  pub open_order : is_cancelled o.status || is_some o.deleted_at ≡ false
  pub no_refunds : Sql.count_order_payment_refunds actor.business_id o.outlet_id i db ≡ 0
  pub known :
      Sql.get_payment_by_idempotency_key actor.business_id o.outlet_id i input.idempotency_key db
      ≡ some p
  pub covered :
      ltb_ℤ o.total_amount (Sql.get_confirmed_payment_total actor.business_id o.outlet_id i db)
      ≡ false

module _ (actor : Actor) (i : ℕ) (input : RecordPaymentInput) (env : Env) (db : Db) {o : Order}
    {p : Payment} (healthy : IsHealthy env) (k : Known actor i input db o p) where
  no_refunds_ok : ensure_no_payment_refunds actor.business_id o.outlet_id i env db ≡ (ok tt, db)
  unfolding ensure_no_payment_refunds pure
  no_refunds_ok = run_query _ _ _ healthy ∙ run_raise_if _ _ _ (ground (arith, k.no_refunds))

  read_ledger_ok :
      read_ledger actor.business_id i o env db
      ≡ (ok (Sql.get_confirmed_payment_total actor.business_id o.outlet_id i db), db)
  unfolding read_ledger pure
  read_ledger_ok = run_query _ _ _ healthy ∙ run_raise_if _ _ _ k.covered

  -- The request goes on to the payment.
  record_body_known : record_body actor i input env db ≡ replay_payment actor i input o p env db
  unfolding record_body lock_payable_order
  record_body_known =
      run_bind _ _ (run_or_no_rows _ _ (lock_lifecycle_order_ok actor i env db healthy k.locked))
      ∙ (run_raise_if _ _ _ k.open_order
          ∙ (run_bind _ _ no_refunds_ok
              ∙ (run_query _ _ _ healthy
                  ∙ ap (λ e. replay_or_record actor i input o e env db) k.known)))

  record_payment_known :
      {r : PaymentRecordResult}
      → replay_payment actor i input o p env db ≡ (ok r, db)
      → record_payment actor i input env db ≡ (ok r, db)
  unfolding record_payment
  record_payment_known h =
      run_raise_if _ _ _ k.valid
      ∙ (run_raise_if _ _ _ k.short ∙ run_transaction _ healthy (record_body_known ∙ h))

  -- With the same hash, the answer is the recorded payment, and nothing is written.
  pub record_payment_same :
      same_hash p.request_hash input.request_hash ≡ true
      → (r : PaymentRecordResult) × (record_payment actor i input env db ≡ (ok r, db))
        × (r.replayed ≡ true)
        × (r.payment ≡ payment_from p)
  unfolding replay_payment pure
  record_payment_same same = (
    _,
    record_payment_known (run_raise_if _ _ _ (ap not same) ∙ run_bind _ _ read_ledger_ok),
    refl,
    refl,
  )

  -- With another hash, the answer is a conflict, and nothing is written.
  pub record_payment_other :
      same_hash p.request_hash input.request_hash ≡ false
      → record_payment actor i input env db ≡ (err payment_idempotency_conflict, db)
  unfolding record_payment replay_payment
  record_payment_other other =
      run_raise_if _ _ _ k.valid
      ∙ (run_raise_if _ _ _ k.short
          ∙ run_transaction_err _ healthy (record_body_known ∙ run_raise _ _ _ _ (ap not other)))

-- The tables that a new payment leaves let the locked read find the order again.
recorded-IsLocked :
    (actor : Actor) (i : ℕ) (db : Db) {o : Order} (row : Payment) (status : PaymentStatus) (now : ℕ)
    (log : AuditLog)
    → IsLedger db
    → IsLocked actor i db o
    → IsLocked actor i
        (recorded actor.business_id o.outlet_id i row status now log db)
        (with_payment_status status now o)
unfolding Orders.get_order_for_update
recorded-IsLocked actor i db {o} row status now log ledger locked =
    find?-update _ (is_order_at actor.business_id o.outlet_id i) (with_payment_status status now)
      (λ x. refl) db.orders
    ∙ (ap
          (map_option (
            touched (is_order_at actor.business_id o.outlet_id i) (with_payment_status status now)))
          locked
        ∙ rw
            (
              find?-true (is_order actor.business_id i) db.orders
                  (IsLocked-found actor i db ledger locked),
              ==_refl o.outlet_id,
            )
            refl)

-- The row that a new payment appends is the one that its key names.
recorded-key :
    (b t i : ℕ) (key : Bytes) (db : Db) (row : Payment)
    → (row.business_id ≡ b) × (row.outlet_id ≡ t) × (row.order_id ≡ i)
    → row.idempotency_key ≡ some key
    → Sql.get_payment_by_idempotency_key b t i key db ≡ none
    → (status : PaymentStatus) (now : ℕ) (log : AuditLog)
    → Sql.get_payment_by_idempotency_key b t i key (recorded b t i row status now log db) ≡ some row
unfolding Sql.get_payment_by_idempotency_key
recorded-key b t i key db row (eb, et, ei) has new status now log =
    find?-append _ db.payments (row ∷ [])
    ∙ (ap
          (λ r.
            or_else r
              (find? (λ p. Sql.pays b t i p && Sql.has_key key p.idempotency_key) (row ∷ [])))
          new
        ∙ rw (eb, et, ei, has, ==_refl b, ==_refl t, ==_refl i, eq_text_refl key) refl)

-- A locked order of a ledger costs at least what is credited to it.
IsLocked-covered :
    (actor : Actor) (i : ℕ) (db : Db) {o : Order}
    → IsLedger db
    → IsLocked actor i db o
    → ltb_ℤ o.total_amount (Sql.get_confirmed_payment_total actor.business_id o.outlet_id i db)
      ≡ false
IsLocked-covered actor i db {o} ledger locked =
    let found = IsLocked-found actor i db ledger locked in
    let covered =
      subst (λ c. c ≤ℤ o.total_amount) (own_total db.orders db.payments actor.business_id i o found)
        (ledger.balanced actor.business_id i o found).covered in
    ground arith

module _ (actor : Actor) (i : ℕ) (input : RecordPaymentInput) (env : Env) (db : Db)
    (ledger : IsLedger db) (range : InInt64 input.tendered_amount) {r : PaymentRecordResult}
    {d : Db} (done : record_payment actor i input env db ≡ (ok r, d))
    (new : r.replayed ≡ false) where
  wrote :
      (is_invalid_request actor i input ≡ false)
      × (has_long_text input ≡ false)
      × Wrote actor i input env db r d
  wrote =
      let (valid, short, w) = record_payment_wrote actor i input env db done in
      (valid, short, fresh w)
    where
      fresh : WroteOrReplayed actor i input env db r d → Wrote actor i input env db r d
      fresh (inl replayed) = cc (replayed, new)
      fresh (inr w) = w

  -- A valid request with the key of the new payment reaches that payment.
  Known-recorded :
      (again : RecordPaymentInput)
      → is_invalid_request actor i again ≡ false
      → has_long_text again ≡ false
      → again.idempotency_key ≡ input.idempotency_key
      → (w : Wrote actor i input env db r d)
      → Known actor i again d (with_payment_status w.status env.now w.o) w.row
  unfolding Sql.count_order_payment_refunds
  Known-recorded again valid short same_key w =
      let locked = recorded-IsLocked actor i db w.row w.status env.now w.log ledger w.locked in
      let after =
        subst IsLedger w.leaves
          (record_payment_answer actor i input env db ledger range done).keeps in
      subst (λ d. Known actor i again d (with_payment_status w.status env.now w.o) w.row)
        (sym w.leaves)
        (record {
          valid = valid;
          short = short;
          locked = locked;
          open_order = w.open_order;
          no_refunds = w.no_refunds;
          known =
              ap
                (λ key.
                  Sql.get_payment_by_idempotency_key actor.business_id w.o.outlet_id i key
                    (recorded actor.business_id w.o.outlet_id i w.row w.status env.now w.log db))
                same_key
              ∙ recorded-key actor.business_id w.o.outlet_id i input.idempotency_key db w.row
                  w.is_for w.has_its_key w.new_key w.status env.now w.log;
          covered = IsLocked-covered actor i _ after locked;
        })

  -- If `Record` has newly recorded a payment on a ledger, then the same request made again by the
  -- same actor, when no call of the database fails, succeeds as a replay of that very payment and
  -- writes nothing.
  pub record_payment_retry :
      (env' : Env)
      → IsHealthy env'
      → (again : PaymentRecordResult) × (record_payment actor i input env' d ≡ (ok again, d))
        × (again.replayed ≡ true)
        × (again.payment ≡ r.payment)
  record_payment_retry env' healthy =
      let (valid, short, w) = wrote in
      let k = Known-recorded input valid short refl w in
      let (again, run, is_replay, same) =
        record_payment_same actor i input env' d healthy k
          (rw (w.has_its_hash, eq_text_refl input.request_hash) refl) in
      (again, run, is_replay, same ∙ sym w.is_view)

  -- If `Record` has newly recorded a payment on a ledger, then a valid request of the same actor
  -- for the same order with the same key and another hash, when no call of the database fails, is
  -- refused as a conflict and writes nothing.
  pub record_payment_conflict :
      (other : RecordPaymentInput) (env' : Env)
      → IsHealthy env'
      → is_invalid_request actor i other ≡ false
      → has_long_text other ≡ false
      → other.idempotency_key ≡ input.idempotency_key
      → eq_text input.request_hash other.request_hash ≡ false
      → record_payment actor i other env' d ≡ (err payment_idempotency_conflict, d)
  record_payment_conflict other env' healthy valid short same_key changed =
      let (_, _, w) = wrote in
      record_payment_other actor i other env' d healthy
        (Known-recorded other valid short same_key w) (rw (w.has_its_hash, changed) refl)
