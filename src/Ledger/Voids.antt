-- ===== src/Ledger/Voids.antt =====
-- What a success of `PaymentCatalog.Void` does to the payment that it names.
use mathlib.Core.Option.{some-injective}
use launlog_api.Prelude.{
  ℕ, Bool, true, not, ◌≡◌, ◌⊎◌, inl, inr, Option, none, some, List, find?, find?-true, find?-update,
  map_option, touched, select, Distinct, ◌&&◌, arith, refl, sym, ap, ◌∙◌, ◌==◌, eq_text-eq,
}
use launlog_api.Prelude.Int.{◌+ℤ◌}
use launlog_api.Prelude.Text.{Text, trim_space}
use launlog_api.Store.{
  Db, Order, Payment, EntryStatus, pending, confirmed, voided, is_confirmed, is_voided,
}
use launlog_api.Effect.{Env, ok}
use launlog_api.Effect.Hoare.{
  Ensures, Ensures-pure, Ensures-if, Ensures-weaken, Ensures-ok, Ensures-transaction, after_read,
  after_raise_if, after_update_one, after_exec,
}
use launlog_api.Query.Payments as Sql
use launlog_api.Query.Payments.{confirmed_total, marked_voided, pays}
use launlog_api.Query.Writes.{store_orders-writes, store_payments-writes}
use launlog_api.Actor.{Actor}
use launlog_api.Orders.Lifecycle.Locking.{IsLocked}
use launlog_api.Payments.Steps.{insert_payment_audit}
use launlog_api.Payments.Steps.Reading.{
  found_payment-Reads, lock_payable_order-Reads, ensure_no_payment_refunds-Reads, read_ledger-Reads,
}
use launlog_api.Payments.Void.{
  is_id, is_text, is_void_retry, void_payment, void_body, void_confirmed, replay_void, finish_void,
}
use launlog_api.Payments.Views.{PaymentVoidResult, payment_from}
use launlog_api.Ledger.Voiding.{to_void, voided_rows, others_kept, found_to_void, voided_total}

is_id-eq : (v : Option ℕ) (x : ℕ) → is_id v x ≡ true → v ≡ some x
is_id-eq none x h = cc
is_id-eq (some y) x h = ap some (ground arith)

is_text-eq : (v : Option Text) (x : Text) → is_text v x ≡ true → v ≡ some x
is_text-eq none x h = cc
is_text-eq (some y) x h = ap some (eq_text-eq y x h)

is_voided-eq : (s : EntryStatus) → is_voided s ≡ true → s ≡ voided
is_voided-eq voided h = refl
is_voided-eq pending h = cc
is_voided-eq confirmed h = cc

module _ (actor : Actor) (i payment_id : ℕ) (reason : Text) (env : Env) (db : Db) where
  -- The actor voided the payment before for that reason: nothing is written, and the answer is the
  -- payment as it is.
  pub record IsRepeated (p : Payment) (r : PaymentVoidResult) (d : Db) : Type 0 where
    pub was_voided : p.status ≡ voided
    pub same_actor : p.voided_by ≡ some actor.user_id
    pub same_reason : p.void_reason ≡ some reason
    pub unchanged : d ≡ db
    pub answers : r.payment ≡ payment_from p

  -- The confirmed payment is marked as voided, now, by the actor and for that reason, and is else as
  -- it was; the answer is that row. The confirmed total of the order falls by its amount, and the
  -- payments of other ids are as before.
  pub record IsMarked (o : Order) (p : Payment) (r : PaymentVoidResult) (d : Db) : Type 0 where
    pub was_confirmed : is_confirmed p.status ≡ true
    pub row : Payment
    pub is_row : row ≡ record p {
      status = voided;
      voided_at = some env.now;
      voided_by = some actor.user_id;
      void_reason = some reason;
    }
    pub stored :
        Sql.get_order_payment_for_update actor.business_id o.outlet_id i payment_id d ≡ some row
    pub answers : r.payment ≡ payment_from row
    pub lowers :
        confirmed_total actor.business_id o.outlet_id i db.payments
        ≡ confirmed_total actor.business_id o.outlet_id i d.payments +ℤ p.amount
    pub others :
        select (λ x. not (x.id == payment_id)) d.payments
        ≡ select (λ x. not (x.id == payment_id)) db.payments

  -- What is found, and what is done to it.
  pub record Voids (r : PaymentVoidResult) (d : Db) : Type 0 where
    pub target : Order
    pub locked : IsLocked actor i db target
    pub payment : Payment
    pub found :
        Sql.get_order_payment_for_update actor.business_id target.outlet_id i payment_id db
        ≡ some payment
    pub done : IsRepeated payment r d ⊎ IsMarked target payment r d

  module _ (distinct : Distinct (λ (p : Payment). p.id) db.payments) (o : Order) (p : Payment)
      (found : Sql.get_order_payment_for_update actor.business_id o.outlet_id i payment_id db
        ≡ some p) where
    replay_void-IsRepeated :
        is_void_retry actor reason p ≡ true
        → Ensures env (replay_void actor i o p) db (IsRepeated p)
    unfolding replay_void is_void_retry
    replay_void-IsRepeated again =
        after_read _ _ (read_ledger-Reads actor.business_id i o env db) λ c _.
          Ensures-pure _ (record {
            was_voided = is_voided-eq p.status (ground arith);
            same_actor = is_id-eq p.voided_by actor.user_id (ground arith);
            same_reason = is_text-eq p.void_reason reason (ground arith);
            unchanged = refl;
            answers = refl;
          })

    abbrev rows : List Payment
    rows =
        voided_rows actor.business_id o.outlet_id i payment_id actor.user_id reason env.now
          db.payments

    voided_rows-IsMarked :
        (r : PaymentVoidResult) (d : Db)
        → is_confirmed p.status ≡ true
        → d.payments ≡ rows
        → r.payment ≡ payment_from (marked_voided actor.user_id reason env.now p)
        → IsMarked o p r d
    unfolding Sql.get_order_payment_for_update
    voided_rows-IsMarked r d conf written answers = record {
      was_confirmed = conf;
      row = marked_voided actor.user_id reason env.now p;
      is_row = refl;
      stored =
          ap (find? key) written
          ∙ (find?-update key changes mark (λ x. refl) db.payments
              ∙ (ap (map_option (touched changes mark)) found ∙ rw hit refl));
      answers = answers;
      lowers =
          voided_total actor.business_id o.outlet_id i payment_id actor.user_id reason env.now
            db.payments distinct found conf
          ∙ ap (λ ps. confirmed_total actor.business_id o.outlet_id i ps +ℤ p.amount) (sym written);
      others =
          ap (select (λ x. not (x.id == payment_id))) written
          ∙ others_kept actor.business_id o.outlet_id i payment_id actor.user_id reason env.now
              db.payments;
    }
      where
        key : Payment → Bool
        key x = pays actor.business_id o.outlet_id i x && x.id == payment_id

        changes : Payment → Bool
        changes = to_void actor.business_id o.outlet_id i payment_id

        mark : Payment → Payment
        mark = marked_voided actor.user_id reason env.now

        hit : changes p ≡ true
        hit = let seen = find?-true key db.payments {x = p} found in ground arith

    void_confirmed-IsMarked :
        Ensures env (void_confirmed actor i payment_id reason o p) db (IsMarked o p)
    unfolding void_confirmed finish_void insert_payment_audit Sql.void_confirmed_payment
        Sql.update_order_payment_status Sql.insert_payment_audit_log
        Sql.get_order_payment_for_update
    void_confirmed-IsMarked = after_raise_if _ _ _ λ open_.
        let conf : is_confirmed p.status ≡ true = ground arith in
        after_update_one _ _ _ λ row d written.
          let (q, is_q, is_row, is_d) = store_payments-writes db _ _ db.payments written in
          let same : p ≡ q = some-injective _ _ (
            sym (
              found_to_void actor.business_id o.outlet_id i payment_id actor.user_id reason env.now
                db.payments found conf)
            ∙ is_q) in
          after_read _ _ (read_ledger-Reads actor.business_id i o env d) λ c _.
            after_update_one _ _ _ λ s d' settled.
              let (_, _, _, is_d') =
                store_orders-writes d (λ o. o.payment_status) _ _ d.orders settled in
              after_exec _ _ _ (
                Ensures-pure _ (
                  voided_rows-IsMarked _ _ conf
                    (ap (λ (x : Db). x.payments) is_d' ∙ ap (λ (x : Db). x.payments) is_d)
                    (ap payment_from
                      (is_row ∙ ap (marked_voided actor.user_id reason env.now) (sym same)))))

  void_body-Voids :
      Distinct (λ (p : Payment). p.id) db.payments
      → Ensures env (void_body actor i payment_id reason) db Voids
  unfolding void_body
  void_body-Voids distinct = after_read _ _ (lock_payable_order-Reads actor i env db) λ o locked.
      after_read _ _ (ensure_no_payment_refunds-Reads actor.business_id o.outlet_id i env db) λ _ _.
        after_read _ _ (found_payment-Reads actor.business_id o.outlet_id i payment_id env db)
          λ p found.
            Ensures-if _ _ _
              (λ again. Ensures-weaken _ (replay_void-IsRepeated distinct o p found again) λ _ _ e.
                record { target = o; locked = locked; payment = p; found = found; done = inl e })
              (λ _. Ensures-weaken _ (void_confirmed-IsMarked distinct o p found) λ _ _ e. record {
                target = o;
                locked = locked;
                payment = p;
                found = found;
                done = inr e;
              })

-- A success of `Void` has found the payment, and repeats an answer or marks the payment.
pub void_payment-Voids :
    (actor : Actor) (i payment_id : ℕ) (reason : Text) (env : Env) (db : Db)
    → Distinct (λ (p : Payment). p.id) db.payments
    → {r : PaymentVoidResult} {d : Db} → void_payment actor i payment_id reason env db ≡ (ok r, d)
    → Voids actor i payment_id (trim_space reason) env db r d
unfolding void_payment
void_payment-Voids actor i payment_id reason env db distinct h =
    Ensures-ok {Q = Voids actor i payment_id (trim_space reason) env db}
      (after_raise_if _ _ _ λ _.
        Ensures-transaction _
          (void_body-Voids actor i payment_id (trim_space reason) env db distinct))
      h
