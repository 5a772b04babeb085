-- ===== src/Payments/Steps/Reading.antt =====
-- The shared reads of the payment methods write nothing.
use launlog_api.Prelude.{ℕ, ◌≡◌, false, some, refl, arith}
use launlog_api.Prelude.Int.{ltb_ℤ}
use launlog_api.Store.{Db, Order}
use launlog_api.Effect.{Env, or_no_rows, query_one, payment_not_found, get_order_payment_for_update}
use launlog_api.Effect.Hoare.{
  Reads, Ensures-pure, Ensures-or_no_rows, Ensures-query_one, after_query, after_raise_if,
}
use launlog_api.Query.Payments as Sql
use launlog_api.Actor.{Actor}
use launlog_api.Orders.Lifecycle.Locking.{IsLocked, lock_lifecycle_order-Reads}
use launlog_api.Payments.Steps.{lock_payable_order, ensure_no_payment_refunds, read_ledger}

pub lock_payable_order-Reads :
    (actor : Actor) (order_id : ℕ) (env : Env) (db : Db)
    → Reads env (lock_payable_order actor order_id) db (IsLocked actor order_id db)
unfolding lock_payable_order
lock_payable_order-Reads actor order_id env db =
    Ensures-or_no_rows _ _ (lock_lifecycle_order-Reads actor order_id env db)

pub ensure_no_payment_refunds-Reads :
    (b t i : ℕ) (env : Env) (db : Db)
    → Reads env
        (ensure_no_payment_refunds b t i)
        db
        (λ _. Sql.count_order_payment_refunds b t i db ≡ 0)
unfolding ensure_no_payment_refunds
ensure_no_payment_refunds-Reads b t i env db =
    after_query _ _ _ (after_raise_if _ _ _ λ e. Ensures-pure tt (refl, ground arith))

-- A ledger that is read is the confirmed total, and lies within the order's total.
pub read_ledger-Reads :
    (b i : ℕ) (o : Order) (env : Env) (db : Db)
    → Reads env (read_ledger b i o) db (λ total.
      (total ≡ Sql.get_confirmed_payment_total b o.outlet_id i db)
      × (ltb_ℤ o.total_amount total ≡ false))
unfolding read_ledger
read_ledger-Reads b i o env db =
    after_query _ _ _ (after_raise_if _ _ _ λ e. Ensures-pure _ (refl, (refl, e)))

pub found_payment-Reads :
    (b t i payment_id : ℕ) (env : Env) (db : Db)
    → Reads env
        (or_no_rows payment_not_found (
          query_one get_order_payment_for_update
            (Sql.get_order_payment_for_update b t i payment_id)))
        db
        (λ p. Sql.get_order_payment_for_update b t i payment_id db ≡ some p)
found_payment-Reads b t i payment_id env db =
    Ensures-or_no_rows _ _ (Ensures-query_one _ _ (λ p e. (refl, e)))
