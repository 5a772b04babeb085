-- ===== src/Payments/Steps.antt =====
-- The steps that the payment methods share.
pub mod Reading
use launlog_api.Prelude.{ℕ, not, Option, none, some, ◌==◌, eq_text, Bool, []}
use launlog_api.Prelude.Int.{ℤ, ltb_ℤ}
use launlog_api.Prelude.Text.{Bytes}
use launlog_api.Store.{Order, AuditAction, AuditValues}
use launlog_api.Effect.{
  M, pure, raise_if, query, exec, or_no_rows, ◌>>=◌, ◌>>◌, payment_not_found,
  payment_refunds_unsupported, payment_ledger_invariant, count_order_payment_refunds,
  get_confirmed_payment_total, insert_payment_audit_log,
}
use launlog_api.Query.Payments as Sql
use launlog_api.Actor.{Actor, audit_user_agent}
use launlog_api.Orders.Lifecycle.{lock_lifecycle_order}

unfoldable pub lock_payable_order : Actor → ℕ → M Order
lock_payable_order actor order_id =
    or_no_rows payment_not_found (lock_lifecycle_order actor order_id)

unfoldable pub ensure_no_payment_refunds : ℕ → ℕ → ℕ → M (Unit {0})
ensure_no_payment_refunds business_id outlet_id order_id = do
  count ←
      query count_order_payment_refunds
        (Sql.count_order_payment_refunds business_id outlet_id order_id)
  raise_if (not (count == 0)) payment_refunds_unsupported
  pure tt

-- Reads the confirmed total of an order, and refuses one above the order's total.
unfoldable pub read_ledger : ℕ → ℕ → Order → M ℤ
read_ledger business_id order_id o = do
  total ←
      query get_confirmed_payment_total
        (Sql.get_confirmed_payment_total business_id o.outlet_id order_id)
  raise_if (ltb_ℤ o.total_amount total) payment_ledger_invariant
  pure total

unfoldable pub insert_payment_audit :
    Actor → ℕ → ℕ → AuditAction → AuditValues → AuditValues → M (Unit {0})
insert_payment_audit actor outlet_id payment_id action old_values new_values =
    exec insert_payment_audit_log (
      Sql.insert_payment_audit_log actor.business_id (some outlet_id) (some actor.user_id) action
        (some payment_id) old_values new_values actor.ip (audit_user_agent actor))

-- `bytes.Equal` on a nullable column.
abbrev pub same_hash : Option Bytes → Bytes → Bool
same_hash none hash = eq_text [] hash
same_hash (some h) hash = eq_text h hash
