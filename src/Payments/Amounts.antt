-- ===== src/Payments/Amounts.antt =====
-- The arithmetic of a payment: what is credited, what goes back as change, and the status that the
-- ledger of an order implies.
pub mod Bounds
use launlog_api.Prelude.{Bool, true, false, ◌||◌, not, if◌then◌else◌}
use launlog_api.Prelude.Int.{ℤ, pos, ltb_ℤ, leb_ℤ, eqb_ℤ, sub64}
use launlog_api.Store.{
  Method, PaymentStatus, cash, bca_transfer, qris, unpaid, partially_paid, is_cash,
}
use launlog_api.Effect.{Result, ok, err, invalid_payment, payment_no_balance, payment_overpayment}

unfoldable pub valid_payment_method : Method → Bool
valid_payment_method cash = true
valid_payment_method bca_transfer = true
valid_payment_method qris = true
valid_payment_method _ = false

-- The amount credited to the order, and the change.
unfoldable pub payment_amounts : Method → ℤ → ℤ → Result (ℤ × ℤ)
unfolding valid_payment_method
payment_amounts method tendered outstanding =
    if not (valid_payment_method method) || leb_ℤ tendered (pos 0)
    then err invalid_payment
    else if leb_ℤ outstanding (pos 0)
    then err payment_no_balance
    else if is_cash method
    then (let applied = (if ltb_ℤ outstanding tendered then outstanding else tendered) in
        ok (applied, sub64 tendered applied))
    else if ltb_ℤ outstanding tendered
    then err payment_overpayment
    else ok (tendered, pos 0)

unfoldable pub payment_status_for : ℤ → ℤ → PaymentStatus
payment_status_for total credited =
    if eqb_ℤ credited (pos 0)
    then unpaid
    else if eqb_ℤ credited total
    then PaymentStatus.paid
    else partially_paid

unfoldable pub change_for : Method → ℤ → ℤ → ℤ
change_for method tendered applied = if is_cash method then sub64 tendered applied else pos 0
