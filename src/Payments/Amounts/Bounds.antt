-- ===== src/Payments/Amounts/Bounds.antt =====
-- What the arithmetic of a payment promises.
use launlog_api.Prelude.{true, ◌≡◌, ◌↔◌, ◌⊎◌, arith, if◌then◌else◌}
use launlog_api.Prelude.Int.{
  ℤ, pos, ◌+ℤ◌, ◌-ℤ◌, ◌≤ℤ◌, ◌<ℤ◌, ltb_ℤ, InInt64, sub64_below, add_sub_cancel, add_zero, sub_self,
  eq_of_parts, -ℤ_parts,
}
use launlog_api.Store.{Method, is_cash, unpaid, partially_paid, PaymentStatus, cash}
use launlog_api.Effect.{ok}
use launlog_api.Payments.Amounts.{valid_payment_method, payment_amounts, payment_status_for}

-- The smaller of what is tendered and what is owed.
abbrev pub applied_amount : ℤ → ℤ → ℤ
applied_amount tendered outstanding = if ltb_ℤ outstanding tendered then outstanding else tendered

-- An accepted payment with an int64 tender credits at least one rupiah and no more than is owed; what was tendered is
-- the credit and the change, which is not negative and is zero unless the method is cash.
pub payment_amounts_sound :
    (m : Method) (t o a c : ℤ)
    → InInt64 t
    → payment_amounts m t o ≡ ok (a, c)
    → (pos 1 ≤ℤ a) × (a ≤ℤ o) × (pos 0 ≤ℤ c) × (t ≡ a +ℤ c) × ((is_cash m ≡ true) ⊎ (c ≡ pos 0))
unfolding payment_amounts
payment_amounts_sound cash t o a c range h = ground (
  arith,
  sub64_below t o range,
  sub64_below t t range,
  add_sub_cancel o t,
  add_zero t,
  sub_self t,
  -ℤ_parts t o,
)
payment_amounts_sound m t o a c range h = ground (arith, add_zero t)

-- A known method, an int64 tender and a balance above zero, and cash or no overpayment are enough for a
-- payment to be accepted; the credit is the smaller of tender and balance, the change the rest.
pub payment_amounts_complete :
    (m : Method) (t o : ℤ)
    → InInt64 t
    → valid_payment_method m ≡ true
    → pos 1 ≤ℤ t
    → pos 1 ≤ℤ o
    → (is_cash m ≡ true) ⊎ (t ≤ℤ o)
    → payment_amounts m t o ≡ ok (applied_amount t o, t -ℤ applied_amount t o)
unfolding payment_amounts
payment_amounts_complete cash t o range valid ht ho fits =
    ground (arith, sub64_below t o range, sub64_below t t range)
payment_amounts_complete m t o range valid ht ho fits = ground (arith, sub_self t)

-- For a credit between zero and the total, the status is UNPAID, PARTIALLY_PAID or PAID exactly
-- as nothing, a part or all of a positive total is credited.
pub payment_status_for_exact :
    (total credited : ℤ)
    → pos 0 ≤ℤ credited
    → credited ≤ℤ total
    → ((payment_status_for total credited ≡ unpaid) ↔ (credited ≡ pos 0))
      × ((payment_status_for total credited ≡ PaymentStatus.paid)
          ↔ ((credited ≡ total) × (pos 1 ≤ℤ total)))
      × ((payment_status_for total credited ≡ partially_paid)
          ↔ ((pos 1 ≤ℤ credited) × (credited <ℤ total)))
unfolding payment_status_for
payment_status_for_exact total credited low high =
    ground (arith, eq_of_parts credited (pos 0), eq_of_parts credited total)
