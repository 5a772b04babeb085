-- ===== src/Ledger/Credit.antt =====
-- The amounts of a new payment, and what it adds to the totals of the orders.
use launlog_api.Prelude.{ℕ, true, false, ◌≡◌, List, arith, refl, ==_refl, subst}
use launlog_api.Prelude.Int.{
  ℤ, pos, ◌≤ℤ◌, ◌+ℤ◌, ◌-ℤ◌, add64, sub64, add64_below, sub64_below, InInt64, int_laws,
}
use launlog_api.Store.{Order, Payment, PaymentStatus, is_confirmed}
use launlog_api.Query.Payments.{confirmed_total}
use launlog_api.Payments.Amounts.{payment_status_for}
use launlog_api.Ledger.Totals.{share_of}
use launlog_api.Ledger.Settle.{is_key}

-- What a payment result says of an order's ledger.
pub record Describes (b i : ℕ) (o : Order) (payments : List Payment) (status : PaymentStatus)
    (paid_amount : ℤ) (outstanding : ℤ) : Type 0 where
  pub is_total : paid_amount ≡ confirmed_total b o.outlet_id i payments
  pub splits : paid_amount +ℤ outstanding ≡ o.total_amount
  pub not_negative : (pos 0 ≤ℤ paid_amount) × (pos 0 ≤ℤ outstanding)
  pub is_status : status ≡ payment_status_for o.total_amount paid_amount

-- The amounts of an accepted payment, as the int64 arithmetic computes them.
pub record IsCredit (total c a : ℤ) : Type 0 where
  pub positive : pos 1 ≤ℤ a
  pub sum_exact : add64 c a ≡ c +ℤ a
  pub within : c +ℤ a ≤ℤ total
  pub rest_exact : sub64 total (c +ℤ a) ≡ total -ℤ (c +ℤ a)

pub IsCredit-lem :
    (total c a : ℤ)
    → InInt64 total
    → pos 0 ≤ℤ c
    → c ≤ℤ total
    → pos 1 ≤ℤ a
    → a ≤ℤ sub64 total c
    → IsCredit total c a
IsCredit-lem total c a range low high one fits =
    let e : sub64 total c ≡ total -ℤ c = sub64_below total c range low high in
    let below : a ≤ℤ total -ℤ c = subst (λ z. a ≤ℤ z) e fits in
    record {
      positive = one;
      sum_exact = add64_below c a total range (omega int_laws) (omega int_laws);
      within = omega int_laws;
      rest_exact = sub64_below total (c +ℤ a) range (omega int_laws) (omega int_laws);
    }

-- A new confirmed payment under the order's key counts in full, and under no other key.
pub share_self :
    (b t i : ℕ) (p : Payment)
    → p.business_id ≡ b
    → p.outlet_id ≡ t
    → p.order_id ≡ i
    → is_confirmed p.status ≡ true
    → share_of b t i p ≡ p.amount
share_self b t i p eb et ei conf = rw (eb, et, ei, conf, ==_refl, ==_refl, ==_refl) refl

pub share_other :
    (b t i b' t' i' : ℕ) (p : Payment)
    → p.business_id ≡ b
    → p.outlet_id ≡ t
    → p.order_id ≡ i
    → is_key b t i b' t' i' ≡ false
    → share_of b' t' i' p ≡ pos 0
share_other b t i b' t' i' p eb et ei miss = rw (eb, et, ei) (ground arith)
