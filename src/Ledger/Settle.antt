-- ===== src/Ledger/Settle.antt =====
-- Writing an order's payment status after a change of its payments restores the ledger.
use mathlib.Core.Path.{subst₂}
use mathlib.Core.Option.{some-injective}
use launlog_api.Prelude.{
  ℕ, Bool, true, false, ◌≡◌, ◌&&◌, some, List, find?, update, arith, All, refl, sym, ◌==◌, touched,
  find?-true, Bool-cases, inl, inr, subst, ap, ◌∙◌,
}
use launlog_api.Prelude.Int.{pos, ◌≤ℤ◌}
use launlog_api.Store.{Order, Payment, PaymentStatus, is_cancelled}
use launlog_api.Query.Lifecycle.{is_order}
use launlog_api.Query.Payments.{confirmed_total}
use launlog_api.Payments.Amounts.{payment_status_for}
use launlog_api.Ledger.{IsBalanced, IsLedgerOf, credited}
use launlog_api.Ledger.Totals.{is_order_key}
use launlog_api.Ledger.Keys.{KeepsKey, IsUnique-update, find?-before}

abbrev pub is_order_at : ℕ → ℕ → ℕ → Order → Bool
is_order_at b t i o = is_order b i o && o.outlet_id == t

abbrev pub with_payment_status : PaymentStatus → ℕ → Order → Order
with_payment_status status now o = record o { payment_status = status; updated_at = now }

with_payment_status-KeepsKey : (s : PaymentStatus) (now : ℕ) → KeepsKey (with_payment_status s now)
with_payment_status-KeepsKey s now = record { same_business = λ o. refl; same_id = λ o. refl }

-- The order's key in `payments`.
abbrev pub is_key : ℕ → ℕ → ℕ → ℕ → ℕ → ℕ → Bool
is_key b t i b' t' i' = b' == b && (t' == t && i' == i)

swap_tests : (x y z : Bool) → (x && z) && y ≡ false → x && (y && z) ≡ false
swap_tests x y z h = ground arith

left_test : (x y : Bool) → x && y ≡ true → x ≡ true
left_test x y h = ground arith

module _ {orders : List Order} {payments : List Payment} (payments' : List Payment) (b i now : ℕ)
    (o : Order) (status : PaymentStatus) (ledger : IsLedgerOf orders payments)
    (found : find? (is_order b i) orders ≡ some o)
    (positive : All (λ p. pos 1 ≤ℤ p.amount) payments')
    (others : (b' t' i' : ℕ)
      → is_key b o.outlet_id i b' t' i' ≡ false
      → confirmed_total b' t' i' payments' ≡ confirmed_total b' t' i' payments)
    (agrees : status
      ≡ payment_status_for o.total_amount (confirmed_total b o.outlet_id i payments'))
    (covered : confirmed_total b o.outlet_id i payments' ≤ℤ o.total_amount)
    (no_credit : is_cancelled o.status ≡ true
      → confirmed_total b o.outlet_id i payments' ≡ pos 0) where
  found_key : (o.business_id ≡ b) × (o.id ≡ i)
  found_key = is_order_key b i o (find?-true (is_order b i) orders found)

  own_credit : credited payments' o ≡ confirmed_total b o.outlet_id i payments'
  own_credit = λ j. confirmed_total (found_key.0 j) o.outlet_id (found_key.1 j) payments'

  settled : IsBalanced payments' (with_payment_status status now o)
  settled = record {
    in_range = (ledger.balanced b i o found).in_range;
    covered = subst (λ c. c ≤ℤ o.total_amount) (sym own_credit) covered;
    status_agrees = agrees ∙ ap (payment_status_for o.total_amount) (sym own_credit);
    cancelled_unpaid = λ h. own_credit ∙ no_credit h;
  }

  untouched :
      (y : Order)
      → is_order_at b o.outlet_id i y ≡ false
      → IsBalanced payments y
      → IsBalanced payments' y
  untouched y miss h =
      let same : credited payments' y ≡ credited payments y =
        others y.business_id y.outlet_id y.id
          (swap_tests (y.business_id == b) (y.outlet_id == o.outlet_id) (y.id == i) miss) in
      record {
        in_range = h.in_range;
        covered = subst (λ c. c ≤ℤ y.total_amount) (sym same) h.covered;
        status_agrees = h.status_agrees ∙ ap (payment_status_for y.total_amount) (sym same);
        cancelled_unpaid = λ e. same ∙ h.cancelled_unpaid e;
      }

  -- The row that passes the test is `o`.
  same_order :
      (b' i' : ℕ) (y : Order)
      → find? (is_order b' i') orders ≡ some y
      → is_order b i y ≡ true
      → y ≡ o
  same_order b' i' y at hit =
      let (eb, ei) = is_order_key b i y hit in
      let (eb', ei') = is_order_key b' i' y (find?-true (is_order b' i') orders at) in
      some-injective y o (
        sym (subst₂ (λ b i. find? (is_order b i) orders ≡ some y) (sym eb' ∙ eb) (sym ei' ∙ ei) at)
        ∙ found)

  IsBalanced-after :
      (b' i' : ℕ) (y : Order)
      → find? (is_order b' i') orders ≡ some y
      → IsBalanced payments'
          (touched (is_order_at b o.outlet_id i) (with_payment_status status now) y)
  IsBalanced-after b' i' y at = elim (Bool-cases (is_order_at b o.outlet_id i y)) [
    | inl hit ↦ rw hit (
        subst (λ z. IsBalanced payments' (with_payment_status status now z))
          (sym
            (same_order b' i' y at (left_test (is_order b i y) (y.outlet_id == o.outlet_id) hit)))
          settled)
    | inr miss ↦ rw miss (untouched y miss (ledger.balanced b' i' y at))
  ]

  pub IsLedgerOf-settle :
      IsLedgerOf
        (update (is_order_at b o.outlet_id i) (with_payment_status status now) orders)
        payments'
  IsLedgerOf-settle = record {
    unique = IsUnique-update _ _ (with_payment_status-KeepsKey status now) orders ledger.unique;
    positive = positive;
    balanced = λ b' i' o' at.
        let (y, before, same) =
          find?-before _ _ (with_payment_status-KeepsKey status now) b' i' orders at in
        subst (IsBalanced payments') (sym same) (IsBalanced-after b' i' y before);
  }

-- An order that the key finds has its own credit under that key.
pub own_total :
    (orders : List Order) (payments : List Payment) (b i : ℕ) (o : Order)
    → find? (is_order b i) orders ≡ some o
    → credited payments o ≡ confirmed_total b o.outlet_id i payments
own_total orders payments b i o found =
    let (eb, ei) = is_order_key b i o (find?-true (is_order b i) orders found) in
    λ j. confirmed_total (eb j) o.outlet_id (ei j) payments
