-- ===== src/Timeline/Money.antt =====
-- A step in the life of an order leaves the ledger as it is.
use launlog_api.Prelude.{
  ℕ, true, ◌≡◌, some, find?, sym, subst, ◌∙◌, Bool-cases, inl, inr, find?-true, touched, update,
}
use launlog_api.Prelude.Int.{pos, InInt64}
use launlog_api.Store.{Order, is_cancelled, Payment}
use launlog_api.Query.Lifecycle.{is_order}
use launlog_api.Ledger.{IsLedgerOf, IsBalanced, credited}
use launlog_api.Ledger.Totals.{is_order_key}
use launlog_api.Ledger.Keys.{KeepsKey, IsUnique-update, find?-before}
use launlog_api.Prelude.{List}

-- `change` keeps what the ledger reads of an order, except its status.
pub record KeepsMoney (change : Order → Order) : Type 0 where
  pub key : KeepsKey change
  pub same_total : (o : Order) → (change o).total_amount ≡ o.total_amount
  pub same_credit :
      (payments : List Payment) (o : Order) → credited payments (change o) ≡ credited payments o
  pub same_payment_status : (o : Order) → (change o).payment_status ≡ o.payment_status

module _ (change : Order → Order) (keep : KeepsMoney change) (orders : List Order)
    (payments : List Payment) (b i : ℕ) (ledger : IsLedgerOf orders payments)
    (no_credit : (o : Order)
      → find? (is_order b i) orders ≡ some o
      → is_cancelled (change o).status ≡ true
      → credited payments o ≡ pos 0) where
  changed :
      (o : Order)
      → find? (is_order b i) orders ≡ some o
      → IsBalanced payments o
      → IsBalanced payments (change o)
  changed o found x = record {
    in_range = subst (λ z. InInt64 z) (sym (keep.same_total o)) x.in_range;
    covered = rw (keep.same_total o, keep.same_credit payments o) x.covered;
    status_agrees =
        rw (keep.same_total o, keep.same_credit payments o, keep.same_payment_status o)
          x.status_agrees;
    cancelled_unpaid = λ h. keep.same_credit payments o ∙ no_credit o found h;
  }

  step-IsBalanced :
      (b' i' : ℕ) (o : Order)
      → find? (is_order b' i') orders ≡ some o
      → IsBalanced payments (touched (is_order b i) change o)
  step-IsBalanced b' i' o at =
      let (eb, ei) = is_order_key b' i' o (find?-true (is_order b' i') orders at) in
      elim (Bool-cases (is_order b i o)) [
        | inl hit ↦
            let (fb, fi) = is_order_key b i o hit in
            rw hit (
              changed o ((λ j. find? (is_order ((sym fb ∙ eb) j) ((sym fi ∙ ei) j)) orders) ∙ at)
                (ledger.balanced b' i' o at))
        | inr miss ↦ rw miss (ledger.balanced b' i' o at)
      ]

  pub IsLedgerOf-changed : IsLedgerOf (update (is_order b i) change orders) payments
  IsLedgerOf-changed = record {
    unique = IsUnique-update (is_order b i) change keep.key orders ledger.unique;
    positive = ledger.positive;
    balanced = λ b' i' o' at.
        let (o, old, is_o) = find?-before (is_order b i) change keep.key b' i' orders at in
        subst (IsBalanced payments) (sym is_o) (step-IsBalanced b' i' o old);
  }
