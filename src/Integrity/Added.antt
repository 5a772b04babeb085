-- ===== src/Integrity/Added.antt =====
-- One more order, with its first row of history, in tables that are sound.
use mathlib.Core.Path.{subst₂}
use launlog_api.Prelude.{
  ℕ, ◌<◌, false, ◌≡◌, inl, inr, none, some, List, [], ◌∷◌, ◌++◌, find?, select, All, All-weaken,
  arith, refl, sym, ap, subst, ◌∙◌, find?-append, find?-added, find?-true, All-find?, select-none,
  select-append, ==_refl,
}
use launlog_api.Prelude.Int.{ℤ, pos, ◌≤ℤ◌, InInt64}
use launlog_api.Store.{Order, OrderStatusHistory, Payment, received, unpaid}
use launlog_api.Query.Lifecycle.{is_order}
use launlog_api.Query.Payments.{confirmed_total}
use launlog_api.Payments.Amounts.{payment_status_for}
use launlog_api.Ledger.{IsUnique, IsLedgerOf, IsBalanced, credited}
use launlog_api.Timeline.{Follows, created_as_received, is_history_of, IsTracked}
use launlog_api.Timeline.Moving.{IsTracked-other}
use launlog_api.Ledger.Totals.{is_order_key}

-- A row as `Create` inserts it.
pub record IsNew (o : Order) : Type 0 where
  pub is_received : o.status ≡ received
  pub is_unpaid_yet : o.payment_status ≡ unpaid
  pub not_completed : o.completed_at ≡ none
  pub not_cancelled : o.cancelled_at ≡ none
  pub not_deleted : o.deleted_at ≡ none

below_miss : (b n : ℕ) (o : Order) → o.id < n → is_order b n o ≡ false
below_miss b n o h = ground arith

IsUnique-added :
    (os : List Order) (o : Order)
    → All (λ x. x.id < o.id) os
    → IsUnique os
    → IsUnique (os ++ o ∷ [])
IsUnique-added [] o below u = (refl, tt)
IsUnique-added (x ∷ os) o (low, below) (alone, u) = (
  find?-append (is_order x.business_id x.id) os (o ∷ []) ∙ rw alone (ground arith),
  IsUnique-added os o below u,
)

-- No payment, no credit.
confirmed_total_none :
    (b t n : ℕ) (ps : List Payment)
    → All (λ p. p.order_id < n) ps
    → confirmed_total b t n ps ≡ pos 0
unfolding confirmed_total
confirmed_total_none b t n [] below = refl
confirmed_total_none b t n (p ∷ ps) (low, below) =
    ground (arith, confirmed_total_none b t n ps below)

unpaid_status : (total : ℤ) → payment_status_for total (pos 0) ≡ unpaid
unfolding payment_status_for
unpaid_status total = ground arith

module _ (orders : List Order) (payments : List Payment) (history : List OrderStatusHistory)
    (o : Order) (below : All (λ x. x.id < o.id) orders) (new : IsNew o) where
  new-IsBalanced :
      All (λ p. p.order_id < o.id) payments
      → pos 0 ≤ℤ o.total_amount
      → InInt64 o.total_amount
      → IsBalanced payments o
  new-IsBalanced unpaid_below low range =
      let zero : credited payments o ≡ pos 0 =
        confirmed_total_none o.business_id o.outlet_id o.id payments unpaid_below in
      record {
        in_range = range;
        covered = subst (λ c. c ≤ℤ o.total_amount) (sym zero) low;
        status_agrees =
            new.is_unpaid_yet
            ∙ (sym (unpaid_status o.total_amount)
                ∙ ap (payment_status_for o.total_amount) (sym zero));
        cancelled_unpaid = λ _. zero;
      }

  pub IsLedgerOf-added :
      IsLedgerOf orders payments
      → All (λ p. p.order_id < o.id) payments
      → pos 0 ≤ℤ o.total_amount
      → InInt64 o.total_amount
      → IsLedgerOf (orders ++ o ∷ []) payments
  IsLedgerOf-added ledger unpaid_below low range = record {
    unique = IsUnique-added orders o below ledger.unique;
    positive = ledger.positive;
    balanced = λ b i x found. elim (find?-added (is_order b i) orders o found) [
      | inl old ↦ ledger.balanced b i x old
      | inr (_, is_new) ↦
          subst (IsBalanced payments) (sym is_new) (new-IsBalanced unpaid_below low range)
    ];
  }

  module _ (row : OrderStatusHistory) (at_business : row.business_id ≡ o.business_id)
      (at_order : row.order_id ≡ o.id) (from_nothing : row.from_status ≡ none)
      (to_received : row.to_status ≡ received)
      (history_below : All (λ h. h.order_id < o.id) history) where
    only_row : select (is_history_of o.business_id o.id) (history ++ row ∷ []) ≡ row ∷ []
    only_row =
        select-append (is_history_of o.business_id o.id) history (row ∷ [])
        ∙ rw
            (
              select-none (is_history_of o.business_id o.id) history
                  (All-weaken (λ h low. ground arith) history history_below),
              at_business,
              at_order,
              ==_refl,
              ==_refl,
            )
            refl

    new-IsTracked : IsTracked (history ++ row ∷ []) o.business_id o.id o
    new-IsTracked = record {
      follows =
          subst (λ hs. Follows hs o.status) (sym only_row)
            (subst (λ s. Follows (row ∷ []) s) (sym new.is_received)
              (created_as_received row from_nothing to_received));
      completed_stamp = rw (new.not_completed, new.is_received) refl;
      cancelled_stamp = rw (new.not_cancelled, new.is_received) refl;
      deleted_stamp = rw (new.not_deleted, new.is_received) refl;
    }

    miss :
        (b i : ℕ) (x : Order) → find? (is_order b i) orders ≡ some x → is_history_of b i row ≡ false
    miss b i x found =
        let low = All-find? (λ x. x.id < o.id) (is_order b i) orders below found in
        let (eb, ei) = is_order_key b i x (find?-true (is_order b i) orders found) in ground arith

    pub added-IsTracked :
        ((b i : ℕ) (x : Order) → find? (is_order b i) orders ≡ some x → IsTracked history b i x)
        → (b i : ℕ) (x : Order) → find? (is_order b i) (orders ++ o ∷ []) ≡ some x
        → IsTracked (history ++ row ∷ []) b i x
    added-IsTracked tracked b i x found = elim (find?-added (is_order b i) orders o found) [
      | inl old ↦ IsTracked-other history row b i x (miss b i x old) (tracked b i x old)
      | inr (hit, is_new) ↦
          let (eb, ei) = is_order_key b i o hit in
          subst (λ y. IsTracked (history ++ row ∷ []) b i y) (sym is_new)
            (subst₂ (λ b i. IsTracked (history ++ row ∷ []) b i o) eb ei new-IsTracked)
    ]
