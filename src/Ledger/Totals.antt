-- ===== src/Ledger/Totals.antt =====
-- How the confirmed total of an order follows the writes to `payments`.
use mathlib.Core.Path.{subst₂}
use launlog_api.Prelude.{
  Bool-cases, inl, inr, ℕ, Bool, true, ◌≡◌, ◌&&◌, Option, none, some, List, [], ◌∷◌, ◌++◌, find?,
  All, arith, if◌then◌else◌,
}
use launlog_api.Prelude.Int.{ℤ, pos, ◌+ℤ◌, ◌≤ℤ◌, int_laws, add_assoc}
use launlog_api.Store.{Order, Payment, is_confirmed}
use launlog_api.Query.Lifecycle.{is_order}
use launlog_api.Query.Payments.{confirmed_total, pays}
use launlog_api.Ledger.{IsUnique}

-- A payment that counts towards an order's total, and what it adds.
abbrev pub counts : ℕ → ℕ → ℕ → Payment → Bool
counts b t i p = pays b t i p && is_confirmed p.status

abbrev pub share_of : ℕ → ℕ → ℕ → Payment → ℤ
share_of b t i p = if counts b t i p then p.amount else pos 0

pub confirmed_total-append :
    (b t i : ℕ) (ps : List Payment) (p : Payment)
    → confirmed_total b t i (ps ++ p ∷ []) ≡ confirmed_total b t i ps +ℤ share_of b t i p
unfolding confirmed_total
confirmed_total-append b t i [] p = elim (Bool-cases (counts b t i p)) [
  | inl e ↦ rw e (omega int_laws)
  | inr e ↦ rw e (omega int_laws)
]
confirmed_total-append b t i (q ∷ ps) p = elim (Bool-cases (counts b t i q)) [
  | inl e ↦ rw (e, confirmed_total-append b t i ps p, add_assoc)
  | inr e ↦ rw e (confirmed_total-append b t i ps p)
]

pub confirmed_total_nonneg :
    (b t i : ℕ) (ps : List Payment)
    → All (λ p. pos 1 ≤ℤ p.amount) ps
    → pos 0 ≤ℤ confirmed_total b t i ps
unfolding confirmed_total
confirmed_total_nonneg b t i [] h = omega arith
confirmed_total_nonneg b t i (p ∷ ps) h = elim (Bool-cases (counts b t i p)) [
  | inl e ↦ rw e (omega (int_laws, confirmed_total_nonneg b t i ps h.1))
  | inr e ↦ rw e (confirmed_total_nonneg b t i ps h.1)
]

-- A key that passes the test names its row.
pub is_order_key : (b i : ℕ) (o : Order) → is_order b i o ≡ true → (o.business_id ≡ b) × (o.id ≡ i)
is_order_key b i o h = ground arith

-- The key of an order that a locked read returns finds that order.
pub find?-weaken :
    (b i : ℕ) (rest : Order → Bool) (os : List Order) {o : Order}
    → IsUnique os
    → find? (λ x. is_order b i x && rest x) os ≡ some o
    → find? (is_order b i) os ≡ some o
find?-weaken b i rest [] u h = h
find?-weaken b i rest (x ∷ os) {o} u h = elim (Bool-cases (is_order b i x)) [
  | inl k ↦ elim (Bool-cases (rest x)) [
    | inl r ↦ ground arith
    | inr r ↦
        let (eb, ei) = is_order_key b i x k in
        absurd (
          clash (subst₂ (λ b i. find? (is_order b i) os ≡ none) eb ei u.0)
            (find?-weaken b i rest os u.1 (ground arith)))
  ]
  | inr k ↦ rw k (find?-weaken b i rest os u.1 (ground arith))
]
  where
    clash : {r : Option Order} → r ≡ none → r ≡ some o → ⊥
    clash e f = cc
