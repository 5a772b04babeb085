-- ===== src/Ledger/Voiding.antt =====
-- How the confirmed totals follow the voiding of a payment.
use launlog_api.Prelude.{
  ℕ, Bool, true, false, not, ◌≡◌, ◌≢◌, ◌&&◌, some, List, [], ◌∷◌, update, select, find?, All,
  All-update, Distinct, refl, arith, ◌==◌, Bool-cases, sym, ap, subst, ◌∙◌, inl, inr,
}
use launlog_api.Prelude.Int.{pos, ◌+ℤ◌, ◌≤ℤ◌, +ℤ_parts, int_laws, add_assoc}
use launlog_api.Prelude.Text.{Text}
use launlog_api.Store.{Payment, is_confirmed}
use launlog_api.Query.Payments.{confirmed_total, pays, marked_voided}
use launlog_api.Ledger.Settle.{is_key}

-- The rows that VoidConfirmedPayment changes.
abbrev pub to_void : ℕ → ℕ → ℕ → ℕ → Payment → Bool
to_void b t i payment_id p = pays b t i p && (p.id == payment_id && is_confirmed p.status)

module _ (b t i payment_id user_id : ℕ) (reason : Text) (now : ℕ) where
  abbrev pub voided_rows : List Payment → List Payment
  voided_rows ps = update (to_void b t i payment_id) (marked_voided user_id reason now) ps

  -- A row under another key is not touched.
  pub other_kept :
      (b' t' i' : ℕ) (ps : List Payment)
      → is_key b t i b' t' i' ≡ false
      → confirmed_total b' t' i' (voided_rows ps) ≡ confirmed_total b' t' i' ps
  unfolding confirmed_total
  other_kept b' t' i' [] miss = refl
  other_kept b' t' i' (p ∷ ps) miss = elim (Bool-cases (to_void b t i payment_id p)) [
    | inl e ↦ ground (arith, other_kept b' t' i' ps miss)
    | inr e ↦ rw (e, other_kept b' t' i' ps miss)
  ]

  -- Voiding takes credit away and adds none.
  pub voided_le :
      (ps : List Payment)
      → All (λ p. pos 1 ≤ℤ p.amount) ps
      → confirmed_total b t i (voided_rows ps) ≤ℤ confirmed_total b t i ps
  unfolding confirmed_total
  voided_le [] h = omega arith
  voided_le (p ∷ ps) h = ground (
    arith,
    voided_le ps h.1,
    h.0,
    +ℤ_parts p.amount (confirmed_total b t i ps),
    +ℤ_parts p.amount (confirmed_total b t i (voided_rows ps)),
  )

  pub voided_positive :
      (ps : List Payment)
      → All (λ p. pos 1 ≤ℤ p.amount) ps
      → All (λ p. pos 1 ≤ℤ p.amount) (voided_rows ps)
  voided_positive ps h =
      All-update (λ p. pos 1 ≤ℤ p.amount) (to_void b t i payment_id)
        (marked_voided user_id reason now) (λ p one. one) ps h

  -- Rows of other ids are not touched.
  none_voided : (ps : List Payment) → All (λ p. p.id ≢ payment_id) ps → voided_rows ps ≡ ps
  none_voided [] h = refl
  none_voided (p ∷ ps) (apart, h) = ground (arith, none_voided ps h)

  pub others_kept :
      (ps : List Payment)
      → select (λ p. not (p.id == payment_id)) (voided_rows ps)
        ≡ select (λ p. not (p.id == payment_id)) ps
  others_kept [] = refl
  others_kept (p ∷ ps) = ground (arith, others_kept ps)

  -- The confirmed payment that a scan finds is the one that is voided.
  pub found_to_void :
      (ps : List Payment) {p : Payment}
      → find? (λ p. pays b t i p && p.id == payment_id) ps ≡ some p
      → is_confirmed p.status ≡ true
      → find? (to_void b t i payment_id) ps ≡ some p
  found_to_void [] found conf = cc
  found_to_void (q ∷ ps) {p} found conf = ground (arith, found_to_void ps {p = p})

  -- The total falls by the amount of the payment that is voided.
  pub voided_total :
      (ps : List Payment) {p : Payment}
      → Distinct (λ p. p.id) ps
      → find? (λ p. pays b t i p && p.id == payment_id) ps ≡ some p
      → is_confirmed p.status ≡ true
      → confirmed_total b t i ps ≡ confirmed_total b t i (voided_rows ps) +ℤ p.amount
  unfolding confirmed_total
  voided_total [] distinct found conf = cc
  voided_total (q ∷ ps) {p} (apart, distinct) found conf =
      elim (Bool-cases (pays b t i q && q.id == payment_id)) [
        | inl here ↦
            let same : q ≡ p = ground arith in
            let is_id : q.id ≡ payment_id = ground arith in
            let conf' : is_confirmed q.status ≡ true =
              ap (λ (p : Payment). is_confirmed p.status) same ∙ conf in
            let owned : pays b t i q ≡ true = ground arith in
            let hit : to_void b t i payment_id q ≡ true = ground arith in
            let kept = none_voided ps (subst (λ n. All (λ y. y.id ≢ n) ps) is_id apart) in
            rw (hit, owned, conf', kept, sym same) (omega int_laws)
        | inr there ↦
            let rest = voided_total ps {p = p} distinct (ground arith) conf in
            let miss : to_void b t i payment_id q ≡ false = ground arith in
            elim (Bool-cases (pays b t i q && is_confirmed q.status)) [
              | inl counts ↦
                  rw (miss, counts)
                    (ap (λ z. q.amount +ℤ z) rest ∙ sym (add_assoc q.amount _ p.amount))
              | inr uncounted ↦ rw (miss, uncounted) rest
            ]
      ]
