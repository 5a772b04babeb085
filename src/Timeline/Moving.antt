-- ===== src/Timeline/Moving.antt =====
-- One more step in the life of an order.
use mathlib.Core.Path.{subst₂}
use mathlib.Core.List.{append-nil}
use mathlib.Core.Option.{some-injective}
use launlog_api.Prelude.{
  ℕ, true, false, ◌≡◌, Option, some, List, [], ◌∷◌, ◌++◌, find?, update, select, refl, sym, subst,
  ap, ◌∙◌, arith, ==_refl, Bool-cases, inl, inr, find?-true, select-append, touched,
}
use launlog_api.Prelude.Text.{Text}
use launlog_api.Store.{
  Db, Order, OrderStatus, OrderStatusHistory, AuditLog, is_completed, is_cancelled,
}
use launlog_api.Effect.{Env}
use launlog_api.Query.Lifecycle.{is_order, add_history, add_audit}
use launlog_api.Query.Writes.{with_orders}
use launlog_api.Orders.Status.{allowed_order_transition}
use launlog_api.Payments.Record.{is_some}
use launlog_api.Ledger.Totals.{is_order_key}
use launlog_api.Ledger.Keys.{KeepsKey, IsUnique-update, find?-before}
use launlog_api.Timeline.{Follows, moved, is_history_of, IsTracked, IsTimeline}

-- The tables after a step of the order `i`: the order changed, a row of history, a row of audit.
abbrev pub stepped :
    ℕ
    → ℕ
    → ℕ
    → (Order → Order)
    → OrderStatus
    → OrderStatus
    → ℕ
    → Option Text
    → AuditLog
    → Env
    → Db
    → Db
stepped b t i change from_status to_status changed_by notes log env db = add_audit log (
    add_history b t i (some from_status) to_status changed_by notes env
      (with_orders db (update (is_order b i) change db.orders)))

-- What a step writes to the row of the order.
pub record Marks (change : Order → Order) (to_status : OrderStatus) (o : Order) : Type 0 where
  pub status_set : (change o).status ≡ to_status
  pub completed_set : is_some (change o).completed_at ≡ is_completed to_status
  pub cancelled_set : is_some (change o).cancelled_at ≡ is_cancelled to_status
  pub deleted_set : is_some (change o).deleted_at ≡ is_cancelled to_status

module _ (history : List OrderStatusHistory) (row : OrderStatusHistory) where
  pub IsTracked-other :
      (b i : ℕ) (o : Order)
      → is_history_of b i row ≡ false
      → IsTracked history b i o
      → IsTracked (history ++ row ∷ []) b i o
  IsTracked-other b i o miss t = record {
    completed_stamp = t.completed_stamp;
    cancelled_stamp = t.cancelled_stamp;
    deleted_stamp = t.deleted_stamp;
    follows =
        subst (λ hs. Follows hs o.status)
          (sym (select-append _ history (row ∷ []) ∙ rw miss (append-nil _))) t.follows;
  }

  IsTracked-self :
      (b i : ℕ) (change : Order → Order) (o : Order)
      → is_history_of b i row ≡ true
      → row.from_status ≡ some o.status
      → allowed_order_transition o.status row.to_status ≡ true
      → Marks change row.to_status o
      → IsTracked history b i o
      → IsTracked (history ++ row ∷ []) b i (change o)
  IsTracked-self b i change o hit from allowed marks t = record {
    follows =
        subst₂ Follows (sym (select-append _ history (row ∷ []) ∙ rw hit refl))
          (sym marks.status_set)
          (moved (select (is_history_of b i) history) o.status row t.follows from allowed);
    completed_stamp = marks.completed_set ∙ ap is_completed (sym marks.status_set);
    cancelled_stamp = marks.cancelled_set ∙ ap is_cancelled (sym marks.status_set);
    deleted_stamp = marks.deleted_set ∙ ap is_cancelled (sym marks.status_set);
  }

module _ (b i : ℕ) (change : Order → Order) (keep : KeepsKey change) (env : Env) (db : Db)
    (timeline : IsTimeline db) {before : Order}
    (found : find? (is_order b i) db.orders ≡ some before) (t : ℕ) (to_status : OrderStatus)
    (changed_by : ℕ) (notes : Option Text) (log : AuditLog)
    (allowed : allowed_order_transition before.status to_status ≡ true)
    (marks : Marks change to_status before) where
  abbrev after : Db
  after = stepped b t i change before.status to_status changed_by notes log env db

  step_self : IsTracked after.order_status_history b i (change before)
  step_self =
      IsTracked-self db.order_status_history _ b i change before (rw (==_refl b, ==_refl i) refl)
        refl allowed marks (timeline.tracked b i before found)

  step-IsTracked :
      (b' i' : ℕ) (o : Order)
      → find? (is_order b' i') db.orders ≡ some o
      → IsTracked after.order_status_history b' i' (touched (is_order b i) change o)
  step-IsTracked b' i' o at =
      let (eb, ei) = is_order_key b' i' o (find?-true (is_order b' i') db.orders at) in
      elim (Bool-cases (is_order b i o)) [
        | inl hit ↦
            let (fb, fi) = is_order_key b i o hit in
            let same : before ≡ o = some-injective _ _ (
              sym found
              ∙ (λ j. find? (is_order ((sym fb ∙ eb) j) ((sym fi ∙ ei) j)) db.orders)
              ∙ at) in
            rw hit (
              subst₂ (λ b' i'. IsTracked after.order_status_history b' i' (change o)) (sym fb ∙ eb)
                (sym fi ∙ ei)
                (subst (λ o. IsTracked after.order_status_history b i (change o)) same step_self))
        | inr miss ↦ rw miss (
            IsTracked-other db.order_status_history _ b' i' o (ground arith)
              (timeline.tracked b' i' o at))
      ]

  pub IsTimeline-stepped : IsTimeline after
  IsTimeline-stepped = record {
    unique = IsUnique-update (is_order b i) change keep db.orders timeline.unique;
    tracked = λ b' i' o' at.
        let (o, old, is_o) = find?-before (is_order b i) change keep b' i' db.orders at in
        subst (IsTracked after.order_status_history b' i') (sym is_o) (step-IsTracked b' i' o old);
  }
