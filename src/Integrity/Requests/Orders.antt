-- ===== src/Integrity/Requests/Orders.antt =====
-- What any number of requests may do to an order.
use launlog_api.Prelude.{ℕ, ◌≡◌, ◌⊎◌, inl, inr, some, find?, refl, sym, ap, subst, true}
use launlog_api.Prelude.Text.{trim_space}
use launlog_api.Store.{Db, Order, is_completed, is_cancelled, cancelled}
use launlog_api.Effect.{ok, err}
use launlog_api.Services.Restocked.{
  Restocked, catalog_create_wrote, catalog_update_wrote, catalog_delete_wrote,
}
use launlog_api.Query.Lifecycle.{is_order, transitioned, marked_cancelled}
use launlog_api.Orders.Creation.Outcome.{create_answer, order_of}
use launlog_api.Ledger.Outcomes.{record_payment_error, void_payment_error, record_payment_replayed}
use launlog_api.Ledger.Retry.{record_payment_wrote}
use launlog_api.Ledger.Voided.{void_payment_wrote}
use launlog_api.Timeline.Changes.{
  transition_status_error, cancel_error, transitioned-KeepsMoney, marked_cancelled-KeepsMoney,
  IsLocked-key,
}
use launlog_api.Timeline.Steps.{transition_status-Stepped, cancel-Stepped}
use launlog_api.Integrity.{IsSound}
use launlog_api.Integrity.Creation.{create_error, IsCreated-orders}
use launlog_api.Integrity.Continuity.{
  Continues, Continues-refl, AllContinue, AllContinue-refl, AllContinue-trans, AllContinue-added,
  AllContinue-settled, AllContinue-stepped, Advances-closed,
}
use launlog_api.Integrity.Requests.{
  Step, Reaches, creates, transitions, cancels, records, voids, adds_service, updates_service,
  deletes_service, begins, then,
}
use launlog_api.Integrity.Requests.Soundness.{Reaches-IsSound}

module _ (db : Db) (sound : IsSound db) where
  unchanged : (d : Db) → d ≡ db → AllContinue db d
  unchanged d same = subst (AllContinue db) (sym same) (AllContinue-refl db)

  restocked : (d : Db) → (d ≡ db) ⊎ Restocked db d → AllContinue db d
  restocked d (inl same) = unchanged d same
  restocked d (inr c) =
      subst (AllContinue db) (sym c.leaves)
        (record { at = λ b i o found. (o, found, Continues-refl o) })

  Step-AllContinue : (d : Db) → Step db d → AllContinue db d
  Step-AllContinue d (creates actor input env (err e) h) =
      unchanged d (create_error actor input env db h)
  Step-AllContinue d (creates actor input env (ok r) h) =
      elim (create_answer actor input env db sound.in_range.priced h) [
        | inl c ↦
            AllContinue-added db d (order_of actor input env db c.outlet c.bill.0)
              (IsCreated-orders actor input env db c)
        | inr same ↦ unchanged d same.unchanged
      ]
  Step-AllContinue d (transitions actor i to_status notes env (err e) h) =
      unchanged d (transition_status_error actor i to_status notes env db h)
  Step-AllContinue d (transitions actor i to_status notes env (ok r) h) =
      let (_, s) = transition_status-Stepped actor i env db to_status notes h in
      AllContinue-stepped db d actor.business_id i (transitioned to_status env.now) to_status
        s.before (transitioned-KeepsMoney to_status env.now).key
        (IsLocked-key actor i db sound.timeline.unique s.locked) s.allowed
        (λ o. (refl, refl, refl, refl)) (ap (λ (x : Db). x.orders) s.leaves)
  Step-AllContinue d (cancels actor i reason env (err e) h) =
      unchanged d (cancel_error actor i reason env db h)
  Step-AllContinue d (cancels actor i reason env (ok r) h) =
      let (s, _) = cancel-Stepped actor i env db reason h in
      let change = marked_cancelled actor.user_id (trim_space reason) env.now in
      AllContinue-stepped db d actor.business_id i change cancelled s.before
        (marked_cancelled-KeepsMoney actor.user_id (trim_space reason) env.now).key
        (IsLocked-key actor i db sound.timeline.unique s.locked) s.allowed
        (λ o. (refl, refl, refl, refl)) (ap (λ (x : Db). x.orders) s.leaves)
  Step-AllContinue d (records actor i input env (err e) range h) =
      unchanged d (record_payment_error actor i input env db h)
  Step-AllContinue d (records actor i input env (ok r) range h) =
      elim (record_payment_wrote actor i input env db h).2 [
        | inl again ↦
            unchanged d (record_payment_replayed actor i env db input sound.ledger range h again).0
        | inr w ↦
            AllContinue-settled db d actor.business_id w.o.outlet_id i env.now w.status
              (ap (λ (x : Db). x.orders) w.leaves)
      ]
  Step-AllContinue d (voids actor i payment_id reason env (err e) h) =
      unchanged d (void_payment_error actor i payment_id reason env db h)
  Step-AllContinue d (voids actor i payment_id reason env (ok r) h) =
      elim (void_payment_wrote actor i payment_id env reason db h) [
        | inl same ↦ unchanged d same
        | inr v ↦
            AllContinue-settled db d actor.business_id v.outlet_id i env.now v.status
              (ap (λ (x : Db). x.orders) v.leaves)
      ]
  Step-AllContinue d (adds_service actor input env r h) =
      restocked d (catalog_create_wrote actor env db input r d h)
  Step-AllContinue d (updates_service actor i input env r h) =
      restocked d (catalog_update_wrote actor env db i input r d h)
  Step-AllContinue d (deletes_service actor i env r h) =
      restocked d (catalog_delete_wrote actor env db i r d h)

-- From sound tables, over any sequence of requests with int64 tenders, no order disappears: its
-- total, its customer and its invoice number never change, and its status is the same or follows by
-- transitions that the status matrix allows.
pub Reaches-Continues :
    (db d : Db) (b i : ℕ) (o : Order)
    → IsSound db
    → Reaches db d
    → find? (is_order b i) db.orders ≡ some o
    → (o' : Order) × (find? (is_order b i) d.orders ≡ some o') × Continues o o'
Reaches-Continues db d b i o sound steps found = (all d steps).at b i o found
  where
    all : (d : Db) → Reaches db d → AllContinue db d
    all d begins = AllContinue-refl db
    all d (then c _ before s) =
        AllContinue-trans db c d (all c before)
          (Step-AllContinue c (Reaches-IsSound db c sound before) d s)

-- From sound tables, over any sequence of requests with int64 tenders, an order that is completed or
-- cancelled keeps its status.
pub Reaches-final :
    (db d : Db) (b i : ℕ) (o : Order)
    → IsSound db
    → Reaches db d
    → find? (is_order b i) db.orders ≡ some o
    → (is_completed o.status ≡ true) ⊎ (is_cancelled o.status ≡ true)
    → (o' : Order) × (find? (is_order b i) d.orders ≡ some o') × (o'.status ≡ o.status)
Reaches-final db d b i o sound steps found closed =
    let (o', found', c) = Reaches-Continues db d b i o sound steps found in
    (o', found', Advances-closed o.status o'.status c.follows closed)
