-- ===== src/Integrity/Requests/Soundness.antt =====
-- Requests keep the state sound.
use launlog_api.Prelude.{ℕ, ◌≡◌, ◌⊎◌, inl, inr, refl, sym, subst}
use launlog_api.Prelude.Int.{InInt64}
use launlog_api.Store.{Db, cancelled}
use launlog_api.Effect.{Env, ok, err}
use launlog_api.Query.Lifecycle.{transitioned}
use launlog_api.Actor.{Actor}
use launlog_api.Services.Restocked.{
  Restocked, catalog_create_wrote, catalog_update_wrote, catalog_delete_wrote,
}
use launlog_api.Payments.Views.{RecordPaymentInput, PaymentRecordResult}
use launlog_api.Payments.Record.{record_payment}
use launlog_api.Ledger.Outcomes.{
  record_payment_error, void_payment_error, record_payment-IsLedger, void_payment-IsLedger,
  record_payment_replayed,
}
use launlog_api.Ledger.Retry.{record_payment_wrote}
use launlog_api.Ledger.Voided.{void_payment_wrote}
use launlog_api.Timeline.Changes.{transition_status_error, cancel_error}
use launlog_api.Timeline.Steps.{transition_status-Stepped, cancel-Stepped}
use launlog_api.Timeline.Outcomes.{
  transition_status-IsTimeline, cancel-IsTimeline, transition_status-IsLedger, cancel-IsLedger,
}
use launlog_api.Timeline.Payments.{record_payment-IsTimeline, void_payment-IsTimeline}
use launlog_api.Ledger.{IsLedger}
use launlog_api.Timeline.{IsTimeline}
use launlog_api.Integrity.{IsInRange, IsSound}
use launlog_api.Integrity.Creation.{create-IsSound}
use launlog_api.Integrity.Ids.{Stepped-IsInRange, Wrote-IsInRange, Voided-IsInRange}
use launlog_api.Integrity.Requests.{
  Step, Reaches, creates, transitions, cancels, records, voids, adds_service, updates_service,
  deletes_service, begins, then,
}

module _ (db : Db) (sound : IsSound db) where
  fresh_after_record :
      (actor : Actor) (i : ℕ) (input : RecordPaymentInput) (env : Env) {r : PaymentRecordResult}
      {d : Db}
      → InInt64 input.tendered_amount
      → record_payment actor i input env db ≡ (ok r, d)
      → IsInRange d
  fresh_after_record actor i input env range h =
      elim (record_payment_wrote actor i input env db h).2 [
        | inl again ↦
            subst IsInRange
              (sym (record_payment_replayed actor i env db input sound.ledger range h again).0)
              sound.in_range
        | inr w ↦ Wrote-IsInRange db sound.in_range actor i input env sound.timeline.unique w
      ]

  -- The catalog of services leaves the orders alone.
  Restocked-IsSound : (d : Db) → (d ≡ db) ⊎ Restocked db d → IsSound d
  Restocked-IsSound d (inl same) = subst IsSound (sym same) sound
  Restocked-IsSound d (inr c) = subst IsSound (sym c.leaves) (record {
    ledger = sound.ledger;
    timeline = record { unique = sound.timeline.unique; tracked = sound.timeline.tracked };
    in_range = record {
      orders_below = sound.in_range.orders_below;
      items_below = sound.in_range.items_below;
      payments_below = sound.in_range.payments_below;
      history_below = sound.in_range.history_below;
      priced = c.priced sound.in_range.priced;
    };
  })

  Step-IsInRange : (d : Db) → Step db d → IsInRange d
  Step-IsInRange d (creates actor input env r h) =
      (create-IsSound actor input env db sound r d h).in_range
  Step-IsInRange d (transitions actor i to_status notes env (err e) h) =
      subst IsInRange (sym (transition_status_error actor i to_status notes env db h))
        sound.in_range
  Step-IsInRange d (transitions actor i to_status notes env (ok r) h) =
      Stepped-IsInRange db sound.in_range actor i to_status (transitioned to_status env.now) env
        sound.timeline.unique (λ o. refl)
        (transition_status-Stepped actor i env db to_status notes h).1
  Step-IsInRange d (cancels actor i reason env (err e) h) =
      subst IsInRange (sym (cancel_error actor i reason env db h)) sound.in_range
  Step-IsInRange d (cancels actor i reason env (ok r) h) =
      Stepped-IsInRange db sound.in_range actor i cancelled _ env sound.timeline.unique (λ o. refl)
        (cancel-Stepped actor i env db reason h).0
  Step-IsInRange d (records actor i input env (err e) range h) =
      subst IsInRange (sym (record_payment_error actor i input env db h)) sound.in_range
  Step-IsInRange d (records actor i input env (ok r) range h) =
      fresh_after_record actor i input env range h
  Step-IsInRange d (voids actor i payment_id reason env (err e) h) =
      subst IsInRange (sym (void_payment_error actor i payment_id reason env db h)) sound.in_range
  Step-IsInRange d (voids actor i payment_id reason env (ok r) h) =
      Voided-IsInRange actor i payment_id env db d sound.in_range
        (void_payment_wrote actor i payment_id env reason db h)
  Step-IsInRange d (adds_service actor input env r h) =
      (Restocked-IsSound d (catalog_create_wrote actor env db input r d h)).in_range
  Step-IsInRange d (updates_service actor i input env r h) =
      (Restocked-IsSound d (catalog_update_wrote actor env db i input r d h)).in_range
  Step-IsInRange d (deletes_service actor i env r h) =
      (Restocked-IsSound d (catalog_delete_wrote actor env db i r d h)).in_range

  Step-IsSound : (d : Db) → Step db d → IsSound d
  Step-IsSound d s = record {
    ledger = books d s;
    timeline = lives d s;
    in_range = Step-IsInRange d s;
  }
    where
      books : (d : Db) → Step db d → IsLedger d
      books d (creates actor input env r h) = (create-IsSound actor input env db sound r d h).ledger
      books d (transitions actor i to_status notes env r h) =
          transition_status-IsLedger actor i env db to_status notes sound.ledger r d h
      books d (cancels actor i reason env r h) =
          cancel-IsLedger actor i env db reason sound.ledger r d h
      books d (records actor i input env r range h) =
          record_payment-IsLedger actor i env db input sound.ledger range r d h
      books d (voids actor i payment_id reason env r h) =
          void_payment-IsLedger actor i env db payment_id reason sound.ledger r d h
      books d (adds_service actor input env r h) =
          (Restocked-IsSound d (catalog_create_wrote actor env db input r d h)).ledger
      books d (updates_service actor i input env r h) =
          (Restocked-IsSound d (catalog_update_wrote actor env db i input r d h)).ledger
      books d (deletes_service actor i env r h) =
          (Restocked-IsSound d (catalog_delete_wrote actor env db i r d h)).ledger

      lives : (d : Db) → Step db d → IsTimeline d
      lives d (creates actor input env r h) =
          (create-IsSound actor input env db sound r d h).timeline
      lives d (transitions actor i to_status notes env r h) =
          transition_status-IsTimeline actor i env db to_status notes sound.timeline r d h
      lives d (cancels actor i reason env r h) =
          cancel-IsTimeline actor i env db reason sound.timeline r d h
      lives d (records actor i input env r range h) =
          record_payment-IsTimeline actor i env db input sound.ledger range sound.timeline r d h
      lives d (voids actor i payment_id reason env r h) =
          void_payment-IsTimeline actor i env payment_id reason db sound.timeline r d h
      lives d (adds_service actor input env r h) =
          (Restocked-IsSound d (catalog_create_wrote actor env db input r d h)).timeline
      lives d (updates_service actor i input env r h) =
          (Restocked-IsSound d (catalog_update_wrote actor env db i input r d h)).timeline
      lives d (deletes_service actor i env r h) =
          (Restocked-IsSound d (catalog_delete_wrote actor env db i r d h)).timeline

-- Whatever requests `Create`, `TransitionStatus`, `Cancel`, `Record` and `Void` for orders, and
-- `Create`, `Update` and `Delete` for services, are made, in any order and with any outcome, sound tables stay sound, when the tenders are int64: the ledger
-- balances, each history leads to the status of its order, the ids in use stay
-- below the next, and no service has a price below zero.
pub Reaches-IsSound : (db d : Db) → IsSound db → Reaches db d → IsSound d
Reaches-IsSound db d sound begins = sound
Reaches-IsSound db d sound (then c _ before s) =
    Step-IsSound c (Reaches-IsSound db c sound before) d s
