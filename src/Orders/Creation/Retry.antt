-- ===== src/Orders/Creation/Retry.antt =====
-- A retry of `Create`, after the request has created its order.
use mathlib.Core.List.{append_assoc}
use launlog_api.Prelude.{
  true, false, ◌&&◌, ◌||◌, not, ◌≡◌, inl, inr, none, some, List, [], ◌∷◌, ◌++◌, ◌==◌, find?, select,
  length, exists, select-append, arith, refl, sym, ap, ◌∙◌, ==_refl, eq_text_refl, ltb, Bool-cases,
}
use launlog_api.Prelude.Text.{Text}
use launlog_api.Store.{Db, Order, Outlet, is_admin}
use launlog_api.Effect.{
  M, Env, ok, transaction, raise_if, ◌>>◌, invalid_order, order_outlet_forbidden,
}
use launlog_api.Effect.Run.{
  IsHealthy, passed, run_raise_if, run_pure, run_bind, run_query, run_transaction, run_or_no_rows,
  query_one_ok,
}
use launlog_api.Query.Creation as Sql
use launlog_api.Query.Creation.{of_key, head?}
use launlog_api.Query.Listing.{joined, with_timezones}
use launlog_api.Actor.{Actor, is_anonymous, contains_outlet}
use launlog_api.Orders.Lines.{OrderItemInput}
use launlog_api.Orders.Lines.Bill.{IsPriced}
use launlog_api.Orders.Views.{CreateOrderInput, OrderCreationResult, OrderView, order_from}
use launlog_api.Orders.Loading.{load_order}
use launlog_api.Orders.Creation.{
  create, create_body, check_staff_outlet, replay_order, replay_or_create, is_zero,
}
use launlog_api.Orders.Creation.Reading.{shown}
use launlog_api.Orders.Creation.Outcome.{IsCreated, order_of, create_answer}

-- The guards of `Create`, before its transaction.
abbrev guarded : Actor → CreateOrderInput → M OrderCreationResult → M OrderCreationResult
guarded actor input m = do
  raise_if
      (ltb input.outlet_id 1
        || ltb input.customer_id 1
        || length input.items == 0
        || length input.idempotency_key == 0
        || not (length input.request_hash == 32))
      invalid_order
  raise_if (is_anonymous actor) invalid_order
  raise_if (not (is_admin actor.role) && not (contains_outlet actor.outlet_ids input.outlet_id))
      order_outlet_forbidden
  raise_if (exists (λ (item : OrderItemInput). ltb item.service_id 1) input.items) invalid_order
  raise_if (is_zero input.perfume_id) invalid_order
  m

-- The guards look at the request alone: what passed them once passes them again.
guarded_again :
    (actor : Actor) (input : CreateOrderInput) (m n : M OrderCreationResult) (env env' : Env)
    (db d d' : Db) {r : OrderCreationResult}
    → guarded actor input m env db ≡ (ok r, d)
    → guarded actor input n env' d' ≡ n env' d'
guarded_again actor input m n env env' db d d' h =
    let (a, h) = passed env _ _ _ h in
    let (b, h) = passed env _ _ _ h in
    let (c, h) = passed env _ _ _ h in
    let (e, h) = passed env _ _ _ h in
    let (f, h) = passed env _ _ _ h in
    run_raise_if _ _ _ a
    ∙ (run_raise_if _ _ _ b
        ∙ (run_raise_if _ _ _ c ∙ (run_raise_if _ _ _ e ∙ run_raise_if _ _ _ f)))

head?-none {ℓ} : {A : Type ℓ} (xs : List A) → head? xs ≡ none → xs ≡ []
head?-none [] h = refl
head?-none (x ∷ xs) h = cc

joined-append {ℓ κ} :
    {A : Type ℓ} {B : Type κ} (m : A → List B) (xs ys : List A)
    → joined m (xs ++ ys) ≡ joined m xs ++ joined m ys
joined-append m [] ys = refl
joined-append m (x ∷ xs) ys =
    ap (λ rest. m x ++ rest) (joined-append m xs ys) ∙ sym (append_assoc (m x) (joined m xs) _)

-- An order of an active outlet joins at least one row of `outlets`.
joins_outlet :
    (o : Order) (outlets : List Outlet) {t : Outlet}
    → find? (λ t. t.business_id == o.business_id && t.id == o.outlet_id && t.is_active) outlets
      ≡ some t
    → (timezone : Text) × (head? (joined (with_timezones outlets) (o ∷ [])) ≡ some (o, timezone))
joins_outlet o [] found = cc
joins_outlet o (x ∷ outlets) {t} found =
    elim (Bool-cases (x.business_id == o.business_id && x.id == o.outlet_id)) [
      | inl hit ↦ (x.timezone, rw hit refl)
      | inr miss ↦
          let (timezone, joins) = joins_outlet o outlets {t = t} (ground arith) in
          (timezone, rw miss joins)
    ]

module _ (actor : Actor) (input : CreateOrderInput) (env : Env) (db : Db) {r : OrderCreationResult}
    {d : Db} (c : IsCreated actor input env db r d) where
  abbrev o : Order
  o = order_of actor input env db c.outlet c.bill.0

  selects_o :
      select (of_key actor.business_id input.outlet_id input.idempotency_key) (o ∷ []) ≡ o ∷ []
  selects_o =
      rw (==_refl actor.business_id, ==_refl input.outlet_id, eq_text_refl input.idempotency_key)
        refl

  joined_after :
      joined (with_timezones db.outlets) (
        select
          (of_key actor.business_id input.outlet_id input.idempotency_key)
          (db.orders ++ o ∷ []))
      ≡ joined (with_timezones db.outlets) (o ∷ [])
  unfolding Sql.get_order_by_idempotency_key
  joined_after =
      ap (joined (with_timezones db.outlets)) (
        select-append (of_key actor.business_id input.outlet_id input.idempotency_key) db.orders
          (o ∷ [])
        ∙ ap
            (λ rest.
              select (of_key actor.business_id input.outlet_id input.idempotency_key) db.orders
              ++ rest)
            selects_o)
      ∙ (joined-append (with_timezones db.outlets) _ (o ∷ [])
          ∙ ap (λ rows. rows ++ joined (with_timezones db.outlets) (o ∷ []))
              (head?-none _ c.unused_key))

  key_found :
      (timezone : Text) × (Sql.get_order_by_idempotency_key actor.business_id input.outlet_id
          input.idempotency_key d
        ≡ some (o, timezone))
  unfolding Sql.get_order_by_idempotency_key Sql.get_active_order_outlet Sql.allocate_invoice_number
  key_found =
      let (timezone, joins) = joins_outlet o db.outlets {t = c.outlet} c.is_outlet in
      (
        timezone,
        ap
              (Sql.get_order_by_idempotency_key actor.business_id input.outlet_id
                input.idempotency_key)
              c.leaves
            ∙ (ap head? joined_after ∙ joins),
      )

  module _ (env' : Env) (healthy : IsHealthy env') where
    outlet_again : Sql.get_active_order_outlet actor.business_id input.outlet_id d ≡ some c.outlet
    unfolding Sql.get_active_order_outlet Sql.allocate_invoice_number
    outlet_again =
        ap (Sql.get_active_order_outlet actor.business_id input.outlet_id) c.leaves ∙ c.is_outlet

    staff_same :
        Sql.get_active_staff_order_outlet actor.business_id actor.user_id input.outlet_id d
        ≡ Sql.get_active_staff_order_outlet actor.business_id actor.user_id input.outlet_id db
    unfolding Sql.get_active_staff_order_outlet Sql.allocate_invoice_number
    staff_same =
        ap (Sql.get_active_staff_order_outlet actor.business_id actor.user_id input.outlet_id)
          c.leaves

    staff_again : check_staff_outlet actor input.outlet_id env' d ≡ (ok tt, d)
    unfolding check_staff_outlet
    staff_again = elim (Bool-cases (is_admin actor.role)) [
      | inl admin ↦ rw admin (run_pure tt env' d)
      | inr staff ↦ rw staff (elim c.assigned [
        | inl admin ↦ cc
        | inr (u, found) ↦
            run_bind _ _ (run_or_no_rows _ _ (query_one_ok _ _ healthy (staff_same ∙ found)))
            ∙ run_pure tt env' d
      ])
    ]

    replay_again :
        (timezone : Text)
        → replay_order input (o, timezone) env' d
          ≡ (ok (record { order = shown d o timezone; replayed = true }), d)
    unfolding replay_order load_order
    replay_again timezone =
        run_raise_if _ _ _ (rw (eq_text_refl input.request_hash) refl)
        ∙ (run_bind (load_order o timezone) _ (run_query _ _ _ healthy ∙ run_pure _ env' d)
            ∙ run_pure _ env' d)

    body_again :
        (timezone : Text)
        → Sql.get_order_by_idempotency_key actor.business_id input.outlet_id input.idempotency_key d
          ≡ some (o, timezone)
        → create_body actor input env' d
          ≡ (ok (record { order = shown d o timezone; replayed = true }), d)
    unfolding create_body
    body_again timezone found =
        run_query _ _ _ healthy
        ∙ (run_bind _ _ (run_or_no_rows _ _ (query_one_ok _ _ healthy outlet_again))
            ∙ (run_bind _ _ staff_again
                ∙ (run_query _ _ _ healthy
                    ∙ (ap (λ existing. replay_or_create actor input c.outlet existing env' d) found
                        ∙ replay_again timezone))))

-- After `Create` has created an order, the same request of the same actor succeeds again when the
-- calls of the database succeed: it writes nothing, is marked as replayed, and answers with the same
-- order, by its id, invoice number, total and items.
pub create_retry :
    (actor : Actor) (input : CreateOrderInput) (env env' : Env) (db : Db) {r : OrderCreationResult}
    {d : Db}
    → IsPriced db
    → IsHealthy env'
    → create actor input env db ≡ (ok r, d)
    → r.replayed ≡ false
    → (r' : OrderCreationResult) × (create actor input env' d ≡ (ok r', d))
      × (r'.replayed ≡ true)
      × (r'.order.id ≡ r.order.id)
      × (r'.order.invoice_number ≡ r.order.invoice_number)
      × (r'.order.total_amount ≡ r.order.total_amount)
      × (r'.order.items ≡ r.order.items)
unfolding create order_from
create_retry actor input env env' db {r} {d} priced healthy h new =
    elim (create_answer actor input env db priced h) [
      | inl c ↦
          let (timezone, found) = key_found actor input env db c in
          (
            record {
              order = shown d (order_of actor input env db c.outlet c.bill.0) timezone;
              replayed = true;
            },
            guarded_again actor input (transaction (create_body actor input))
                  (transaction (create_body actor input)) env env' db d d h
                ∙ run_transaction _ healthy
                    (body_again actor input env db c env' healthy timezone found),
            refl,
            sym (ap (λ (v : OrderView). v.id) c.answers),
            sym (ap (λ (v : OrderView). v.invoice_number) c.answers),
            sym (ap (λ (v : OrderView). v.total_amount) c.answers),
            sym (ap (λ (v : OrderView). v.items) c.answers),
          )
      | inr same ↦ cc (new, same.is_replay)
    ]
