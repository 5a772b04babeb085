-- ===== src/Orders/Creation/Outcome.antt =====
-- What `Create` answers when it succeeds, and the tables that it leaves.
use launlog_api.Prelude.{true, false, ◌≡◌, ◌⊎◌, inl, inr, Option, none, some, List, arith, refl, ap}
use launlog_api.Prelude.Int.{ℤ, pos}
use launlog_api.Prelude.Text.{Text}
use launlog_api.Store.{Db, Order, Outlet, AuditLog, received}
use launlog_api.Effect.{Env, ok}
use launlog_api.Effect.Hoare.{
  Ensures, Ensures-pure, Ensures-bind, Ensures-or_no_rows, Ensures-query_one, Ensures-transaction,
  Ensures-ok, after_read, after_asks, after_query, after_insert_one, after_exec, after_raise_if,
  Ensures-weaken,
}
use launlog_api.Query.Creation as Sql
use launlog_api.Query.Lifecycle.{add_audit, add_history}
use launlog_api.Actor.{Actor}
use launlog_api.Payments.Steps.{same_hash}
use launlog_api.Orders.Lines.{CalculatedLine}
use launlog_api.Orders.Lines.Bill.{IsPriced, IsBill, calculate_lines-Reads}
use launlog_api.Orders.Views.{CreateOrderInput, OrderCreationResult}
use launlog_api.Orders.Creation.{
  PerfumeChoice, write_order, create_new, replay_order, replay_or_create, create_body, create,
  invoice_number_of,
}
use launlog_api.Orders.Creation.Reading.{
  IsAssigned, shown, load_order-Reads, after_order_time, check_staff_outlet-Reads,
  choose_perfume-Reads,
}
use launlog_api.Orders.Creation.Writes.{create_items-Writes, created}

module _ (actor : Actor) (input : CreateOrderInput) (env : Env) (db : Db) where
  -- The row of a new order, of a total, at an outlet.
  abbrev pub order_of : Outlet → ℤ → Order
  order_of outlet total =
      let number =
        (Sql.allocate_invoice_number actor.business_id input.outlet_id env.today env db).0 in
      Sql.new_order actor.business_id input.outlet_id outlet.code input.customer_id
        (invoice_number_of outlet.code number.0 number.1) total input.notes env.now input.due_at
        actor.user_id input.idempotency_key input.request_hash env db

  -- A new order: its row has the total of the bill for the requested items, its items are the lines
  -- of the bill, and the answer is the row as the tables then hold it.
  pub record IsCreated (r : OrderCreationResult) (d : Db) : Type 0 where
    pub outlet : Outlet
    pub perfume : PerfumeChoice
    pub bill : ℤ × List CalculatedLine
    pub log : AuditLog
    pub is_outlet : Sql.get_active_order_outlet actor.business_id input.outlet_id db ≡ some outlet
    pub assigned : IsAssigned actor input.outlet_id db
    pub unused_key :
        Sql.get_order_by_idempotency_key actor.business_id input.outlet_id input.idempotency_key db
        ≡ none
    pub chosen : perfume.id ≡ input.perfume_id
    pub is_bill : IsBill actor.business_id db (pos 0) input.items bill
    pub leaves : d ≡ created (order_of outlet bill.0) perfume bill.1 actor.user_id log env db
    pub answers : r.order ≡ shown d (order_of outlet bill.0) outlet.timezone
    pub is_new : r.replayed ≡ false

  -- A retry: the order that the key names has the same request hash, and nothing is written.
  pub record IsReplayed (r : OrderCreationResult) (d : Db) : Type 0 where
    pub existing : Order
    pub timezone : Text
    pub used_key :
        Sql.get_order_by_idempotency_key actor.business_id input.outlet_id input.idempotency_key db
        ≡ some (existing, timezone)
    pub same_request : same_hash existing.request_hash input.request_hash ≡ true
    pub unchanged : d ≡ db
    pub answers : r.order ≡ shown db existing timezone
    pub is_replay : r.replayed ≡ true

  replay-IsReplayed :
      (existing : Order) (timezone : Text)
      → Sql.get_order_by_idempotency_key actor.business_id input.outlet_id input.idempotency_key db
        ≡ some (existing, timezone)
      → Ensures env (replay_order input (existing, timezone)) db IsReplayed
  unfolding replay_order
  replay-IsReplayed existing timezone used = after_raise_if _ _ _ λ same.
      after_read _ _ (load_order-Reads env db existing timezone) λ v e. Ensures-pure _ (record {
        existing = existing;
        timezone = timezone;
        used_key = used;
        same_request = ground arith;
        unchanged = refl;
        answers = e;
        is_replay = refl;
      })

  module _ (outlet : Outlet)
      (is_outlet : Sql.get_active_order_outlet actor.business_id input.outlet_id db ≡ some outlet)
      (assigned : IsAssigned actor input.outlet_id db)
      (unused : Sql.get_order_by_idempotency_key actor.business_id input.outlet_id
          input.idempotency_key db
        ≡ none) where
    write_order-IsCreated :
        (perfume : PerfumeChoice) (bill : ℤ × List CalculatedLine)
        → perfume.id ≡ input.perfume_id
        → IsBill actor.business_id db (pos 0) input.items bill
        → Ensures env (write_order actor input outlet perfume bill) db IsCreated
    unfolding write_order Sql.allocate_invoice_number Sql.create_order
        Sql.create_initial_order_status Sql.insert_order_audit_log
    write_order-IsCreated perfume (total, lines) chosen is_bill = after_order_time env db _ (
        after_asks _ _ (
          after_raise_if _ _ _ λ _. after_insert_one _ _ _ (
            after_insert_one _ _ _ (
              Ensures-bind _ _ (create_items-Writes (order_of outlet total) perfume 0 lines env _)
                λ _ d is_d. after_exec _ _ _ (
                  after_exec _ _ _ (
                    after_read _ _ (load_order-Reads env _ (order_of outlet total) outlet.timezone)
                      λ v e. Ensures-pure _ (record {
                        outlet = outlet;
                        perfume = perfume;
                        bill = (total, lines);
                        log = _;
                        is_outlet = is_outlet;
                        assigned = assigned;
                        unused_key = unused;
                        chosen = chosen;
                        is_bill = is_bill;
                        leaves = ap (add_audit _) (
                            ap
                              (add_history actor.business_id input.outlet_id db.next_order_id none
                                received actor.user_id none env)
                              is_d);
                        answers = e;
                        is_new = refl;
                      })))))))

    create_new-IsCreated : IsPriced db → Ensures env (create_new actor input outlet) db IsCreated
    unfolding create_new
    create_new-IsCreated priced =
        after_read _ _ {S = λ _. Unit}
          (Ensures-or_no_rows _ _ (Ensures-query_one _ _ (λ _ _. (refl, tt))))
          λ _ _.
            after_read _ _ (choose_perfume-Reads env db actor input.perfume_id) λ perfume chosen.
              after_read _ _
                (calculate_lines-Reads actor env db priced 0 (pos 0) input.items (omega arith)
                  (omega arith, omega arith))
                λ bill is_bill. write_order-IsCreated perfume bill chosen is_bill

  -- What a successful answer of `Create` promises.
  abbrev pub Answered : OrderCreationResult → Db → Type 0
  Answered r d = IsCreated r d ⊎ IsReplayed r d

  replay_or_create-Answered :
      (outlet : Outlet) (existing : Option (Order × Text))
      → IsPriced db
      → Sql.get_active_order_outlet actor.business_id input.outlet_id db ≡ some outlet
      → IsAssigned actor input.outlet_id db
      → Sql.get_order_by_idempotency_key actor.business_id input.outlet_id input.idempotency_key db
        ≡ existing
      → Ensures env (replay_or_create actor input outlet existing) db Answered
  replay_or_create-Answered outlet none priced found assigned unused =
      Ensures-weaken _ (create_new-IsCreated outlet found assigned unused priced) λ _ _ c. inl c
  replay_or_create-Answered outlet (some (existing, timezone)) priced found assigned used =
      Ensures-weaken _ (replay-IsReplayed existing timezone used) λ _ _ c. inr c

  create-Answered : IsPriced db → Ensures env (create actor input) db Answered
  unfolding create create_body
  create-Answered priced = after_raise_if _ _ _ λ _. after_raise_if _ _ _ λ _.
      after_raise_if _ _ _ λ _. after_raise_if _ _ _ λ _. after_raise_if _ _ _ λ _.
        Ensures-transaction _ (
          after_query _ _ _ (
            after_read _ _
              (Ensures-or_no_rows _ _ (Ensures-query_one _ _ (λ outlet found. (refl, found))))
              λ outlet found.
                after_read _ _ (check_staff_outlet-Reads env db actor input.outlet_id) λ _ assigned.
                  after_query _ _ _
                    (replay_or_create-Answered outlet _ priced found assigned refl)))

  -- The answer of a success of `Create`.
  pub create_answer :
      IsPriced db
      → {r : OrderCreationResult} {d : Db} → create actor input env db ≡ (ok r, d)
      → Answered r d
  create_answer priced h = Ensures-ok (create-Answered priced) h
