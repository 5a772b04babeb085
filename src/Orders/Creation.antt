-- ===== src/Orders/Creation.antt =====
-- `OrderCatalog.Create`.
pub mod Writes
pub mod Billed
pub mod Reading
pub mod Outcome
pub mod Numbers
pub mod Retry
use launlog_api.Prelude.{
  ℕ, ◌+◌, Bool, true, false, not, ◌||◌, ◌&&◌, Option, none, some, List, [], ◌∷◌, ◌++◌, map, ltb,
  ◌==◌, length, exists, if◌then◌else◌,
}
use launlog_api.Prelude.Int.{ℤ, pos}
use launlog_api.Prelude.Text.{Text}
use launlog_api.Prelude.Digits.{digits, padded}
use launlog_api.Store.{Order, OrderItem, Outlet, Perfume, AuditItem, is_admin, created_values}
use launlog_api.Effect.{
  M, pure, raise_if, asks, query, query_one, insert_one, exec, or_no_rows, transaction, ◌>>=◌, ◌>>◌,
  lock_order_idempotency, get_active_order_outlet, get_active_staff_order_outlet,
  get_order_by_idempotency_key, get_active_order_customer, get_active_order_perfume, get_order_time,
  allocate_invoice_number, create_order, create_order_item, create_initial_order_status,
  insert_order_audit_log, invalid_order, order_outlet_forbidden, order_not_found,
  order_idempotency_conflict, order_customer_not_found, order_perfume_not_found,
  order_due_at_before_receive,
}
use launlog_api.Query.Creation as Sql
use launlog_api.Actor.{Actor, is_anonymous, contains_outlet, audit_user_agent}
use launlog_api.Payments.Steps.{same_hash}
use launlog_api.Orders.Lines.{OrderItemInput, CalculatedLine, calculate_lines}
use launlog_api.Orders.Views.{CreateOrderInput, OrderCreationResult}
use launlog_api.Orders.Loading.{load_order}

-- `perfumeID` and `perfumeSnapshot`.
pub record PerfumeChoice : Type 0 where
  pub id : Option ℕ
  pub name : Option Text

abbrev pub no_perfume : PerfumeChoice
no_perfume = record { id = none; name = none }

-- `fmt.Sprintf("%s-%s-%06d", code, date, sequence)`, where a date is the number that it writes as
-- yyyymmdd.
unfoldable pub invoice_number_of : Text → ℕ → ℕ → Text
invoice_number_of code date sequence = code ++ 45 ∷ (padded 8 date ++ 45 ∷ padded 6 sequence)

-- The assignment of staff to the outlet.
unfoldable pub check_staff_outlet : Actor → ℕ → M (Unit {0})
check_staff_outlet actor outlet_id = if is_admin actor.role then pure tt else do
  _ ← or_no_rows order_outlet_forbidden (
      query_one get_active_staff_order_outlet
        (Sql.get_active_staff_order_outlet actor.business_id actor.user_id outlet_id))
  pure tt

unfoldable pub choose_perfume : Actor → Option ℕ → M PerfumeChoice
choose_perfume actor none = pure no_perfume
choose_perfume actor (some perfume_id) = do
  p ← or_no_rows order_perfume_not_found (
      query_one get_active_order_perfume
        (Sql.get_active_order_perfume actor.business_id perfume_id))
  pure (record { id = some p.id; name = some p.name })

-- The row of a line; its id is the database's.
abbrev pub item_of : Order → PerfumeChoice → CalculatedLine → OrderItem
item_of o perfume line = record {
  id = 0;
  business_id = o.business_id;
  outlet_id = o.outlet_id;
  order_id = o.id;
  service_id = line.input.service_id;
  perfume_id = perfume.id;
  service_name_snapshot = line.service_name;
  service_unit_snapshot = line.unit;
  unit_price_amount_snapshot = line.price;
  perfume_name_snapshot = perfume.name;
  quantity = pos line.milli;
  line_total_amount = line.line_total;
  notes = line.input.notes;
}

unfoldable pub create_items : Order → PerfumeChoice → ℕ → List CalculatedLine → M (Unit {0})
create_items o perfume round [] = pure tt
create_items o perfume round (line ∷ lines) = do
  exec (create_order_item round) (Sql.create_order_item (item_of o perfume line))
  create_items o perfume (round + 1) lines

abbrev pub audit_item : Option ℕ → PerfumeChoice → CalculatedLine → AuditItem
audit_item perfume_id perfume line = record {
  service_id = line.input.service_id;
  service_name = line.service_name;
  service_unit = line.unit;
  unit_price_amount = line.price;
  quantity = line.input.quantity;
  line_total_amount = line.line_total;
  perfume_id = perfume_id;
  perfume_name = perfume.name;
}

abbrev pub is_before : Option ℕ → ℕ → Bool
is_before none t = false
is_before (some d) t = ltb d t

-- What is written once the lines are known: the number, the order, its items, its first status and
-- the audit.
unfoldable pub write_order :
    Actor
    → CreateOrderInput
    → Outlet
    → PerfumeChoice
    → ℤ × List CalculatedLine
    → M OrderCreationResult
write_order actor input outlet perfume (total, lines) = do
  received_at ← query get_order_time (λ _. tt {0}) >> asks (λ env. env.now)
  today ← asks (λ env. env.today)
  raise_if (is_before input.due_at received_at) order_due_at_before_receive
  allocated ←
      insert_one allocate_invoice_number
        (Sql.allocate_invoice_number actor.business_id input.outlet_id today)
  let invoice_number = invoice_number_of outlet.code allocated.0 allocated.1
  o ← insert_one create_order (
      Sql.create_order actor.business_id input.outlet_id outlet.code input.customer_id
        invoice_number total input.notes received_at input.due_at actor.user_id
        input.idempotency_key input.request_hash)
  create_items o perfume 0 lines
  exec create_initial_order_status
      (Sql.create_initial_order_status actor.business_id input.outlet_id o.id actor.user_id)
  exec insert_order_audit_log (
      Sql.insert_order_audit_log actor.business_id (some input.outlet_id) (some actor.user_id)
        (some o.id)
        (created_values invoice_number input.customer_id total input.due_at (length lines)
          (map (audit_item input.perfume_id perfume) lines) input.perfume_id)
        actor.ip (audit_user_agent actor))
  view ← load_order o outlet.timezone
  pure (record { order = view; replayed = false })

-- A first request: the customer, the perfume and the services are read, and the lines calculated.
unfoldable pub create_new : Actor → CreateOrderInput → Outlet → M OrderCreationResult
create_new actor input outlet = do
  _ ← or_no_rows order_customer_not_found (
      query_one get_active_order_customer
        (Sql.get_active_order_customer actor.business_id input.customer_id))
  perfume ← choose_perfume actor input.perfume_id
  calculated ← calculate_lines actor 0 (pos 0) input.items
  write_order actor input outlet perfume calculated

-- The answer to a retry: the order that the key already names.
unfoldable pub replay_order : CreateOrderInput → Order × Text → M OrderCreationResult
replay_order input (existing, timezone) = do
  raise_if (not (same_hash existing.request_hash input.request_hash)) order_idempotency_conflict
  view ← load_order existing timezone
  pure (record { order = view; replayed = true })

abbrev pub replay_or_create :
    Actor → CreateOrderInput → Outlet → Option (Order × Text) → M OrderCreationResult
replay_or_create actor input outlet none = create_new actor input outlet
replay_or_create actor input outlet (some existing) = replay_order input existing

-- The transaction of `Create`. The advisory lock has no row; a key that names no order is the
-- driver's ErrNoRows.
unfoldable pub create_body : Actor → CreateOrderInput → M OrderCreationResult
create_body actor input = do
  query lock_order_idempotency (λ _. tt {0})
  outlet ← or_no_rows order_not_found (
      query_one get_active_order_outlet
        (Sql.get_active_order_outlet actor.business_id input.outlet_id))
  check_staff_outlet actor input.outlet_id
  existing ←
      query get_order_by_idempotency_key
        (Sql.get_order_by_idempotency_key actor.business_id input.outlet_id input.idempotency_key)
  replay_or_create actor input outlet existing

abbrev pub is_zero : Option ℕ → Bool
is_zero none = false
is_zero (some i) = ltb i 1

unfoldable pub create : Actor → CreateOrderInput → M OrderCreationResult
create actor input = do
  raise_if
      (ltb input.outlet_id 1
        || ltb input.customer_id 1
        || length input.items == 0
        || length input.idempotency_key == 0
        || not (length input.request_hash == 32))
      invalid_order
  raise_if (is_anonymous actor) invalid_order
  raise_if (not (is_admin actor.role) && not (contains_outlet actor.outlet_ids input.outlet_id))
      order_outlet_forbidden
  raise_if (exists (λ (item : OrderItemInput). ltb item.service_id 1) input.items) invalid_order
  raise_if (is_zero input.perfume_id) invalid_order
  transaction (create_body actor input)
