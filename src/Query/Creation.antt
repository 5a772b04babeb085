-- ===== src/Query/Creation.antt =====
-- The statements of orders.sql.go that create an order or load one.
use launlog_api.Prelude.{
  ℕ, ◌+◌, Bool, true, false, ◌&&◌, ◌||◌, Option, none, some, List, [], ◌∷◌, ◌++◌, ◌==◌, find?,
  exists, select, update,
}
use launlog_api.Prelude.Int.{ℤ}
use launlog_api.Prelude.Text.{Text, Bytes}
use launlog_api.Store.{
  Db, Order, OrderItem, Outlet, Customer, Service, Perfume, InvoiceCounter, AuditValues, received,
  unpaid, order_created, order_entity, no_values,
}
use launlog_api.Effect.{Env}
use launlog_api.Query.Lifecycle.{is_order, assigned_to, add_history, add_audit}
use launlog_api.Query.Payments.{has_key}
use launlog_api.Query.Listing.{joined, with_timezones, sort_by, earlier}

abbrev pub is_absent {ℓ} : {A : Type ℓ} → Option A → Bool
is_absent none = true
is_absent (some _) = false

unfoldable pub get_active_order_outlet : ℕ → ℕ → Db → Option Outlet
get_active_order_outlet b t db =
    find? (λ o. o.business_id == b && o.id == t && o.is_active) db.outlets

unfoldable pub get_active_staff_order_outlet : ℕ → ℕ → ℕ → Db → Option ℕ
get_active_staff_order_outlet b u t db =
    elim (find?
      (λ a.
        assigned_to b u t a
        && exists (λ o. o.business_id == a.business_id && o.id == a.outlet_id && o.is_active)
            db.outlets)
      db.user_outlets) [ none ↦ none | some a ↦ some a.user_id ]

-- The first row of a query.
abbrev pub head? {ℓ} : {A : Type ℓ} → List A → Option A
head? [] = none
head? (x ∷ xs) = some x

abbrev pub of_key : ℕ → ℕ → Bytes → Order → Bool
of_key b t key o = o.business_id == b && (o.outlet_id == t && has_key key o.idempotency_key)

unfoldable pub get_order_by_idempotency_key : ℕ → ℕ → Bytes → Db → Option (Order × Text)
get_order_by_idempotency_key b t key db =
    head? (joined (with_timezones db.outlets) (select (of_key b t key) db.orders))

unfoldable pub get_active_order_customer : ℕ → ℕ → Db → Option Customer
get_active_order_customer b i db =
    find? (λ c. c.business_id == b && c.id == i && is_absent c.deleted_at) db.customers

unfoldable pub get_active_order_perfume : ℕ → ℕ → Db → Option Perfume
get_active_order_perfume b i db =
    find? (λ p. p.business_id == b && p.id == i && p.is_active && is_absent p.deleted_at)
      db.perfumes

unfoldable pub get_active_order_service : ℕ → ℕ → Db → Option Service
get_active_order_service b i db =
    find? (λ s. s.business_id == b && s.id == i && s.is_active && is_absent s.deleted_at)
      db.services

abbrev pub is_counter : ℕ → ℕ → ℕ → InvoiceCounter → Bool
is_counter b t date c = c.business_id == b && (c.outlet_id == t && c.counter_date == date)

-- The next number of a day's counter at an outlet: 1 when there is none.
abbrev pub number_after : Option InvoiceCounter → ℕ
number_after none = 1
number_after (some c) = c.next_number

abbrev pub count_up : ℕ → ℕ → ℕ → Option InvoiceCounter → List InvoiceCounter → List InvoiceCounter
count_up b t date none cs =
    cs ++ (record { business_id = b; outlet_id = t; counter_date = date; next_number = 2 }) ∷ []
count_up b t date (some _) cs =
    update (is_counter b t date) (λ c. record c { next_number = c.next_number + 1 }) cs

unfoldable pub allocate_invoice_number : ℕ → ℕ → ℕ → Env → Db → (ℕ × ℕ) × Db
allocate_invoice_number b t date env db =
    let counter = find? (is_counter b t date) db.invoice_counters in
    (
      (date, number_after counter),
      record db { invoice_counters = count_up b t date counter db.invoice_counters },
    )

-- The row that CreateOrder inserts: the defaults of the table, and the next id.
abbrev pub new_order :
    ℕ → ℕ → Text → ℕ → Text → ℤ → Option Text → ℕ → Option ℕ → ℕ → Bytes → Bytes → Env → Db → Order
new_order b t code customer_id invoice_number total notes received_at due_at created_by key hash env
      db =
    record {
      id = db.next_order_id;
      business_id = b;
      outlet_id = t;
      outlet_code_snapshot = some code;
      customer_id = customer_id;
      invoice_number = invoice_number;
      status = received;
      payment_status = unpaid;
      total_amount = total;
      notes = notes;
      received_at = received_at;
      due_at = due_at;
      completed_at = none;
      cancelled_at = none;
      cancelled_by = none;
      cancellation_reason = none;
      deleted_at = none;
      created_by = created_by;
      created_at = env.now;
      updated_at = env.now;
      idempotency_key = some key;
      request_hash = some hash;
    }

abbrev pub insert_order : Order → Db → Order × Db
insert_order o db =
    (o, record db { orders = db.orders ++ o ∷ []; next_order_id = db.next_order_id + 1 })

unfoldable pub create_order :
    ℕ
    → ℕ
    → Text
    → ℕ
    → Text
    → ℤ
    → Option Text
    → ℕ
    → Option ℕ
    → ℕ
    → Bytes
    → Bytes
    → Env
    → Db
    → Order × Db
create_order b t code customer_id invoice_number total notes received_at due_at created_by key hash
      env db =
    insert_order
      (new_order b t code customer_id invoice_number total notes received_at due_at created_by key
        hash env db)
      db

-- The id of the row is the next one, whatever the argument has.
unfoldable pub create_order_item : OrderItem → Env → Db → Db
create_order_item item env db = record db {
  order_items = db.order_items ++ (record item { id = db.next_item_id }) ∷ [];
  next_item_id = db.next_item_id + 1;
}

unfoldable pub create_initial_order_status : ℕ → ℕ → ℕ → ℕ → Env → Db → Db
create_initial_order_status b t i changed_by env db =
    add_history b t i none received changed_by none env db

unfoldable pub insert_order_audit_log :
    ℕ → Option ℕ → Option ℕ → Option ℕ → AuditValues → Option Bytes → Option Bytes → Env → Db → Db
insert_order_audit_log b outlet_id actor_user_id order_id new_values ip user_agent env db =
    add_audit
      (record {
        business_id = b;
        outlet_id = outlet_id;
        actor_user_id = actor_user_id;
        action = order_created;
        entity_type = order_entity;
        entity_id = order_id;
        old_values = no_values;
        new_values = new_values;
        ip_address = ip;
        user_agent = user_agent;
      })
      db

abbrev pub is_item_of : ℕ → ℕ → ℕ → OrderItem → Bool
is_item_of b t i x = x.business_id == b && (x.outlet_id == t && x.order_id == i)

unfoldable pub list_order_items : ℕ → ℕ → ℕ → Db → List OrderItem
list_order_items b t i db =
    sort_by (λ x y. earlier x.id x.id y.id y.id) (select (is_item_of b t i) db.order_items)

unfoldable pub get_order : ℕ → ℕ → Bool → List ℕ → Db → Option (Order × Text)
get_order b i for_admin outlet_ids db = head? (
    joined (with_timezones db.outlets) (
      select (λ o. is_order b i o && (for_admin || exists (λ t. t == o.outlet_id) outlet_ids))
        db.orders))
