-- ===== src/Query/Payments.antt =====
-- The statements of payments.sql.go.
use launlog_api.Prelude.{
  ℕ, ◌+◌, Bool, false, ◌&&◌, Option, none, some, List, [], ◌∷◌, ◌++◌, ◌==◌, if◌then◌else◌, find?,
  select, length, take, drop, eq_text,
}
use launlog_api.Prelude.Int.{ℤ, pos, ◌+ℤ◌}
use launlog_api.Prelude.Text.{Text, Bytes}
use launlog_api.Store.{
  Db, Payment, Method, PaymentStatus, AuditAction, AuditValues, confirmed, voided, is_confirmed,
  payment_entity,
}
use launlog_api.Effect.{Env}
use launlog_api.Query.Lifecycle.{is_order, update_returning, store_orders, add_audit}

-- `business_id=$b AND outlet_id=$t AND order_id=$i`.
abbrev pub pays : ℕ → ℕ → ℕ → Payment → Bool
pays b t i p = p.business_id == b && (p.outlet_id == t && p.order_id == i)

unfoldable pub count_order_payment_refunds : ℕ → ℕ → ℕ → Db → ℕ
count_order_payment_refunds b t i db =
    length
      (select (λ r. r.business_id == b && (r.outlet_id == t && r.order_id == i)) db.payment_refunds)

-- `sum(amount)` over the confirmed payments of an order.
unfoldable pub confirmed_total : ℕ → ℕ → ℕ → List Payment → ℤ
confirmed_total b t i [] = pos 0
confirmed_total b t i (p ∷ ps) =
    let rest = confirmed_total b t i ps in
    if pays b t i p && is_confirmed p.status then p.amount +ℤ rest else rest

abbrev pub get_confirmed_payment_total : ℕ → ℕ → ℕ → Db → ℤ
get_confirmed_payment_total b t i db = confirmed_total b t i db.payments

-- `idempotency_key=$k` on a nullable column.
abbrev pub has_key : Bytes → Option Bytes → Bool
has_key k none = false
has_key k (some j) = eq_text j k

unfoldable pub get_payment_by_idempotency_key : ℕ → ℕ → ℕ → Bytes → Db → Option Payment
get_payment_by_idempotency_key b t i key db =
    find? (λ p. pays b t i p && has_key key p.idempotency_key) db.payments

-- The row that CreateConfirmedPayment inserts.
abbrev pub new_payment :
    ℕ → ℕ → ℕ → ℤ → Method → Option Text → Option Text → ℕ → Bytes → Bytes → Env → Db → Payment
new_payment b t i amount method external_reference notes created_by key hash env db = record {
  id = db.next_payment_id;
  business_id = b;
  outlet_id = t;
  order_id = i;
  amount = amount;
  method = method;
  status = confirmed;
  external_reference = external_reference;
  notes = notes;
  confirmed_at = some env.now;
  voided_at = none;
  voided_by = none;
  void_reason = none;
  created_by = created_by;
  created_at = env.now;
  idempotency_key = some key;
  request_hash = some hash;
}

unfoldable pub create_confirmed_payment :
    ℕ → ℕ → ℕ → ℤ → Method → Option Text → Option Text → ℕ → Bytes → Bytes → Env → Db → Payment × Db
create_confirmed_payment b t i amount method external_reference notes created_by key hash env db =
    let p = new_payment b t i amount method external_reference notes created_by key hash env db in
    (p, record db { payments = db.payments ++ p ∷ []; next_payment_id = db.next_payment_id + 1 })

unfoldable pub update_order_payment_status :
    ℕ → ℕ → ℕ → PaymentStatus → Env → Db → Option (PaymentStatus × Db)
update_order_payment_status b t i status env db =
    store_orders db (λ o. o.payment_status)
      (update_returning (λ o. is_order b i o && o.outlet_id == t)
        (λ o. record o { payment_status = status; updated_at = env.now }) db.orders)

-- The page of an ordered result: `LIMIT limit OFFSET offset`.
abbrev pub page {ℓ} : {A : Type ℓ} → ℕ → ℕ → List A → List A
page limit offset rows = take limit (drop offset rows)

unfoldable pub count_order_payments : ℕ → ℕ → ℕ → Db → ℕ
count_order_payments b t i db = length (select (pays b t i) db.payments)

unfoldable pub get_order_payment_for_update : ℕ → ℕ → ℕ → ℕ → Db → Option Payment
get_order_payment_for_update b t i payment_id db =
    find? (λ p. pays b t i p && p.id == payment_id) db.payments

abbrev pub marked_voided : ℕ → Text → ℕ → Payment → Payment
marked_voided voided_by reason now p = record p {
  status = voided;
  voided_at = some now;
  voided_by = some voided_by;
  void_reason = some reason;
}

abbrev pub store_payments : Db → Option (Payment × List Payment) → Option (Payment × Db)
store_payments db none = none
store_payments db (some (p, rows)) = some (p, record db { payments = rows })

unfoldable pub void_confirmed_payment : ℕ → ℕ → ℕ → ℕ → ℕ → Text → Env → Db → Option (Payment × Db)
void_confirmed_payment b t i payment_id voided_by reason env db = store_payments db (
    update_returning (λ p. pays b t i p && (p.id == payment_id && is_confirmed p.status))
      (marked_voided voided_by reason env.now) db.payments)

unfoldable pub insert_payment_audit_log :
    ℕ
    → Option ℕ
    → Option ℕ
    → AuditAction
    → Option ℕ
    → AuditValues
    → AuditValues
    → Option Bytes
    → Option Bytes
    → Env
    → Db
    → Db
insert_payment_audit_log business_id outlet_id actor_user_id action payment_id old_values new_values
      ip user_agent env db =
    add_audit
      (record {
        business_id = business_id;
        outlet_id = outlet_id;
        actor_user_id = actor_user_id;
        action = action;
        entity_type = payment_entity;
        entity_id = payment_id;
        old_values = old_values;
        new_values = new_values;
        ip_address = ip;
        user_agent = user_agent;
      })
      db
