-- ===== src/Query/Lifecycle.antt =====
-- The statements of orders.sql.go that the status of an order goes through: the locked read, the
-- two updates, the history and its audit.
use launlog_api.Prelude.{
  ℕ, ◌+◌, Bool, ◌&&◌, ◌||◌, Option, none, some, List, [], ◌∷◌, ◌++◌, ◌==◌, if◌then◌else◌, find?,
  exists, update, select, map,
}
use launlog_api.Prelude.Text.{Text, Bytes}
use launlog_api.Store.{
  Db, Order, OrderStatus, OrderStatusHistory, UserOutlet, User, AuditLog, AuditAction, AuditValues,
  cancelled, is_admin, is_staff, is_completed, order_entity,
}
use launlog_api.Effect.{Env}

-- `business_id=$b AND id=$i`, the primary key of an order within its business.
abbrev pub is_order : ℕ → ℕ → Order → Bool
is_order b i o = o.business_id == b && o.id == i

-- `UPDATE … WHERE … RETURNING`: the first changed row, and the changed table.
abbrev pub beside {ℓ κ} : {A : Type ℓ} {B : Type κ} → (A → A) → B → Option A → Option (A × B)
beside change rows none = none
beside change rows (some r) = some (change r, rows)

abbrev pub update_returning {ℓ} : {A : Type ℓ} → (A → Bool) → (A → A) → List A → Option (A × List A)
update_returning test change rows = beside change (update test change rows) (find? test rows)

-- The answer of an update of `orders`, and the tables after it.
abbrev pub store_orders {ℓ} :
    {A : Type ℓ} → Db → (Order → A) → Option (Order × List Order) → Option (A × Db)
store_orders db f none = none
store_orders db f (some (o, rows)) = some (f o, record db { orders = rows })

abbrev pub outlet_is_active : Db → ℕ → ℕ → Bool
outlet_is_active db b o = exists (λ t. t.business_id == b && t.id == o && t.is_active) db.outlets

abbrev pub actor_is_current : Db → Bool → ℕ → ℕ → Bool
actor_is_current db for_admin b u =
    exists
      (λ t.
        t.business_id == b
        && t.id == u
        && t.is_active
        && (if for_admin then is_admin t.role else is_staff t.role))
      db.users

abbrev pub assigned_to : ℕ → ℕ → ℕ → UserOutlet → Bool
assigned_to b u o a = a.business_id == b && a.user_id == u && a.outlet_id == o

unfoldable pub get_order_for_update : ℕ → Bool → ℕ → ℕ → Db → Option Order
get_order_for_update user_id for_admin business_id order_id db =
    find?
      (λ o.
        is_order business_id order_id o
        && (outlet_is_active db o.business_id o.outlet_id
            && actor_is_current db for_admin o.business_id user_id
            && (for_admin
                || exists (assigned_to o.business_id user_id o.outlet_id) db.user_outlets)))
      db.orders

unfoldable pub lock_current_order_outlet_assignment : ℕ → ℕ → ℕ → Db → Option ℕ
lock_current_order_outlet_assignment business_id user_id outlet_id db =
    elim (find? (assigned_to business_id user_id outlet_id) db.user_outlets) [
      | none ↦ none
      | some a ↦ some a.user_id
    ]

abbrev pub transitioned : OrderStatus → ℕ → Order → Order
transitioned to_status now o = record o {
  status = to_status;
  completed_at = if is_completed to_status then some now else none;
  updated_at = now;
}

unfoldable pub transition_order_status : OrderStatus → ℕ → ℕ → Env → Db → Option (Order × Db)
transition_order_status to_status business_id order_id env db =
    store_orders db (λ o. o)
      (update_returning (is_order business_id order_id) (transitioned to_status env.now) db.orders)

abbrev pub marked_cancelled : ℕ → Text → ℕ → Order → Order
marked_cancelled actor_user_id reason now o = record o {
  status = cancelled;
  cancelled_at = some now;
  cancelled_by = some actor_user_id;
  cancellation_reason = some reason;
  deleted_at = some now;
  updated_at = now;
}

unfoldable pub cancel_order : ℕ → Text → ℕ → ℕ → Env → Db → Option (Order × Db)
cancel_order actor_user_id reason business_id order_id env db =
    store_orders db (λ o. o)
      (update_returning (is_order business_id order_id)
        (marked_cancelled actor_user_id reason env.now) db.orders)

-- One more row of order_status_history, with the next id of its sequence.
abbrev pub add_history :
    ℕ → ℕ → ℕ → Option OrderStatus → OrderStatus → ℕ → Option Text → Env → Db → Db
add_history business_id outlet_id order_id from_status to_status changed_by notes env db =
    record db {
      order_status_history =
          db.order_status_history
          ++ (record {
            id = db.next_history_id;
            business_id = business_id;
            outlet_id = outlet_id;
            order_id = order_id;
            from_status = from_status;
            to_status = to_status;
            changed_by = changed_by;
            notes = notes;
            changed_at = env.now;
          })
            ∷ [];
      next_history_id = db.next_history_id + 1;
    }

unfoldable pub insert_order_status_history :
    ℕ → ℕ → ℕ → Option OrderStatus → OrderStatus → ℕ → Option Text → Env → Db → Db
insert_order_status_history = add_history

abbrev pub add_audit : AuditLog → Db → Db
add_audit row db = record db { audit_logs = db.audit_logs ++ row ∷ [] }

unfoldable pub insert_order_lifecycle_audit_log :
    ℕ
    → Option ℕ
    → Option ℕ
    → AuditAction
    → Option ℕ
    → AuditValues
    → AuditValues
    → Option Bytes
    → Option Bytes
    → Env
    → Db
    → Db
insert_order_lifecycle_audit_log business_id outlet_id actor_user_id action order_id old_values
      new_values ip user_agent env db =
    add_audit
      (record {
        business_id = business_id;
        outlet_id = outlet_id;
        actor_user_id = actor_user_id;
        action = action;
        entity_type = order_entity;
        entity_id = order_id;
        old_values = old_values;
        new_values = new_values;
        ip_address = ip;
        user_agent = user_agent;
      })
      db

-- A row of the history beside the full name of the user who made it.
abbrev pub with_names : List User → OrderStatusHistory → List (OrderStatusHistory × Text)
with_names users h =
    map (λ u. (h, u.full_name))
      (select (λ u. u.business_id == h.business_id && u.id == h.changed_by) users)
