-- ===== src/Orders/Lifecycle/Locking.antt =====
-- What `lockLifecycleOrder` returns: the order that the key names, at an active outlet, for an
-- actor whose role and assignment are current.
use launlog_api.Prelude.{ℕ, ◌≡◌, some, refl}
use launlog_api.Store.{Db, Order, is_admin}
use launlog_api.Effect.{Env}
use launlog_api.Effect.Hoare.{
  Reads, Ensures-pure, Ensures-if, Ensures-bind, Ensures-query_one, Ensures-or_no_rows,
  after_query_one, after_read,
}
use launlog_api.Query.Lifecycle as Sql
use launlog_api.Actor.{Actor}
use launlog_api.Orders.Lifecycle.{lock_assignment, lock_lifecycle_order}

lock_assignment-Reads :
    (actor : Actor) (o : Order) (env : Env) (db : Db)
    → Reads env (lock_assignment actor o) db (λ _. Unit)
unfolding lock_assignment
lock_assignment-Reads actor o env db =
    Ensures-if (is_admin actor.role) _ _ (λ _. Ensures-pure tt (refl, tt))
      λ _.
        Ensures-bind _ _
          (Ensures-or_no_rows _ _ (Ensures-query_one {Q = λ _ d. d ≡ db} _ _ (λ a e. refl)))
          λ a d same. Ensures-pure tt (same, tt)

-- The order that the locked read finds.
abbrev pub IsLocked : Actor → ℕ → Db → Order → Type 0
IsLocked actor order_id db o =
    Sql.get_order_for_update actor.user_id (is_admin actor.role) actor.business_id order_id db
    ≡ some o

pub lock_lifecycle_order-Reads :
    (actor : Actor) (order_id : ℕ) (env : Env) (db : Db)
    → Reads env (lock_lifecycle_order actor order_id) db (IsLocked actor order_id db)
unfolding lock_lifecycle_order
lock_lifecycle_order-Reads actor order_id env db = after_query_one _ _ _ λ o found.
    after_read _ _ (lock_assignment-Reads actor o env db) λ _ _. Ensures-pure o (refl, found)
