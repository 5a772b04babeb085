-- ===== src/Orders/Lifecycle/Locked.antt =====
-- The locked read of an order succeeds, once its row is there for the actor.
use launlog_api.Prelude.{
  ℕ, Bool, true, false, ◌≡◌, ◌&&◌, ◌||◌, Option, none, some, find?, exists, refl, ◌∙◌, arith,
  find?-true, exists-find?, ==_iff, Bool-cases, inl, inr, ap, subst,
}
use launlog_api.Store.{Db, Order, UserOutlet, is_admin}
use launlog_api.Effect.{Env, ok, pure}
use launlog_api.Effect.Run.{IsHealthy, run_bind, query_one_ok, run_query_one, run_or_no_rows}
use launlog_api.Query.Lifecycle as Sql
use launlog_api.Query.Lifecycle.{assigned_to, outlet_is_active, actor_is_current}
use launlog_api.Actor.{Actor}
use launlog_api.Orders.Lifecycle.{lock_assignment, lock_lifecycle_order}
use launlog_api.Orders.Lifecycle.Locking.{IsLocked}

split_tests :
    (b i x y admin a : Bool) (h : (b && i) && ((x && y) && (admin || a)) ≡ true)
    → (b ≡ true) × ((admin ≡ false) → a ≡ true)
split_tests b i x y admin a h = ground arith

-- Staff who can lock an order are assigned to its outlet.
IsLocked-assigned :
    (actor : Actor) (i : ℕ) (db : Db) {o : Order}
    → IsLocked actor i db o
    → is_admin actor.role ≡ false
    → exists (assigned_to actor.business_id actor.user_id o.outlet_id) db.user_outlets ≡ true
unfolding Sql.get_order_for_update
IsLocked-assigned actor i db {o} locked staff =
    let (same, assigned) =
      split_tests _ _ (outlet_is_active db o.business_id o.outlet_id)
        (actor_is_current db (is_admin actor.role) o.business_id actor.user_id) _ _
        (find?-true _ db.orders locked) in
    subst (λ b. exists (assigned_to b actor.user_id o.outlet_id) db.user_outlets ≡ true)
      ((==_iff o.business_id actor.business_id).0 same) (assigned staff)

lock_found :
    (b u t : ℕ) (db : Db) (a : UserOutlet)
    → find? (assigned_to b u t) db.user_outlets ≡ some a
    → Sql.lock_current_order_outlet_assignment b u t db ≡ some a.user_id
unfolding Sql.lock_current_order_outlet_assignment
lock_found b u t db a found =
    ap (λ (r : Option UserOutlet). elim r [ none ↦ none | some a ↦ some a.user_id ]) found

module _ (actor : Actor) (i : ℕ) (env : Env) (db : Db) {o : Order} (healthy : IsHealthy env)
    (locked : IsLocked actor i db o) where
  lock_assignment_ok : lock_assignment actor o env db ≡ (ok tt, db)
  unfolding lock_assignment pure Sql.lock_current_order_outlet_assignment
  lock_assignment_ok = elim (Bool-cases (is_admin actor.role)) [
    | inl admin ↦ rw admin refl
    | inr staff ↦
        let (a, found) =
          exists-find? _ db.user_outlets (IsLocked-assigned actor i db locked staff) in
        rw staff (
          run_bind _ _ (
            run_or_no_rows _ _ (
              query_one_ok _
                (Sql.lock_current_order_outlet_assignment actor.business_id actor.user_id
                  o.outlet_id)
                {a = a.user_id} healthy (lock_found _ _ _ db a found))))
  ]

  pub lock_lifecycle_order_ok : lock_lifecycle_order actor i env db ≡ (ok o, db)
  unfolding lock_lifecycle_order pure
  lock_lifecycle_order_ok = run_query_one _ _ _ healthy locked ∙ run_bind _ _ lock_assignment_ok
