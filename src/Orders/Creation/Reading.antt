-- ===== src/Orders/Creation/Reading.antt =====
-- What `Create` and `Get` read.
use launlog_api.Prelude.{
  true, ◌⊎◌, inl, inr, ℕ, ◌≡◌, Option, none, some, map, find?-true, arith, refl, sym, subst, ap,
}
use launlog_api.Prelude.Text.{Text}
use launlog_api.Store.{Db, Order, Perfume, is_admin}
use launlog_api.Effect.{
  M, Env, asks, query, query_one, or_no_rows, pure, ◌>>=◌, get_order_time, list_order_items,
  order_outlet_forbidden, get_active_staff_order_outlet,
}
use launlog_api.Effect.Hoare.{
  Ensures, Ensures-pure, Ensures-if, Ensures-or_no_rows, Ensures-query_one, Reads, after_read,
  after_query,
}
use launlog_api.Query.Creation as Sql
use launlog_api.Actor.{Actor}
use launlog_api.Orders.Views.{OrderView, order_from, item_from}
use launlog_api.Orders.Loading.{load_order}
use launlog_api.Orders.Creation.{check_staff_outlet, choose_perfume}

-- A row of `orders` as the service shows it, with the items of the tables.
abbrev pub shown : Db → Order → Text → OrderView
shown db o timezone =
    order_from o timezone (map item_from (Sql.list_order_items o.business_id o.outlet_id o.id db))

-- An admin, or staff with the outlet.
abbrev pub IsAssigned : Actor → ℕ → Db → Type 0
IsAssigned actor t db =
    (is_admin actor.role ≡ true)
    ⊎ ((u : ℕ) × (Sql.get_active_staff_order_outlet actor.business_id actor.user_id t db ≡ some u))

module _ (env : Env) (db : Db) where
  pub load_order-Reads :
      (o : Order) (timezone : Text)
      → Reads env (load_order o timezone) db (λ v. v ≡ shown db o timezone)
  unfolding load_order
  load_order-Reads o timezone = after_query list_order_items _ _ (Ensures-pure _ (refl, refl))

  order_time-Reads :
      Reads env
        (query get_order_time (λ _. tt {0}) >>= λ _. asks (λ env. env.now))
        db
        (λ t. t ≡ env.now)
  unfolding asks
  order_time-Reads = after_query _ _ _ (record { at = (refl, refl) })

  pub after_order_time :
      {B : Type 0} {Q : B → Db → Type 0} (k : ℕ → M B)
      → Ensures env (k env.now) db Q
      → Ensures env (query get_order_time (λ _. tt {0}) >>= (λ _. asks (λ env. env.now)) >>= k) db Q
  after_order_time {Q = Q} k h =
      after_read _ k order_time-Reads λ t is_t. subst (λ t. Ensures env (k t) db Q) (sym is_t) h

  pub check_staff_outlet-Reads :
      (actor : Actor) (t : ℕ)
      → Reads env (check_staff_outlet actor t) db (λ _. IsAssigned actor t db)
  unfolding check_staff_outlet
  check_staff_outlet-Reads actor t =
      Ensures-if (is_admin actor.role) _ _ (λ admin. Ensures-pure _ (refl, inl admin))
        λ _.
          after_read
            (or_no_rows order_outlet_forbidden (
              query_one get_active_staff_order_outlet
                (Sql.get_active_staff_order_outlet actor.business_id actor.user_id t)))
            (λ _. pure tt) {S = λ _. IsAssigned actor t db}
            (Ensures-or_no_rows _ _ (Ensures-query_one _ _ (λ u found. (refl, inr (u, found)))))
            λ _ assigned. Ensures-pure _ (refl, assigned)

  is_perfume :
      (actor : Actor) (p : Perfume) (i : ℕ)
      → Sql.get_active_order_perfume actor.business_id i db ≡ some p
      → p.id ≡ i
  unfolding Sql.get_active_order_perfume
  is_perfume actor p i e = let t = find?-true _ db.perfumes e in ground arith

  pub choose_perfume-Reads :
      (actor : Actor) (p : Option ℕ) → Reads env (choose_perfume actor p) db (λ c. c.id ≡ p)
  unfolding choose_perfume
  choose_perfume-Reads actor none = Ensures-pure _ (refl, refl)
  choose_perfume-Reads actor (some i) =
      after_read _ _ {S = λ p. p.id ≡ i}
        (Ensures-or_no_rows _ _ (Ensures-query_one _ _ (λ p e. (refl, is_perfume actor p i e))))
        λ p e. Ensures-pure _ (refl, ap some e)
