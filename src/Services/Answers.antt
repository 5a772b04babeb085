-- ===== src/Services/Answers.antt =====
-- What an update and a deletion of a service do to it, and to the orders that may name it.
use launlog_api.Prelude.{
  ℕ, Bool, true, false, none, some, List, [], ◌∷◌, ◌≡◌, ◌≢◌, ◌∙◌, refl, sym, ap, find?, find?-true,
  find?-update, touched, map_option, update, Bool-cases, inl, inr, arith, if◌then◌else◌,
}
use launlog_api.Store.{Db, Service, ServiceView}
use launlog_api.Effect.{Env, ok}
use launlog_api.Effect.Hoare.{
  Ensures, Ensures-ok, Ensures-pure, Ensures-query_one, Ensures-or_no_rows, Ensures-transaction,
  Ensures-bind, Ensures-exec, Ensures-update_one, Ensures-weaken, after_lift, after_read,
  after_update_one, after_exec,
}
use launlog_api.Effect.Run.{IsHealthy, run_bind, run_or_no_rows, query_one_ok, run_pure}
use launlog_api.Query.Creation.{is_absent}
use launlog_api.Query.Creation as Orders
use launlog_api.Query.Services.{is_service, store_services, changed_service, deleted_service}
use launlog_api.Query.Services as Sql
use launlog_api.Query.Sessions as Audit
use launlog_api.Actor.{Actor}
use launlog_api.Services.{
  ServiceInput, ValidInput, validate_service_input, service_from_row, catalog_get, catalog_update,
  catalog_delete, update_service_body, delete_service_body, audit_service,
}
use launlog_api.Services.Restocked.{Ensures-or_conflict, store_services-writes}

-- The row that an update answers with, and the services after it.
record Updated (actor : Actor) (i : ℕ) (v : ValidInput) (now : ℕ) (db : Db) (r : ServiceView)
    (d : Db) : Type 0 where
  pub before : Service
  pub found : find? (is_service actor.business_id i) db.services ≡ some before
  pub answers :
      r
      ≡ service_from_row (
          changed_service v.name v.description v.unit v.unit_price_amount
            v.estimated_duration_minutes v.is_active now before)
  pub leaves :
      d.services
      ≡ update
          (is_service actor.business_id i)
          (changed_service v.name v.description v.unit v.unit_price_amount
            v.estimated_duration_minutes v.is_active now)
          db.services

module _ (actor : Actor) (env : Env) (db : Db) (i : ℕ) where
  abbrev change : ValidInput → ℕ → Service → Service
  change v now =
      changed_service v.name v.description v.unit v.unit_price_amount v.estimated_duration_minutes
        v.is_active now

  abbrev after : ValidInput → ℕ → List Service
  after v now = update (is_service actor.business_id i) (change v now) db.services

  update_service_body-Updated :
      (v : ValidInput)
      → Ensures env (update_service_body actor i v) db (Updated actor i v env.now db)
  unfolding update_service_body Sql.get_service Sql.update_service audit_service
      Audit.insert_audit_log
  update_service_body-Updated v =
      after_read _ _ {S = λ s. find? (is_service actor.business_id i) db.services ≡ some s}
        (Ensures-or_no_rows _ _ (Ensures-query_one _ _ λ s found. (refl, found)))
        λ old found.
          Ensures-bind _ _
            {R = λ item d.
              (s : Service) × (find? (is_service actor.business_id i) db.services ≡ some s)
              × (item ≡ change v env.now s)
              × (d ≡ record db { services = after v env.now })}
            (Ensures-or_conflict _ (Ensures-update_one _ _ λ a d h. store_services-writes db _ _ h))
            λ item d made.
              let (before, found, is_item, is_d) = made in
              after_exec _ _ _ (
                Ensures-pure _ (record {
                  before = before;
                  found = found;
                  answers = ap service_from_row is_item;
                  leaves = ap (λ (x : Db). x.services) is_d;
                }))

  delete_service_body-Deleted : Ensures env (delete_service_body actor i) db λ _ d.
      d.services ≡ update (is_service actor.business_id i) (deleted_service env.now) db.services
  unfolding delete_service_body Sql.soft_delete_service audit_service Audit.insert_audit_log
  delete_service_body-Deleted =
      after_read _ _ {S = λ _. Unit}
        (Ensures-or_no_rows _ _ (Ensures-query_one _ _ λ s _. (refl, tt)))
        λ old _. after_update_one _ _ _ λ a d h.
          let (_, _, _, leaves) = store_services-writes db _ _ h in
          Ensures-exec _ _ (ap (λ (x : Db). x.services) leaves)

  pub catalog_get_ok :
      (env' : Env) (s : Service)
      → IsHealthy env'
      → find? (is_service actor.business_id i) db.services ≡ some s
      → catalog_get actor.business_id i env' db ≡ (ok (service_from_row s), db)
  unfolding catalog_get Sql.get_service
  catalog_get_ok env' s healthy found =
      run_bind _ _ (run_or_no_rows _ _ (query_one_ok _ _ healthy found)) ∙ run_pure _ env' db

module _ (actor : Actor) (env env' : Env) (db : Db) (i : ℕ) where
  update-Updated :
      (raw : ServiceInput) {r : ServiceView} {d : Db}
      → catalog_update actor i raw env db ≡ (ok r, d)
      → (v : ValidInput) × (validate_service_input raw ≡ ok v) × Updated actor i v env.now db r d
  unfolding catalog_update
  update-Updated raw h =
      Ensures-ok
        {Q = λ r d.
          (v : ValidInput) × (validate_service_input raw ≡ ok v) × Updated actor i v env.now db r d}
        (after_lift _ _ λ v valid.
          Ensures-weaken _ (Ensures-transaction _ (update_service_body-Updated actor env db i v))
            λ r d u. (v, valid, u))
        h

  -- What an update answers with is what a later read of the service answers with, when no call of the
  -- database fails: the trimmed and validated input, on the id, the business and the creation time
  -- that the service had.
  pub catalog_update_read :
      (raw : ServiceInput) {r : ServiceView} {d : Db}
      → IsHealthy env'
      → catalog_update actor i raw env db ≡ (ok r, d)
      → (catalog_get actor.business_id i env' d ≡ (ok r, d))
        × (v : ValidInput) × (s : Service) × (validate_service_input raw ≡ ok v)
        × (Sql.get_service actor.business_id i db ≡ some s)
        × (r
            ≡ service_from_row (
                changed_service v.name v.description v.unit v.unit_price_amount
                  v.estimated_duration_minutes v.is_active env.now s))
  unfolding Sql.get_service
  catalog_update_read raw {r} {d} healthy h =
      let (v, valid, u) = update-Updated raw h in
      let test = is_service actor.business_id i in
      let change =
        changed_service v.name v.description v.unit v.unit_price_amount v.estimated_duration_minutes
          v.is_active env.now in
      let hit = find?-true test db.services u.found in
      let found : find? test d.services ≡ some (change u.before) =
        ap (find? test) u.leaves
        ∙ (find?-update test test change (λ s. refl) db.services
            ∙ (ap (map_option (touched test change)) u.found ∙ rw hit refl)) in
      (
        catalog_get_ok actor env d i env' (change u.before) healthy found
            ∙ ap (λ x. (ok x, d)) (sym u.answers),
        v,
        u.before,
        valid,
        u.found,
        u.answers,
      )

gone : (b i now : ℕ) (s : Service) → is_service b i (deleted_service now s) ≡ false
gone b i now s = ground arith

module _ (b i now : ℕ) where
  -- A scan that finds live rows of the service only finds none once they are deleted.
  find?-deleted :
      (key : Service → Bool)
      → ((s : Service) → key s ≡ true → is_service b i s ≡ true)
      → (rows : List Service)
      → find? key (update (is_service b i) (deleted_service now) rows) ≡ none
  find?-deleted key narrow [] = refl
  find?-deleted key narrow (s ∷ rows) =
      let rest = find?-deleted key narrow rows in
      let dead = gone b i now s in
      let narrow_dead = narrow (deleted_service now s) in
      let narrow_s = narrow s in
      elim (Bool-cases (is_service b i s)) [
        | inl hit ↦ elim (Bool-cases (key (deleted_service now s))) [
          | inl seen ↦ let again = narrow_dead seen in cc
          | inr unseen ↦ rw (hit, unseen) rest
        ]
        | inr miss ↦ elim (Bool-cases (key s)) [
          | inl seen ↦ let again = narrow_s seen in cc
          | inr unseen ↦ rw (miss, unseen) rest
        ]
      ]

  find?-deleted_other :
      (j : ℕ)
      → j ≢ i
      → (rows : List Service)
      → find? (is_service b j) (update (is_service b i) (deleted_service now) rows)
        ≡ find? (is_service b j) rows
  find?-deleted_other j apart [] = refl
  find?-deleted_other j apart (s ∷ rows) = elim (Bool-cases (is_service b i s)) [
    | inl hit ↦
        let not_s : is_service b j s ≡ false = ground (arith, hit, apart) in
        let not_dead : is_service b j (deleted_service now s) ≡ false = gone b j now s in
        rw (hit, not_s, not_dead) (find?-deleted_other j apart rows)
    | inr miss ↦
        rw miss
          (ap (λ o. if is_service b j s then some s else o) (find?-deleted_other j apart rows))
  ]

-- A deleted service is found no more, be it to read it or to order it; the other services are found
-- as before.
pub catalog_delete_final :
    (actor : Actor) (env : Env) (db : Db) (i : ℕ) {d : Db}
    → catalog_delete actor i env db ≡ (ok tt, d)
    → (Sql.get_service actor.business_id i d ≡ none)
      × (Orders.get_active_order_service actor.business_id i d ≡ none)
      × ((j : ℕ)
          → j ≢ i
          → Sql.get_service actor.business_id j d ≡ Sql.get_service actor.business_id j db)
unfolding catalog_delete Sql.get_service Orders.get_active_order_service
catalog_delete_final actor env db i {d} h =
    let leaves =
      Ensures-ok
        {Q = λ _ d.
          d.services
          ≡ update (is_service actor.business_id i) (deleted_service env.now) db.services}
        (Ensures-transaction _ (delete_service_body-Deleted actor env db i)) h in
    (
      ap (find? _) leaves
          ∙ find?-deleted actor.business_id i env.now (is_service actor.business_id i) (λ s e. e)
              db.services,
      ap (find? _) leaves
          ∙ find?-deleted actor.business_id i env.now _ (λ s e. ground (arith, e)) db.services,
      λ j apart.
          ap (find? _) leaves ∙ find?-deleted_other actor.business_id i env.now j apart db.services,
    )
