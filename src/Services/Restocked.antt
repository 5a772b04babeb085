-- ===== src/Services/Restocked.antt =====
-- What the service catalog writes.
use launlog_api.Prelude.{
  ℕ, Bool, Option, none, some, List, ◌≡◌, ◌⊎◌, inl, inr, refl, sym, ap, subst, All, All-append,
  All-update, find?, update, Bool-cases, arith,
}
use launlog_api.Prelude.Int.{pos, ◌≤ℤ◌, ltb_ℤ}
use launlog_api.Prelude.Text.{is_empty, trim_space}
use launlog_api.Store.{Db, Service, ServiceUnit, ServiceView, AuditLog}
use launlog_api.Effect.{
  M, Env, Result, database, unique_violation, ok, err, transaction, transaction_atomic, lift, ◌>>=◌,
  continue,
}
use launlog_api.Effect.Hoare.{
  Post, Ensures, Ensures-ok, Ensures-pure, Ensures-query_one, Ensures-or_no_rows,
  Ensures-transaction, Ensures-bind, Ensures-exec, Ensures-update_one, Ensures-insert_one,
  after_read, after_update_one, after_exec,
}
use launlog_api.Query.Lifecycle.{add_audit, beside, update_returning}
use launlog_api.Query.Services.{is_service, store_services, changed_service, deleted_service}
use launlog_api.Query.Services as Sql
use launlog_api.Query.Sessions as Audit
use launlog_api.Actor.{Actor}
use launlog_api.Services.{
  ServiceInput, ValidInput, valid_unit, validate_amounts, validate_service_input, or_conflict,
  service_write_error, audit_service, catalog_create, catalog_update, catalog_delete,
  update_service_body, delete_service_body, create_service_body,
}

abbrev IsPricedRow : Service → Type 0
IsPricedRow s = pos 0 ≤ℤ s.unit_price_amount

-- Only the services, their sequence and the audit changed, and no price went below zero.
pub record Restocked (db d : Db) : Type 0 where
  pub services : List Service
  pub next : ℕ
  pub logs : List AuditLog
  pub leaves : d ≡ record db { services = services; next_service_id = next; audit_logs = logs }
  pub priced :
      All (λ s. pos 0 ≤ℤ s.unit_price_amount) db.services
      → All (λ s. pos 0 ≤ℤ s.unit_price_amount) services

validate_amounts-priced :
    (input : ServiceInput) (u : Option ServiceUnit) (v : ValidInput)
    → validate_amounts input u ≡ ok v
    → pos 0 ≤ℤ v.unit_price_amount
validate_amounts-priced input none v h = cc
validate_amounts-priced input (some u) v h =
    elim (Bool-cases (ltb_ℤ input.unit_price_amount (pos 0))) [
      | inl low ↦ cc
      | inr high ↦ elim (Bool-cases (ltb_ℤ input.estimated_duration_minutes (pos 0))) [
        | inl short ↦ cc
        | inr long ↦
            let same : input.unit_price_amount ≡ v.unit_price_amount = ground arith in
            subst (λ x. pos 0 ≤ℤ x) same (ground arith)
      ]
    ]

module _ {A : Type 0} {env : Env} {db : Db} {Q : A → Db → Type 0} where
  pub Ensures-or_conflict : (m : M A) → Ensures env m db Q → Ensures env (or_conflict m) db Q
  unfolding or_conflict
  Ensures-or_conflict m h = record { at = go (m env db) h.at }
    where
      go : (p : Result A × Db) → Post Q p → Post Q (service_write_error p.0, p.1)
      go (ok a, d) q = q
      go (err (database (unique_violation _)), d) q = tt
      go (err _, d) q = tt

module _ (db : Db) where
  pub store_services-writes :
      (test : Service → Bool) (change : Service → Service) {a : Service} {d : Db}
      → store_services db (update_returning test change db.services) ≡ some (a, d)
      → (s : Service) × (find? test db.services ≡ some s)
        × (a ≡ change s)
        × (d ≡ record db { services = update test change db.services })
  store_services-writes test change {a} {d} h = go (find? test db.services) h
    where
      go :
          (r : Option Service)
          → store_services db (beside change (update test change db.services) r) ≡ some (a, d)
          → (s : Service) × (r ≡ some s)
            × (a ≡ change s)
            × (d ≡ record db { services = update test change db.services })
      go none e = cc
      go (some o) e = (o, refl, cc, cc)

  store_services-leaves :
      (test : Service → Bool) (change : Service → Service) {a : Service} {d : Db}
      → store_services db (update_returning test change db.services) ≡ some (a, d)
      → d ≡ record db { services = update test change db.services }
  store_services-leaves test change h =
      let (_, _, _, leaves) = store_services-writes test change h in leaves

valid_input-priced :
    (input : ServiceInput) (v : ValidInput)
    → validate_service_input input ≡ ok v
    → pos 0 ≤ℤ v.unit_price_amount
unfolding validate_service_input
valid_input-priced input v h = elim (Bool-cases (is_empty (trim_space input.name))) [
  | inl empty ↦ cc
  | inr full ↦ validate_amounts-priced input (valid_unit input.unit) v (ground arith)
]

module _ (actor : Actor) (env : Env) (db : Db) where
  create_service_body-Restocked :
      (v : ValidInput)
      → pos 0 ≤ℤ v.unit_price_amount
      → Ensures env (create_service_body actor v) db (λ _ d. Restocked db d)
  unfolding create_service_body Sql.create_service audit_service Audit.insert_audit_log
  create_service_body-Restocked v low =
      Ensures-bind _ _
        {R = λ item d.
          d
          ≡ (Sql.create_service actor.business_id v.name v.description v.unit v.unit_price_amount
              v.estimated_duration_minutes env db).1}
        (Ensures-or_conflict _ (Ensures-insert_one _ _ refl))
        λ item d made. after_exec _ _ _ (
          Ensures-pure _ (record {
            services = _;
            next = _;
            logs = _;
            leaves = ap (add_audit _) made;
            priced = λ old. All-append _ db.services _ old (low, tt);
          }))

  update_service_body-Restocked :
      (i : ℕ) (v : ValidInput)
      → pos 0 ≤ℤ v.unit_price_amount
      → Ensures env (update_service_body actor i v) db (λ _ d. Restocked db d)
  unfolding update_service_body Sql.update_service audit_service Audit.insert_audit_log
  update_service_body-Restocked i v low =
      after_read _ _ {S = λ _. Unit}
        (Ensures-or_no_rows _ _ (Ensures-query_one _ _ λ s _. (refl, tt)))
        λ old _.
          Ensures-bind _ _
            {R = λ item d. d ≡ record db {
              services =
                  update (is_service actor.business_id i)
                    (changed_service v.name v.description v.unit v.unit_price_amount
                      v.estimated_duration_minutes v.is_active env.now)
                    db.services;
            }}
            (Ensures-or_conflict _ (Ensures-update_one _ _ λ a d h. store_services-leaves db _ _ h))
            λ item d made. after_exec _ _ _ (
              Ensures-pure _ (record {
                services = _;
                next = _;
                logs = _;
                leaves = ap (add_audit _) made;
                priced = λ old.
                    All-update IsPricedRow (is_service actor.business_id i)
                      (changed_service v.name v.description v.unit v.unit_price_amount
                        v.estimated_duration_minutes v.is_active env.now)
                      (λ s _. low) db.services old;
              }))

  delete_service_body-Restocked :
      (i : ℕ) → Ensures env (delete_service_body actor i) db (λ _ d. Restocked db d)
  unfolding delete_service_body Sql.soft_delete_service audit_service Audit.insert_audit_log
  delete_service_body-Restocked i =
      after_read _ _ {S = λ _. Unit}
        (Ensures-or_no_rows _ _ (Ensures-query_one _ _ λ s _. (refl, tt)))
        λ old _. after_update_one _ _ _ λ a d h. Ensures-exec _ _ (record {
          services = _;
          next = _;
          logs = _;
          leaves = ap (add_audit _) (store_services-leaves db _ _ h);
          priced = λ old.
              All-update IsPricedRow (is_service actor.business_id i) (deleted_service env.now)
                (λ s low. low) db.services old;
        })

module _ (actor : Actor) (env : Env) (db : Db) where
  -- A transaction that reports an error has written nothing; one that returns has restocked.
  settled {ℓ} :
      {A : Type ℓ} (m : M A) (r : Result A) {d : Db}
      → Ensures env m db (λ _ d. Restocked db d)
      → transaction m env db ≡ (r, d)
      → (d ≡ db) ⊎ Restocked db d
  settled m (ok a) h e = inr (Ensures-ok {Q = λ _ d. Restocked db d} (Ensures-transaction m h) e)
  settled m (err x) h e = inl (transaction_atomic m env db e)

  validated :
      (raw : ServiceInput) (body : ValidInput → M ServiceView)
      → ((v : ValidInput)
          → pos 0 ≤ℤ v.unit_price_amount
          → Ensures env (body v) db (λ _ d. Restocked db d))
      → (r : Result ServiceView) (d : Db)
      → (lift (validate_service_input raw) >>= λ v. transaction (body v)) env db ≡ (r, d)
      → (d ≡ db) ⊎ Restocked db d
  unfolding lift ◌>>=◌
  validated raw body h r d ran = go (validate_service_input raw) refl ran
    where
      go :
          (v : Result ValidInput)
          → validate_service_input raw ≡ v
          → continue v (λ v. transaction (body v)) env db ≡ (r, d)
          → (d ≡ db) ⊎ Restocked db d
      go (ok v) is e = settled (body v) r (h v (valid_input-priced raw v is)) e
      go (err x) is e = inl (sym (ap (λ (p : Result ServiceView × Db). p.1) e))

  pub catalog_create_wrote :
      (raw : ServiceInput) (r : Result ServiceView) (d : Db)
      → catalog_create actor raw env db ≡ (r, d)
      → (d ≡ db) ⊎ Restocked db d
  unfolding catalog_create
  catalog_create_wrote raw r d h =
      validated raw (create_service_body actor) (create_service_body-Restocked actor env db) r d h

  pub catalog_update_wrote :
      (i : ℕ) (raw : ServiceInput) (r : Result ServiceView) (d : Db)
      → catalog_update actor i raw env db ≡ (r, d)
      → (d ≡ db) ⊎ Restocked db d
  unfolding catalog_update
  catalog_update_wrote i raw r d h =
      validated raw (update_service_body actor i) (update_service_body-Restocked actor env db i) r d
        h

  pub catalog_delete_wrote :
      (i : ℕ) (r : Result (Unit {0})) (d : Db)
      → catalog_delete actor i env db ≡ (r, d)
      → (d ≡ db) ⊎ Restocked db d
  unfolding catalog_delete
  catalog_delete_wrote i r d h = settled _ r (delete_service_body-Restocked actor env db i) h
