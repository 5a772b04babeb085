-- ===== src/Effect/Run.antt =====
-- What a method computes when its calls succeed: one equation for each way to begin a `do` block.
use launlog_api.Prelude.{Bool, true, false, Option, none, some, ◌≡◌, refl, ap, ◌∙◌}
use launlog_api.Store.{Db}
use launlog_api.Effect.{
  M, Env, Error, Call, Result, ok, err, query, query_one, raise_if, or_no_rows, transaction, settle,
  continue, ◌>>=◌, answer, answer_one, rename_no_rows, begin_tx, commit_tx, pure, or_error,
  replace_error, asks, lift, exec, insert_one, written,
}

-- No call of the database fails.
pub record IsHealthy (env : Env) : Type 0 where
  pub at : (c : Call) → env.failure_of c ≡ none

module _ {ℓ κ} {A : Type ℓ} {B : Type κ} {env : Env} {db : Db} where
  pub run_bind :
      (m : M A) (k : A → M B) {a : A} {d : Db} → m env db ≡ (ok a, d) → (m >>= k) env db ≡ k a env d
  unfolding ◌>>=◌
  run_bind m k h = ap (λ (p : Result A × Db). continue p.0 k env p.1) h

  pub run_bind_err :
      (m : M A) (k : A → M B) {e : Error} {d : Db}
      → m env db ≡ (err e, d)
      → (m >>= k) env db ≡ (err e, d)
  unfolding ◌>>=◌
  run_bind_err m k h = ap (λ (p : Result A × Db). continue p.0 k env p.1) h

  pub run_query :
      (c : Call) (f : Db → A) (k : A → M B)
      → IsHealthy env
      → (query c f >>= k) env db ≡ k (f db) env db
  unfolding query
  run_query c f k healthy = run_bind (query c f) k (ap (λ o. (answer o (f db), db)) (healthy.at c))

  pub run_query_one :
      (c : Call) (f : Db → Option A) (k : A → M B) {a : A}
      → IsHealthy env
      → f db ≡ some a
      → (query_one c f >>= k) env db ≡ k a env db
  unfolding query_one
  run_query_one c f k healthy found =
      run_bind (query_one c f) k (
        ap (λ o. (answer_one o (f db), db)) (healthy.at c)
        ∙ ap (λ r. (answer_one none r, db)) found)

module _ {ℓ} {A : Type ℓ} {env : Env} {db : Db} where
  pub query_one_ok :
      (c : Call) (f : Db → Option A) {a : A}
      → IsHealthy env
      → f db ≡ some a
      → query_one c f env db ≡ (ok a, db)
  unfolding query_one
  query_one_ok c f healthy found =
      ap (λ o. (answer_one o (f db), db)) (healthy.at c) ∙ ap (λ r. (answer_one none r, db)) found

module _ {κ} {B : Type κ} {env : Env} {db : Db} where
  pub run_raise_if :
      (b : Bool) (e : Error) (k : Unit {0} → M B)
      → b ≡ false
      → (raise_if b e >>= k) env db ≡ k tt env db
  unfolding raise_if
  run_raise_if b e k h = run_bind (raise_if b e) k (rw h refl)

  pub run_or_no_rows :
      (e : Error) (m : M B) {b : B} {d : Db}
      → m env db ≡ (ok b, d)
      → or_no_rows e m env db ≡ (ok b, d)
  unfolding or_no_rows
  run_or_no_rows e m h = ap (λ (p : Result B × Db). (rename_no_rows e p.0, p.1)) h

  pub run_transaction :
      (m : M B) {b : B} {d : Db}
      → IsHealthy env
      → m env db ≡ (ok b, d)
      → transaction m env db ≡ (ok b, d)
  unfolding transaction pure
  run_transaction m healthy h =
      ap (settle db)
        (run_query begin_tx _ _ healthy ∙ (run_bind m _ h ∙ run_query commit_tx _ _ healthy))

  pub run_transaction_err :
      (m : M B) {e : Error} {d : Db}
      → IsHealthy env
      → m env db ≡ (err e, d)
      → transaction m env db ≡ (err e, db)
  unfolding transaction
  run_transaction_err m healthy h =
      ap (settle db) (run_query begin_tx _ _ healthy ∙ run_bind_err m _ h)

module _ {κ} {B : Type κ} {env : Env} {db : Db} where
  pub run_or_error :
      (e : Error) (m : M B) {b : B} {d : Db}
      → m env db ≡ (ok b, d)
      → or_error e m env db ≡ (ok b, d)
  unfolding or_error
  run_or_error e m h = ap (λ (p : Result B × Db). (replace_error e p.0, p.1)) h

  pub run_asks {ℓ} :
      {A : Type ℓ} (f : Env → A) (k : A → M B) → (asks f >>= k) env db ≡ k (f env) env db
  unfolding asks
  run_asks f k = run_bind (asks f) k refl

  pub run_lift {ℓ} :
      {A : Type ℓ} (r : Result A) {a : A} (k : A → M B)
      → r ≡ ok a
      → (lift r >>= k) env db ≡ k a env db
  unfolding lift
  run_lift r k h = run_bind (lift r) k (ap (λ r. (r, db)) h)

  pub run_ok {ℓ} : {A : Type ℓ} (a : A) (k : A → M B) → (lift (ok a) >>= k) env db ≡ k a env db
  unfolding lift
  run_ok a k = run_bind (lift (ok a)) k refl

module _ {env : Env} {db : Db} where
  pub exec_ok : (c : Call) (f : Env → Db → Db) → IsHealthy env → exec c f env db ≡ (ok tt, f env db)
  unfolding exec insert_one
  exec_ok c f healthy = ap (λ o. written o db (tt, f env db)) (healthy.at c)

pub run_raise {κ} :
    {B : Type κ} (env : Env) {db : Db} (b : Bool) (e : Error) (k : Unit {0} → M B)
    → b ≡ true
    → (raise_if b e >>= k) env db ≡ (err e, db)
unfolding raise_if
run_raise env b e k h = run_bind_err (raise_if b e) k (rw h refl)

-- A method that returns went past its guard.
pub passed {κ} :
    {B : Type κ} (env : Env) {db : Db} (b : Bool) (e : Error) (k : Unit {0} → M B) {a : B} {d : Db}
    → (raise_if b e >>= k) env db ≡ (ok a, d)
    → (b ≡ false) × (k tt env db ≡ (ok a, d))
unfolding raise_if ◌>>=◌
passed env true e k h = cc
passed env false e k h = (refl, h)

pub run_pure {ℓ} : {A : Type ℓ} (a : A) (env : Env) (db : Db) → pure a env db ≡ (ok a, db)
unfolding pure
run_pure a env db = refl
