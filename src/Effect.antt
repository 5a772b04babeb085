-- ===== src/Effect.antt =====
-- How a service method runs: on the state of the database, with errors as values, and in a
-- transaction (internal/repository/connection.go, and pgx, which the services call).
mod Outcome
pub mod Hoare
pub mod Atomic
pub mod Run
pub use Outcome.*
use launlog_api.Prelude.{Option, none, some, Bool, if◌then◌else◌, ◌≡◌, sym, ap}
use launlog_api.Store.{Db}

abbrev pub M {ℓ} : Type ℓ → Type ℓ
M A = Env → Db → Result A × Db

module _ {ℓ} {A : Type ℓ} where
  unfoldable pub pure : A → M A
  pure a env db = (ok a, db)

  unfoldable pub raise : Error → M A
  raise e env db = (err e, db)

  unfoldable pub lift : Result A → M A
  lift r env db = (r, db)

  unfoldable pub asks : (Env → A) → M A
  asks f env db = (ok (f env), db)

module _ {ℓ κ} {A : Type ℓ} {B : Type κ} where
  abbrev pub continue : Result A → (A → M B) → M B
  continue (ok a) f env db = f a env db
  continue (err e) f env db = (err e, db)

  infixl 5 ◌>>=◌
  unfoldable pub ◌>>=◌ : M A → (A → M B) → M B
  ◌>>=◌ m f env db = let (r, db') = m env db in continue r f env db'

infixl 5 ◌>>◌
abbrev pub ◌>>◌ {ℓ} : {B : Type ℓ} → M (Unit {0}) → M B → M B
m >> k = m >>= λ _. k

-- `if test { return e }`.
unfoldable pub raise_if : Bool → Error → M (Unit {0})
raise_if test e env db = (if test then err e else ok tt, db)

abbrev pub answer {ℓ} : {A : Type ℓ} → Option DbError → A → Result A
answer none a = ok a
answer (some e) a = err (database e)

abbrev pub rows_or_none {ℓ} : {A : Type ℓ} → Option A → Result A
rows_or_none none = err no_rows
rows_or_none (some a) = ok a

abbrev pub answer_one {ℓ} : {A : Type ℓ} → Option DbError → Option A → Result A
answer_one none o = rows_or_none o
answer_one (some e) o = err (database e)

-- The shapes of a sqlc query. A failed call leaves the tables alone.
module _ {ℓ} {A : Type ℓ} where
  -- `:many`, and a `:one` that always has its row
  unfoldable pub query : Call → (Db → A) → M A
  query c f env db = (answer (env.failure_of c) (f db), db)

  -- `:one`
  unfoldable pub query_one : Call → (Db → Option A) → M A
  query_one c f env db = (answer_one (env.failure_of c) (f db), db)

  abbrev pub written : Option DbError → Db → A × Db → Result A × Db
  written none db (a, db') = (ok a, db')
  written (some e) db _ = (err (database e), db)

  -- `INSERT … RETURNING`
  unfoldable pub insert_one : Call → (Env → Db → A × Db) → M A
  insert_one c f env db = written (env.failure_of c) db (f env db)

  abbrev pub written_one : Option DbError → Db → Option (A × Db) → Result A × Db
  written_one none db none = (err no_rows, db)
  written_one none db (some (a, db')) = (ok a, db')
  written_one (some e) db _ = (err (database e), db)

  -- `UPDATE … RETURNING`
  unfoldable pub update_one : Call → (Env → Db → Option (A × Db)) → M A
  update_one c f env db = written_one (env.failure_of c) db (f env db)

-- `:exec`
unfoldable pub exec : Call → (Env → Db → Db) → M (Unit {0})
unfolding insert_one
exec c f = insert_one c (λ env db. (tt, f env db))

-- `if errors.Is(err, pgx.ErrNoRows) { return e }`.
abbrev pub rename_no_rows {ℓ} : {A : Type ℓ} → Error → Result A → Result A
rename_no_rows e (ok a) = ok a
rename_no_rows e (err no_rows) = err e
rename_no_rows e (err other) = err other

abbrev pub replace_error {ℓ} : {A : Type ℓ} → Error → Result A → Result A
replace_error e (ok a) = ok a
replace_error e (err _) = err e

module _ {ℓ} {A : Type ℓ} where
  unfoldable pub or_no_rows : Error → M A → M A
  or_no_rows e m env db = let (r, db') = m env db in (rename_no_rows e r, db')

  -- `if err != nil { return e }`.
  unfoldable pub or_error : Error → M A → M A
  or_error e m env db = let (r, db') = m env db in (replace_error e r, db')

  abbrev pub settle : Db → Result A × Db → Result A × Db
  settle db (ok a, db') = (ok a, db')
  settle db (err e, _) = (err e, db)

  -- `Begin`, the body, `Commit`; the deferred `Rollback` undoes the writes of a body that fails.
  unfoldable pub transaction : M A → M A
  transaction m env db =
      settle db ((do query begin_tx (λ _. tt); a ← m; query commit_tx (λ _. tt); pure a) env db)

  settle_err :
      (db : Db) (p : Result A × Db) {e : Error} {db' : Db} → settle db p ≡ (err e, db') → db' ≡ db
  settle_err db (ok a, d) h = cc
  settle_err db (err e, d) h = sym (ap (λ (p : Result A × Db). p.1) h)

  -- A transaction that reports an error has written nothing.
  pub transaction_atomic :
      (m : M A) (env : Env) (db : Db) {e : Error} {db' : Db}
      → transaction m env db ≡ (err e, db')
      → db' ≡ db
  unfolding transaction
  transaction_atomic m env db h = settle_err db _ h

  -- `Begin` and the body; there is no `Commit`, so the deferred `Rollback` undoes any write.
  unfoldable pub rolled_back : M A → M A
  rolled_back m env db = let (r, _) = (query begin_tx (λ _. tt {0}) >> m) env db in (r, db)
