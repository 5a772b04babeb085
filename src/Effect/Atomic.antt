-- ===== src/Effect/Atomic.antt =====
-- Methods that write nothing when they fail: guards before a transaction.
use launlog_api.Prelude.{Bool, true, false, ◌≡◌, sym, ap}
use launlog_api.Store.{Db}
use launlog_api.Effect.{
  M, Env, Error, Result, err, raise_if, transaction, transaction_atomic, ◌>>=◌,
}

pub record IsAtomic {ℓ} {A : Type ℓ} (m : M A) : Type ℓ where
  pub at : (env : Env) (db : Db) (e : Error) (d : Db) → m env db ≡ (err e, d) → d ≡ db

module _ {ℓ} {A : Type ℓ} where
  pub IsAtomic-transaction : (m : M A) → IsAtomic (transaction m)
  IsAtomic-transaction m = record { at = λ env db e d h. transaction_atomic m env db h }

  guard_atomic :
      (e : Error) (m : M A)
      → IsAtomic m
      → (env : Env) (db : Db) (e' : Error) (d : Db) (b : Bool)
      → (raise_if b e >>= λ _. m) env db ≡ (err e', d)
      → d ≡ db
  unfolding ◌>>=◌ raise_if
  guard_atomic e m h env db e' d true eq = sym (ap (λ (p : Result A × Db). p.1) eq)
  guard_atomic e m h env db e' d false eq = h.at env db e' d eq

  pub IsAtomic-guard :
      (b : Bool) (e : Error) (m : M A) → IsAtomic m → IsAtomic (raise_if b e >>= λ _. m)
  IsAtomic-guard b e m h = record { at = λ env db e' d eq. guard_atomic e m h env db e' d b eq }
