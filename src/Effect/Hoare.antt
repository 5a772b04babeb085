-- ===== src/Effect/Hoare.antt =====
-- Partial correctness of methods: one rule for each way to begin a `do` block.
use launlog_api.Prelude.{
  Bool, true, false, Option, none, some, ◌≡◌, refl, sym, subst, if◌then◌else◌,
}
use launlog_api.Store.{Db}
use launlog_api.Effect.{
  M, Env, Error, DbError, Call, Result, ok, err, no_rows, pure, raise, lift, asks, query, query_one,
  insert_one, update_one, exec, raise_if, or_no_rows, transaction, rolled_back, settle, continue,
  ◌>>=◌, answer, answer_one, written, written_one, rename_no_rows, or_error, replace_error,
  begin_tx, commit_tx,
}

abbrev pub Post {ℓ} : {A : Type ℓ} → (A → Db → Type 0) → Result A × Db → Type 0
Post Q (ok a, db) = Q a db
Post Q (err e, db) = Unit

-- If `m`, started at `db`, returns, then its result and the tables it leaves satisfy `Q`.
pub record Ensures {ℓ} {A : Type ℓ} (env : Env) (m : M A) (db : Db) (Q : A → Db → Type 0)
    : Type 0 where
  pub at : Post Q (m env db)

pub Ensures-ok {ℓ} :
    {A : Type ℓ} {env : Env} {m : M A} {db : Db} {Q : A → Db → Type 0} {a : A} {db' : Db}
    → Ensures env m db Q
    → m env db ≡ (ok a, db')
    → Q a db'
Ensures-ok {Q = Q} h e = subst (Post Q) e h.at

module _ {ℓ} {A : Type ℓ} {env : Env} {db : Db} {Q : A → Db → Type 0} where
  pub Ensures-pure : (a : A) → Q a db → Ensures env (pure a) db Q
  unfolding pure
  Ensures-pure a h = record { at = h }

  pub Ensures-raise : (e : Error) → Ensures env (raise e) db Q
  unfolding raise
  Ensures-raise e = record { at = tt }

  pub Ensures-lift : (r : Result A) → ((a : A) → r ≡ ok a → Q a db) → Ensures env (lift r) db Q
  unfolding lift
  Ensures-lift (ok a) h = record { at = h a refl }
  Ensures-lift (err e) h = record { at = tt }

  pub Ensures-query_one :
      (c : Call) (f : Db → Option A)
      → ((a : A) → f db ≡ some a → Q a db)
      → Ensures env (query_one c f) db Q
  unfolding query_one
  Ensures-query_one c f h = record { at = go (env.failure_of c) (f db) h }
    where
      go :
          (o : Option DbError) (r : Option A)
          → ((a : A) → r ≡ some a → Q a db)
          → Post Q (answer_one o r, db)
      go none none g = tt
      go none (some a) g = g a refl
      go (some e) r g = tt

  pub Ensures-insert_one :
      (c : Call) (f : Env → Db → A × Db)
      → Q (f env db).0 (f env db).1
      → Ensures env (insert_one c f) db Q
  unfolding insert_one
  Ensures-insert_one c f h = record { at = go (env.failure_of c) }
    where
      go : (o : Option DbError) → Post Q (written o db (f env db))
      go none = h
      go (some e) = tt

  pub Ensures-update_one :
      (c : Call) (f : Env → Db → Option (A × Db))
      → ((a : A) (d : Db) → f env db ≡ some (a, d) → Q a d)
      → Ensures env (update_one c f) db Q
  unfolding update_one
  Ensures-update_one c f h = record { at = go (env.failure_of c) (f env db) h }
    where
      go :
          (o : Option DbError) (r : Option (A × Db))
          → ((a : A) (d : Db) → r ≡ some (a, d) → Q a d)
          → Post Q (written_one o db r)
      go none none g = tt
      go none (some (a, d)) g = g a d refl
      go (some e) r g = tt

  pub Ensures-if :
      (b : Bool) (m n : M A)
      → (b ≡ true → Ensures env m db Q)
      → (b ≡ false → Ensures env n db Q)
      → Ensures env (if b then m else n) db Q
  Ensures-if true m n km kn = km refl
  Ensures-if false m n km kn = kn refl

module _ {ℓ} {A : Type ℓ} {env : Env} {db : Db} {P Q : A → Db → Type 0} where
  pub Ensures-weaken :
      (m : M A) → Ensures env m db P → ((a : A) (d : Db) → P a d → Q a d) → Ensures env m db Q
  Ensures-weaken m h w = record { at = go (m env db) h.at }
    where
      go : (p : Result A × Db) → Post P p → Post Q p
      go (ok a, d) q = w a d q
      go (err e, d) q = tt

module _ {ℓ κ} {A : Type ℓ} {B : Type κ} {env : Env} where
  Post-continue :
      (R : A → Db → Type 0) (Q : B → Db → Type 0) (k : A → M B)
      → ((a : A) (d : Db) → R a d → Ensures env (k a) d Q)
      → (p : Result A × Db) → Post R p
      → Post Q (continue p.0 k env p.1)
  Post-continue R Q k h (ok a, d) r = (h a d r).at
  Post-continue R Q k h (err e, d) r = tt

  pub Ensures-bind :
      (m : M A) (k : A → M B) {db : Db} {R : A → Db → Type 0} {Q : B → Db → Type 0}
      → Ensures env m db R
      → ((a : A) (d : Db) → R a d → Ensures env (k a) d Q)
      → Ensures env (m >>= k) db Q
  unfolding ◌>>=◌
  Ensures-bind m k {db} {R} {Q} h hk = record { at = Post-continue R Q k hk (m env db) h.at }

-- `m` writes nothing, and what it returns satisfies `S`.
abbrev pub Reads {ℓ} : {A : Type ℓ} → Env → M A → Db → (A → Type 0) → Type 0
Reads env m db S = Ensures env m db (λ a d. (d ≡ db) × S a)

module _ {ℓ κ} {A : Type ℓ} {B : Type κ} {env : Env} {db : Db} {Q : B → Db → Type 0} where
  pub after_read :
      (m : M A) (k : A → M B) {S : A → Type 0}
      → Reads env m db S
      → ((a : A) → S a → Ensures env (k a) db Q)
      → Ensures env (m >>= k) db Q
  after_read m k h g =
      Ensures-bind m k h (λ a d r. subst (λ d. Ensures env (k a) d Q) (sym r.0) (g a r.1))

  pub after_asks :
      (f : Env → A) (k : A → M B) → Ensures env (k (f env)) db Q → Ensures env (asks f >>= k) db Q
  unfolding ◌>>=◌ asks
  after_asks f k h = record { at = h.at }

  pub after_query :
      (c : Call) (f : Db → A) (k : A → M B)
      → Ensures env (k (f db)) db Q
      → Ensures env (query c f >>= k) db Q
  unfolding ◌>>=◌ query
  after_query c f k h = record { at = go (env.failure_of c) }
    where
      go : (o : Option DbError) → Post Q (continue (answer o (f db)) k env db)
      go none = h.at
      go (some e) = tt

  pub after_query_one :
      (c : Call) (f : Db → Option A) (k : A → M B)
      → ((a : A) → f db ≡ some a → Ensures env (k a) db Q)
      → Ensures env (query_one c f >>= k) db Q
  unfolding ◌>>=◌ query_one
  after_query_one c f k h = record { at = go (env.failure_of c) (f db) h }
    where
      go :
          (o : Option DbError) (r : Option A)
          → ((a : A) → r ≡ some a → Ensures env (k a) db Q)
          → Post Q (continue (answer_one o r) k env db)
      go none none g = tt
      go none (some a) g = (g a refl).at
      go (some e) r g = tt

  pub after_insert_one :
      (c : Call) (f : Env → Db → A × Db) (k : A → M B)
      → Ensures env (k (f env db).0) (f env db).1 Q
      → Ensures env (insert_one c f >>= k) db Q
  unfolding ◌>>=◌ insert_one
  after_insert_one c f k h = record { at = go (env.failure_of c) }
    where
      go : (o : Option DbError) → let p = written o db (f env db) in Post Q (continue p.0 k env p.1)
      go none = h.at
      go (some e) = tt

  pub after_update_one :
      (c : Call) (f : Env → Db → Option (A × Db)) (k : A → M B)
      → ((a : A) (d : Db) → f env db ≡ some (a, d) → Ensures env (k a) d Q)
      → Ensures env (update_one c f >>= k) db Q
  unfolding ◌>>=◌ update_one
  after_update_one c f k h = record { at = go (env.failure_of c) (f env db) h }
    where
      go :
          (o : Option DbError) (r : Option (A × Db))
          → ((a : A) (d : Db) → r ≡ some (a, d) → Ensures env (k a) d Q)
          → let p = written_one o db r in Post Q (continue p.0 k env p.1)
      go none none g = tt
      go none (some (a, d)) g = (g a d refl).at
      go (some e) r g = tt

  pub after_lift :
      (r : Result A) (k : A → M B)
      → ((a : A) → r ≡ ok a → Ensures env (k a) db Q)
      → Ensures env (lift r >>= k) db Q
  unfolding ◌>>=◌ lift
  after_lift r k h = record { at = go r h }
    where
      go :
          (r : Result A)
          → ((a : A) → r ≡ ok a → Ensures env (k a) db Q)
          → Post Q (continue r k env db)
      go (ok a) g = (g a refl).at
      go (err e) g = tt

  pub after_ok :
      (a : A) (k : A → M B) → Ensures env (k a) db Q → Ensures env (lift (ok a) >>= k) db Q
  unfolding ◌>>=◌ lift
  after_ok a k h = record { at = h.at }

module _ {κ} {B : Type κ} {env : Env} {db : Db} {Q : B → Db → Type 0} where
  pub after_exec :
      (c : Call) (f : Env → Db → Db) (k : Unit {0} → M B)
      → Ensures env (k tt) (f env db) Q
      → Ensures env (exec c f >>= k) db Q
  unfolding exec
  after_exec c f k h = after_insert_one c _ k h

  pub after_raise_if :
      (b : Bool) (e : Error) (k : Unit {0} → M B)
      → (b ≡ false → Ensures env (k tt) db Q)
      → Ensures env (raise_if b e >>= k) db Q
  unfolding ◌>>=◌ raise_if
  after_raise_if b e k h = record { at = go b h }
    where
      go :
          (b : Bool)
          → (b ≡ false → Ensures env (k tt) db Q)
          → Post Q (continue (if b then err e else ok tt) k env db)
      go true g = tt
      go false g = (g refl).at

pub Ensures-exec :
    {env : Env} {db : Db} {Q : Unit {0} → Db → Type 0} (c : Call) (f : Env → Db → Db)
    → Q tt (f env db)
    → Ensures env (exec c f) db Q
unfolding exec insert_one
Ensures-exec {env} {db} {Q} c f h = record { at = go (env.failure_of c) }
  where
    go : (o : Option DbError) → Post Q (written o db (tt, f env db))
    go none = h
    go (some e) = tt

module _ {ℓ} {A : Type ℓ} {env : Env} {db : Db} {Q : A → Db → Type 0} where
  pub Ensures-or_no_rows :
      (e : Error) (m : M A) → Ensures env m db Q → Ensures env (or_no_rows e m) db Q
  unfolding or_no_rows
  Ensures-or_no_rows e m h = record { at = go (m env db) h.at }
    where
      go : (p : Result A × Db) → Post Q p → Post Q (rename_no_rows e p.0, p.1)
      go (ok a, d) q = q
      go (err no_rows, d) q = tt
      go (err _, d) q = tt

  pub Ensures-or_error :
      (e : Error) (m : M A) → Ensures env m db Q → Ensures env (or_error e m) db Q
  unfolding or_error
  Ensures-or_error e m h = record { at = go (m env db) h.at }
    where
      go : (p : Result A × Db) → Post Q p → Post Q (replace_error e p.0, p.1)
      go (ok a, d) q = q
      go (err _, d) q = tt

  pub Ensures-transaction : (m : M A) → Ensures env m db Q → Ensures env (transaction m) db Q
  unfolding transaction
  Ensures-transaction m h = record {
    at =
        go _
          (after_query begin_tx _ _
            (Ensures-bind m _ h λ a d q. after_query commit_tx _ _ (Ensures-pure a q))).at;
  }
    where
      go : (p : Result A × Db) → Post Q p → Post Q (settle db p)
      go (ok a, d) q = q
      go (err e, d) q = tt

module _ {ℓ} {A : Type ℓ} {env : Env} {db : Db} where
  pub Ensures-rolled_back :
      {S : A → Type 0} (m : M A) → Reads env m db S → Reads env (rolled_back m) db S
  unfolding rolled_back
  Ensures-rolled_back {S} m h = record { at = go _ (after_query begin_tx _ _ h).at }
    where
      go :
          (p : Result A × Db)
          → Post (λ a d. (d ≡ db) × S a) p
          → Post (λ a d. (d ≡ db) × S a) (p.0, db)
      go (ok a, d) q = (refl, q.1)
      go (err e, d) q = tt
