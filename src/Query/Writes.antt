-- ===== src/Query/Writes.antt =====
-- What the updates write, when they answer with a row.
use launlog_api.Prelude.{Bool, ◌≡◌, Option, none, some, List, find?, update, refl}
use launlog_api.Store.{Db, Order, Payment}
use launlog_api.Query.Lifecycle.{update_returning, beside, store_orders}
use launlog_api.Query.Payments.{store_payments}

abbrev pub with_orders : Db → List Order → Db
with_orders db rows = record db { orders = rows }

abbrev pub with_payments : Db → List Payment → Db
with_payments db rows = record db { payments = rows }

module _ (db : Db) where
  pub store_orders-writes {ℓ} :
      {A : Type ℓ} (f : Order → A) (test : Order → Bool) (change : Order → Order)
      (rows : List Order) {a : A} {d : Db}
      → store_orders db f (update_returning test change rows) ≡ some (a, d)
      → (o : Order) × (find? test rows ≡ some o)
        × (a ≡ f (change o))
        × (d ≡ with_orders db (update test change rows))
  store_orders-writes {A = A} f test change rows {a} {d} h = go (find? test rows) h
    where
      go :
          (r : Option Order)
          → store_orders db f (beside change (update test change rows) r) ≡ some (a, d)
          → (o : Order) × (r ≡ some o)
            × (a ≡ f (change o))
            × (d ≡ with_orders db (update test change rows))
      go none e = cc
      go (some o) e = (o, refl, cc, cc)

  pub store_payments-writes :
      (test : Payment → Bool) (change : Payment → Payment) (rows : List Payment) {a : Payment}
      {d : Db}
      → store_payments db (update_returning test change rows) ≡ some (a, d)
      → (p : Payment) × (find? test rows ≡ some p)
        × (a ≡ change p)
        × (d ≡ with_payments db (update test change rows))
  store_payments-writes test change rows {a} {d} h = go (find? test rows) h
    where
      go :
          (r : Option Payment)
          → store_payments db (beside change (update test change rows) r) ≡ some (a, d)
          → (p : Payment) × (r ≡ some p)
            × (a ≡ change p)
            × (d ≡ with_payments db (update test change rows))
      go none e = cc
      go (some o) e = (o, refl, cc, cc)
