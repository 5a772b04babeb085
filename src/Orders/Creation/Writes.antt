-- ===== src/Orders/Creation/Writes.antt =====
-- What `Create` writes when it succeeds.
use mathlib.Core.List.{append_assoc, append-nil}
use launlog_api.Prelude.{ℕ, ◌+◌, ◌≡◌, none, List, [], ◌∷◌, ◌++◌, length, arith, sym, ◌∙◌}
use launlog_api.Store.{Db, Order, OrderItem, AuditLog, received}
use launlog_api.Effect.{Env}
use launlog_api.Effect.Hoare.{Ensures, Ensures-pure, after_exec, Ensures-weaken}
use launlog_api.Query.Creation as Sql
use launlog_api.Query.Lifecycle.{add_audit, add_history}
use launlog_api.Orders.Lines.{CalculatedLine}
use launlog_api.Orders.Creation.{PerfumeChoice, item_of, create_items}

-- The rows of the lines, with the ids that follow `next`.
abbrev pub stored_items : Order → PerfumeChoice → ℕ → List CalculatedLine → List OrderItem
stored_items o perfume next [] = []
stored_items o perfume next (l ∷ ls) =
    (record (item_of o perfume l) { id = next }) ∷ stored_items o perfume (next + 1) ls

abbrev pub with_items : Db → List OrderItem → ℕ → Db
with_items db items next = record db { order_items = items; next_item_id = next }

abbrev pub after_items : Order → PerfumeChoice → List CalculatedLine → Db → Db
after_items o perfume lines db =
    with_items db (db.order_items ++ stored_items o perfume db.next_item_id lines)
      (db.next_item_id + length lines)

pub create_items-Writes :
    (o : Order) (perfume : PerfumeChoice) (round : ℕ) (lines : List CalculatedLine) (env : Env)
    (db : Db)
    → Ensures env
        (create_items o perfume round lines)
        db
        (λ _ d. d ≡ after_items o perfume lines db)
unfolding create_items Sql.create_order_item
create_items-Writes o perfume round [] env db =
    Ensures-pure _ (λ j. with_items db (sym (append-nil db.order_items) j) (same j))
  where
    same : db.next_item_id ≡ db.next_item_id + 0
    same = omega arith
create_items-Writes o perfume round (l ∷ ls) env db = after_exec _ _ _ (
    Ensures-weaken _ (create_items-Writes o perfume (round + 1) ls env _)
      λ _ d e. e ∙ (λ j. with_items db (items j) (next j)))
  where
    row : OrderItem
    row = record (item_of o perfume l) { id = db.next_item_id }

    items :
        (db.order_items ++ row ∷ []) ++ stored_items o perfume (db.next_item_id + 1) ls
        ≡ db.order_items ++ row ∷ stored_items o perfume (db.next_item_id + 1) ls
    items = append_assoc db.order_items (row ∷ []) _

    next : db.next_item_id + 1 + length ls ≡ db.next_item_id + length (l ∷ ls)
    next = omega arith

-- The tables after the order `o` is created.
abbrev pub created : Order → PerfumeChoice → List CalculatedLine → ℕ → AuditLog → Env → Db → Db
created o perfume lines changed_by log env db = add_audit log (
    add_history o.business_id o.outlet_id o.id none received changed_by none env (
      after_items o perfume lines
        (Sql.insert_order o
          (Sql.allocate_invoice_number o.business_id o.outlet_id env.today env db).1).1))
