-- ===== src/Integrity/Creation.antt =====
-- `Create` keeps the whole state sound.
use launlog_api.Prelude.{
  ℕ, ◌+◌, ◌<◌, ◌≡◌, inl, inr, List, [], ◌∷◌, ◌++◌, All, All-append, All-weaken, arith, refl, sym,
  ap, subst,
}
use launlog_api.Prelude.Int.{pos, ◌≤ℤ◌, InInt64}
use launlog_api.Store.{Db, Order, OrderItem, AuditLog}
use launlog_api.Effect.{Env, Result, Error, ok, err}
use launlog_api.Effect.Atomic.{IsAtomic-guard, IsAtomic-transaction}
use launlog_api.Query.Creation as Sql
use launlog_api.Actor.{Actor}
use launlog_api.Orders.Lines.{CalculatedLine}
use launlog_api.Orders.Views.{CreateOrderInput, OrderCreationResult}
use launlog_api.Orders.Creation.{PerfumeChoice, create}
use launlog_api.Orders.Creation.Writes.{created, stored_items}
use launlog_api.Orders.Creation.Outcome.{IsCreated, order_of, create_answer}
use launlog_api.Integrity.{IsInRange, IsSound}
use launlog_api.Integrity.Added.{IsNew, IsLedgerOf-added, added-IsTracked}

-- If `Create` reports an error, whichever it is, the tables are as they were before: no number is
-- taken and no row is left behind.
pub create_error :
    (actor : Actor) (input : CreateOrderInput) (env : Env) (db : Db) {e : Error} {d : Db}
    → create actor input env db ≡ (err e, d)
    → d ≡ db
unfolding create
create_error actor input env db h =
    (IsAtomic-guard _ _ _ (
        IsAtomic-guard _ _ _ (
          IsAtomic-guard _ _ _
            (IsAtomic-guard _ _ _ (IsAtomic-guard _ _ _ (IsAtomic-transaction _)))))).at
      env db _ _ h

module _ (o : Order) (perfume : PerfumeChoice) where
  stored_items_below :
      (next : ℕ) (lines : List CalculatedLine)
      → All (λ (x : OrderItem). x.order_id < o.id + 1) (stored_items o perfume next lines)
  stored_items_below next [] = tt
  stored_items_below next (l ∷ ls) = (omega arith, stored_items_below (next + 1) ls)

module _ (o : Order) (perfume : PerfumeChoice) (lines : List CalculatedLine) (changed_by : ℕ)
    (log : AuditLog) (env : Env) (db : Db) (new : IsNew o) (at_next : o.id ≡ db.next_order_id) where
  created-IsInRange : IsInRange db → IsInRange (created o perfume lines changed_by log env db)
  unfolding Sql.allocate_invoice_number
  created-IsInRange fresh = record {
    orders_below =
        All-append _ db.orders (o ∷ [])
          (All-weaken (λ x low. omega arith) db.orders fresh.orders_below) (omega arith, tt);
    items_below =
        All-append _ db.order_items _
          (All-weaken (λ x low. omega arith) db.order_items fresh.items_below)
          (subst
            (λ n.
              All (λ (x : OrderItem). x.order_id < n + 1)
                (stored_items o perfume db.next_item_id lines))
            at_next (stored_items_below o perfume db.next_item_id lines));
    payments_below = All-weaken (λ x low. omega arith) db.payments fresh.payments_below;
    history_below =
        All-append _ db.order_status_history _
          (All-weaken (λ x low. omega arith) db.order_status_history fresh.history_below)
          (omega arith, tt);
    priced = fresh.priced;
  }

  created-IsSound :
      pos 0 ≤ℤ o.total_amount
      → InInt64 o.total_amount
      → IsSound db
      → IsSound (created o perfume lines changed_by log env db)
  unfolding Sql.allocate_invoice_number
  created-IsSound low range sound =
      let fresh = sound.in_range in
      let below =
        subst (λ n. All (λ (x : Order). x.id < n) db.orders) (sym at_next) fresh.orders_below in
      let unpaid_below = All-weaken (λ p low. omega arith) db.payments fresh.payments_below in
      let old_history =
        All-weaken (λ p low. omega arith) db.order_status_history fresh.history_below in
      let ledger =
        IsLedgerOf-added db.orders db.payments db.order_status_history o below new sound.ledger
          unpaid_below low range in
      record {
        ledger = ledger;
        timeline = record {
          unique = ledger.unique;
          tracked =
              added-IsTracked db.orders db.payments db.order_status_history o below new _ refl refl
                refl refl old_history sound.timeline.tracked;
        };
        in_range = created-IsInRange fresh;
      }

module _ (actor : Actor) (input : CreateOrderInput) (env : Env) (db : Db) where
  pub IsCreated-orders :
      {r : OrderCreationResult} {d : Db} (c : IsCreated actor input env db r d)
      → d.orders ≡ db.orders ++ order_of actor input env db c.outlet c.bill.0 ∷ []
  unfolding Sql.allocate_invoice_number
  IsCreated-orders c = ap (λ (x : Db). x.orders) c.leaves

  -- On sound tables, `Create` leaves sound tables, whether it succeeds, replays an order or fails:
  -- the ledger balances, each history leads to the status of its order, and the ids in use stay
  -- below the next one.
  pub create-IsSound :
      IsSound db
      → (r : Result OrderCreationResult) (d : Db) → create actor input env db ≡ (r, d)
      → IsSound d
  create-IsSound sound (err e) d h = subst IsSound (sym (create_error actor input env db h)) sound
  create-IsSound sound (ok r) d h =
      elim (create_answer actor input env db sound.in_range.priced h) [
        | inl c ↦
            let (_, _, _, low, range) = c.is_bill in
            subst IsSound (sym c.leaves) (
              created-IsSound (order_of actor input env db c.outlet c.bill.0) c.perfume c.bill.1
                actor.user_id c.log env db
                (record {
                  is_received = refl;
                  is_unpaid_yet = refl;
                  not_completed = refl;
                  not_cancelled = refl;
                  not_deleted = refl;
                })
                refl low range sound)
        | inr same ↦ subst IsSound (sym same.unchanged) sound
      ]
