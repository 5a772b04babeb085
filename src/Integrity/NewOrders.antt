-- ===== src/Integrity/NewOrders.antt =====
-- What `Create` answers for a new order, and for a key that is taken.
use mathlib.Core.Option.{some-injective}
use launlog_api.Prelude.{
  ℕ, ◌+◌, ◌<◌, Bool, true, false, ◌≡◌, inl, inr, some, List, [], ◌∷◌, ◌++◌, map, select,
  select-append, select-none, All, Pairs, All-weaken, arith, refl, sym, ap, subst, ◌∙◌, ==_refl,
}
use launlog_api.Prelude.Int.{pos, ◌≤ℤ◌, InInt64, zero_add}
use launlog_api.Prelude.Text.{Text}
use launlog_api.Store.{Db, Order, OrderItem}
use launlog_api.Effect.{Env, ok}
use launlog_api.Query.Creation as Sql
use launlog_api.Query.Creation.{is_item_of}
use launlog_api.Query.Listing.{sort_by, earlier}
use launlog_api.Actor.{Actor}
use launlog_api.Payments.Steps.{same_hash}
use launlog_api.Orders.Lines.{CalculatedLine}
use launlog_api.Orders.Lines.Bill.{IsPriced, sum_lines}
use launlog_api.Orders.Views.{
  CreateOrderInput, OrderCreationResult, OrderView, order_from, item_from,
}
use launlog_api.Orders.Creation.{PerfumeChoice, create}
use launlog_api.Orders.Creation.Writes.{stored_items}
use launlog_api.Orders.Creation.Billed.{IsBilled, sum_rows, sum_rows-stored, stored-IsBilled}
use launlog_api.Orders.Creation.Outcome.{IsCreated, order_of, create_answer}
use launlog_api.Integrity.{IsSound}

abbrev by_id : OrderItem → OrderItem → Bool
by_id x y = earlier x.id x.id y.id y.id

earlier_next : (n : ℕ) → earlier n n (n + 1) (n + 1) ≡ true
earlier_next n = ground arith

module _ (o : Order) (perfume : PerfumeChoice) where
  -- The rows of the lines are in the order of their ids.
  stored_sorted :
      (next : ℕ) (lines : List CalculatedLine)
      → sort_by by_id (stored_items o perfume next lines) ≡ stored_items o perfume next lines
  stored_sorted next [] = refl
  stored_sorted next (l ∷ []) = refl
  stored_sorted next (l ∷ m ∷ ls) = rw (stored_sorted (next + 1) (m ∷ ls), earlier_next next) refl

  stored_selected :
      (next : ℕ) (lines : List CalculatedLine)
      → select (is_item_of o.business_id o.outlet_id o.id) (stored_items o perfume next lines)
        ≡ stored_items o perfume next lines
  stored_selected next [] = refl
  stored_selected next (l ∷ ls) =
      rw (==_refl o.business_id, ==_refl o.outlet_id, ==_refl o.id, stored_selected (next + 1) ls)
        refl

  -- The items of a new order are its lines, in the order of the request.
  listed_items :
      (lines : List CalculatedLine) (db d : Db)
      → All (λ x. x.order_id < o.id) db.order_items
      → d.order_items ≡ db.order_items ++ stored_items o perfume db.next_item_id lines
      → Sql.list_order_items o.business_id o.outlet_id o.id d
        ≡ stored_items o perfume db.next_item_id lines
  unfolding Sql.list_order_items
  listed_items lines db d below same =
      ap (sort_by by_id) (
        ap (select (is_item_of o.business_id o.outlet_id o.id)) same
        ∙ (select-append (is_item_of o.business_id o.outlet_id o.id) db.order_items _
            ∙ (ap
                  (λ rows.
                    rows
                    ++ select (is_item_of o.business_id o.outlet_id o.id)
                        (stored_items o perfume db.next_item_id lines))
                  (select-none (is_item_of o.business_id o.outlet_id o.id) db.order_items
                    (All-weaken (λ x low. ground arith) db.order_items below))
                ∙ stored_selected db.next_item_id lines)))
      ∙ stored_sorted db.next_item_id lines

module _ (actor : Actor) (input : CreateOrderInput) (env : Env) (db : Db) where
  -- When no service has a negative price, a new order of `Create` appends to the stored items one
  -- row for each requested item, in order, under the order's id: it has the name, the unit and the
  -- price of the active service that the item names, the quantity that its text writes, whole for
  -- pieces, and as amount that price for that quantity rounded to the nearest rupiah, within int64.
  -- The total of the order is the sum of these amounts, not below zero and within int64.
  pub create-IsBill :
      IsPriced db
      → {r : OrderCreationResult} {d : Db} → create actor input env db ≡ (ok r, d)
      → r.replayed ≡ false
      → (rows : List OrderItem) × (d.order_items ≡ db.order_items ++ rows)
        × Pairs (IsBilled actor.business_id r.order.id db) input.items rows
        × (r.order.total_amount ≡ sum_rows rows)
        × (pos 0 ≤ℤ r.order.total_amount)
        × InInt64 r.order.total_amount
  unfolding order_from Sql.allocate_invoice_number
  create-IsBill priced {r} {d} h new = elim (create_answer actor input env db priced h) [
    | inl c ↦
        let o = order_of actor input env db c.outlet c.bill.0 in
        let (of_items, are_lines, is_sum, low, fits) = c.is_bill in
        let is_total : c.bill.0 ≡ r.order.total_amount =
          sym (ap (λ (v : OrderView). v.total_amount) c.answers) in
        let is_id : o.id ≡ r.order.id = sym (ap (λ (v : OrderView). v.id) c.answers) in
        (
          stored_items o c.perfume db.next_item_id c.bill.1,
          ap (λ (x : Db). x.order_items) c.leaves,
          subst
              (λ id.
                Pairs (IsBilled actor.business_id id db) input.items
                  (stored_items o c.perfume db.next_item_id c.bill.1))
              is_id
              (stored-IsBilled o c.perfume db db.next_item_id input.items c.bill.1 of_items
                are_lines),
          sym is_total
              ∙ (is_sum
                  ∙ (zero_add (sum_lines c.bill.1)
                      ∙ sym (sum_rows-stored o c.perfume db db.next_item_id c.bill.1))),
          subst (λ z. pos 0 ≤ℤ z) is_total low,
          subst InInt64 is_total fits,
        )
    | inr same ↦ cc (new, same.is_replay)
  ]

  -- On sound tables, the answer of `Create` for a new order lists the lines of its bill as its
  -- items, in the order of the request.
  pub create_items_listed :
      IsSound db
      → {r : OrderCreationResult} {d : Db} → create actor input env db ≡ (ok r, d)
      → r.replayed ≡ false
      → (c : IsCreated actor input env db r d) × (r.order.items
          ≡ map item_from (
              stored_items
                (order_of actor input env db c.outlet c.bill.0)
                c.perfume
                db.next_item_id
                c.bill.1))
  unfolding order_from Sql.allocate_invoice_number
  create_items_listed sound {r} {d} h new =
      elim (create_answer actor input env db sound.in_range.priced h) [
        | inl c ↦ (
          c,
          ap (λ (v : OrderView). v.items) c.answers
              ∙ ap (map item_from) (
                  listed_items (order_of actor input env db c.outlet c.bill.0) c.perfume c.bill.1 db
                    d sound.in_range.items_below (ap (λ (x : Db). x.order_items) c.leaves)),
        )
        | inr same ↦ cc (new, same.is_replay)
      ]

  -- When the key of a request names an order, `Create` succeeds only for the same request hash: it
  -- writes nothing, and its answer is that order, marked as replayed.
  pub create_key_taken :
      IsPriced db
      → {r : OrderCreationResult} {d : Db} {existing : Order} {timezone : Text}
      → create actor input env db ≡ (ok r, d)
      → Sql.get_order_by_idempotency_key actor.business_id input.outlet_id input.idempotency_key db
        ≡ some (existing, timezone)
      → (same_hash existing.request_hash input.request_hash ≡ true)
        × (d ≡ db)
        × (r.replayed ≡ true)
        × (r.order.id ≡ existing.id)
        × (r.order.total_amount ≡ existing.total_amount)
  unfolding order_from
  create_key_taken priced {existing = existing} h taken =
      elim (create_answer actor input env db priced h) [
        | inl c ↦ cc (taken, c.unused_key)
        | inr same ↦
            let is_existing : same.existing ≡ existing =
              ap (λ (p : Order × Text). p.0) (some-injective _ _ (sym same.used_key ∙ taken)) in
            (
              ap (λ (x : Order). same_hash x.request_hash input.request_hash) (sym is_existing)
                  ∙ same.same_request,
              same.unchanged,
              same.is_replay,
              ap (λ (v : OrderView). v.id) same.answers ∙ ap (λ (x : Order). x.id) is_existing,
              ap (λ (v : OrderView). v.total_amount) same.answers
                  ∙ ap (λ (x : Order). x.total_amount) is_existing,
            )
      ]
