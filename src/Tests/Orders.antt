-- ===== src/Tests/Orders.antt =====
-- The theorems about new orders and about sequences of requests at work on the stocked shop.
use launlog_api.Prelude.{
  ℕ, Bool, true, ◌≡◌, some, none, find?, refl, arith, inr, List, ◌++◌, map, Pairs,
}
use launlog_api.Prelude.Int.{pos, ◌≤ℤ◌, InInt64}
use launlog_api.Prelude.Text.{codes}
use launlog_api.Store.{Db, Order, OrderItem, cancelled, processing}
use launlog_api.Effect.{ok}
use launlog_api.Query.Lifecycle.{is_order, marked_cancelled}
use launlog_api.Query.Creation as Sql
use launlog_api.Payments.Steps.{same_hash}
use launlog_api.Orders.Quantity.{format_quantity, numeric_text, parse_milli_quantity}
use launlog_api.Orders.Quantity.RoundTrip.{parse_milli_quantity-format_quantity}
use launlog_api.Orders.Lifecycle.{cancel, transition_status}
use launlog_api.Orders.Views.{OrderCreationResult, item_from}
use launlog_api.Orders.Creation.{create}
use launlog_api.Orders.Creation.Writes.{stored_items}
use launlog_api.Orders.Creation.Billed.{IsBilled, sum_rows}
use launlog_api.Orders.Creation.Outcome.{IsCreated, order_of}
use launlog_api.Orders.Creation.Retry.{create_retry}
use launlog_api.Orders.Creation.Numbers.{
  allocate_invoice_number_counts, invoice_number_of-injective, next_number,
}
use launlog_api.Integrity.{IsSound}
use launlog_api.Integrity.Creation.{create-IsSound}
use launlog_api.Integrity.NewOrders.{create-IsBill, create_items_listed, create_key_taken}
use launlog_api.Integrity.Continuity.{Continues}
use launlog_api.Integrity.Requests.{Reaches, begins, then, creates, cancels, transitions}
use launlog_api.Integrity.Requests.Soundness.{Reaches-IsSound}
use launlog_api.Integrity.Requests.Orders.{Reaches-Continues, Reaches-final}
use launlog_api.Tests.{owner, healthy, healthy-IsHealthy, wash}
use launlog_api.Tests.Stock.{
  stocked, stocked-IsSound, two_bags, ordered, first_order, order_run, retry_run, new_row,
  ordered_key, closed, closed_found,
}

-- An order is created, and another cancelled.
abbrev cancelled_after : Db
cancelled_after = (cancel owner 7 (codes "no") healthy ordered).1

two_requests : Reaches stocked cancelled_after
two_requests =
    then ordered cancelled_after
      (then stocked ordered begins (creates owner two_bags healthy _ order_run))
      (cancels owner 7 (codes "no") healthy _ refl)

ordered-IsSound : IsSound ordered
ordered-IsSound = create-IsSound owner two_bags healthy stocked stocked-IsSound _ _ order_run

closed-IsSound : IsSound closed
closed-IsSound =
    Reaches-IsSound stocked closed stocked-IsSound
      (then stocked closed begins (cancels owner 7 (codes "no") healthy _ refl))

create-IsSound_example : IsSound ordered
create-IsSound_example = create-IsSound owner two_bags healthy stocked stocked-IsSound _ _ order_run

Reaches-IsSound_example : IsSound cancelled_after
Reaches-IsSound_example = Reaches-IsSound stocked cancelled_after stocked-IsSound two_requests

Reaches-Continues_example :
    (o' : Order) × (find? (is_order 1 7) cancelled_after.orders ≡ some o') × Continues wash o'
Reaches-Continues_example =
    Reaches-Continues stocked cancelled_after 1 7 wash stocked-IsSound two_requests refl

create-IsBill_example :
    (rows : List OrderItem) × (ordered.order_items ≡ stocked.order_items ++ rows)
    × Pairs (IsBilled 1 8 stocked) two_bags.items rows
    × (pos 10507 ≡ sum_rows rows)
    × (pos 0 ≤ℤ pos 10507)
    × InInt64 (pos 10507)
create-IsBill_example =
    create-IsBill owner two_bags healthy stocked stocked-IsSound.in_range.priced order_run refl

create_items_listed_example :
    (c : IsCreated owner two_bags healthy stocked first_order ordered) × (first_order.order.items
      ≡ map item_from (
          stored_items
            (order_of owner two_bags healthy stocked c.outlet c.bill.0)
            c.perfume
            1
            c.bill.1))
create_items_listed_example =
    create_items_listed owner two_bags healthy stocked stocked-IsSound order_run refl

create_retry_example :
    (again : OrderCreationResult) × (create owner two_bags healthy ordered ≡ (ok again, ordered))
    × (again.replayed ≡ true)
    × (again.order.id ≡ 8)
    × (again.order.invoice_number ≡ first_order.order.invoice_number)
    × (again.order.total_amount ≡ pos 10507)
    × (again.order.items ≡ first_order.order.items)
create_retry_example =
    create_retry owner two_bags healthy healthy stocked stocked-IsSound.in_range.priced
      healthy-IsHealthy order_run refl

allocate_invoice_number_counts_example :
    let (number, d) = Sql.allocate_invoice_number 1 3 20260101 healthy stocked in
    (number ≡ (20260101, 1)) × (next_number 1 3 20260101 d.invoice_counters ≡ 2)
allocate_invoice_number_counts_example =
    allocate_invoice_number_counts 1 3 20260101 1 3 20260101 healthy stocked

invoice_number_of-injective_example : (◌≡◌ {A = ℕ} 20260101 20260101) × (◌≡◌ {A = ℕ} 7 7)
invoice_number_of-injective_example =
    invoice_number_of-injective (codes "A") 20260101 7 20260101 7 (omega arith) (omega arith) refl

parse_milli_quantity-format_quantity_example :
    parse_milli_quantity (format_quantity (numeric_text (pos 1500))) ≡ ok 1500
parse_milli_quantity-format_quantity_example =
    parse_milli_quantity-format_quantity 1500 (omega arith) (omega arith)

create_key_taken_example :
    (same_hash new_row.request_hash two_bags.request_hash ≡ true)
    × (ordered ≡ ordered)
    × (◌≡◌ {A = Bool} true true)
    × (◌≡◌ {A = ℕ} 8 8)
    × (pos 10507 ≡ pos 10507)
create_key_taken_example =
    create_key_taken owner two_bags healthy ordered ordered-IsSound.in_range.priced retry_run
      ordered_key

-- A request to move the cancelled order is refused.
Reaches-final_example :
    (o' : Order) × (find?
        (is_order 1 7)
        (transition_status owner 7 processing none healthy closed).1.orders
      ≡ some o')
    × (o'.status ≡ cancelled)
Reaches-final_example =
    Reaches-final closed (transition_status owner 7 processing none healthy closed).1 1 7
      (marked_cancelled 2 (codes "no") 60 wash) closed-IsSound
      (then closed _ begins (transitions owner 7 processing none healthy _ refl)) closed_found
      (inr refl)
