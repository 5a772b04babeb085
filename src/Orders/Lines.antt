-- ===== src/Orders/Lines.antt =====
-- The lines of a new order: what each costs, and the total.
pub mod Bill
use launlog_api.Prelude.{ℕ, ◌%◌, ◌+◌, not, ◌&&◌, Option, List, [], ◌∷◌, ◌==◌, if◌then◌else◌}
use launlog_api.Prelude.Int.{ℤ, pos, ◌+ℤ◌, times, quo, is_int64}
use launlog_api.Prelude.Text.{Text, Bytes}
use launlog_api.Store.{Service, ServiceUnit, is_pcs}
use launlog_api.Effect.{
  Result, ok, err, invalid_order_quantity, order_total_overflow, order_service_not_found, M, pure,
  lift, query_one, or_no_rows, ◌>>=◌, get_active_order_service,
}
use launlog_api.Query.Creation as Sql
use launlog_api.Actor.{Actor}
use launlog_api.Orders.Quantity.{parse_milli_quantity}

pub record OrderItemInput : Type 0 where
  pub service_id : ℕ
  pub quantity : Bytes
  pub notes : Option Text

pub record CalculatedLine : Type 0 where
  pub input : OrderItemInput
  pub service_name : Text
  pub unit : ServiceUnit
  pub price : ℤ
  pub milli : ℕ
  pub line_total : ℤ

-- The price of so many thousandths of a unit, rounded.
unfoldable pub line_amount : ℕ → ℤ → ℤ
line_amount milli price = quo (times milli price +ℤ pos 500) 1000

-- A sum that must fit an int64.
unfoldable pub fit_int64 : ℤ → Result ℤ
fit_int64 z = if is_int64 z then ok z else err order_total_overflow

abbrev pub with_amount : OrderItemInput → Service → ℕ → Result ℤ → Result CalculatedLine
with_amount item s milli (err e) = err e
with_amount item s milli (ok amount) = ok (record {
  input = item;
  service_name = s.name;
  unit = s.unit;
  price = s.unit_price_amount;
  milli = milli;
  line_total = amount;
})

abbrev pub with_quantity : OrderItemInput → Service → Result ℕ → Result CalculatedLine
with_quantity item s (err e) = err invalid_order_quantity
with_quantity item s (ok milli) =
    if is_pcs s.unit && not (milli % 1000 == 0)
    then err invalid_order_quantity
    else with_amount item s milli (fit_int64 (line_amount milli s.unit_price_amount))

unfoldable pub calculate_line : OrderItemInput → Service → Result CalculatedLine
calculate_line item s = with_quantity item s (parse_milli_quantity item.quantity)

-- The loop over the requested items, with the number of the round and the total so far.
unfoldable pub calculate_lines : Actor → ℕ → ℤ → List OrderItemInput → M (ℤ × List CalculatedLine)
calculate_lines actor round total [] = pure (total, [])
calculate_lines actor round total (item ∷ items) = do
  s ← or_no_rows order_service_not_found (
      query_one (get_active_order_service round)
        (Sql.get_active_order_service actor.business_id item.service_id))
  line ← lift (calculate_line item s)
  sum ← lift (fit_int64 (total +ℤ line.line_total))
  rest ← calculate_lines actor (round + 1) sum items
  pure (rest.0, line ∷ rest.1)
