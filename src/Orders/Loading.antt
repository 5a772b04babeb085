-- ===== src/Orders/Loading.antt =====
-- `loadOrder`, and `OrderCatalog.Get`.
use launlog_api.Prelude.{ℕ, map}
use launlog_api.Prelude.Text.{Text}
use launlog_api.Store.{Order, is_admin}
use launlog_api.Effect.{
  M, pure, query, query_one, or_no_rows, ◌>>=◌, order_not_found, list_order_items, get_order,
}
use launlog_api.Query.Creation as Sql
use launlog_api.Actor.{Actor}
use launlog_api.Orders.Views.{OrderView, order_from, item_from}

-- The row of an order with its items.
unfoldable pub load_order : Order → Text → M OrderView
load_order o timezone = do
  items ← query list_order_items (Sql.list_order_items o.business_id o.outlet_id o.id)
  pure (order_from o timezone (map item_from items))

unfoldable pub get : Actor → ℕ → M OrderView
get actor order_id = do
  row ← or_no_rows order_not_found (
      query_one get_order
        (Sql.get_order actor.business_id order_id (is_admin actor.role) actor.outlet_ids))
  load_order row.0 row.1
