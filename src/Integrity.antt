-- ===== src/Integrity.antt =====
-- The whole state of the order services: the ledger, the timelines, the ids that the tables use and
-- the prices of services, over every sequence of requests.
pub mod Added
pub mod Creation
pub mod NewOrders
pub mod Ids
pub mod Continuity
pub mod Requests
use launlog_api.Prelude.{ℕ, ◌<◌, All}
use launlog_api.Store.{Db}
use launlog_api.Orders.Lines.Bill.{IsPriced}
use launlog_api.Ledger.{IsLedger}
use launlog_api.Timeline.{IsTimeline}

-- The order ids in use are below the next one, and no service has a price below zero.
pub record IsInRange (db : Db) : Type 0 where
  pub orders_below : All (λ o. o.id < db.next_order_id) db.orders
  pub items_below : All (λ x. x.order_id < db.next_order_id) db.order_items
  pub payments_below : All (λ p. p.order_id < db.next_order_id) db.payments
  pub history_below : All (λ h. h.order_id < db.next_order_id) db.order_status_history
  pub priced : IsPriced db

-- The constraints of the tables and what the services keep of them.
pub record IsSound (db : Db) : Type 0 where
  pub ledger : IsLedger db
  pub timeline : IsTimeline db
  pub in_range : IsInRange db
