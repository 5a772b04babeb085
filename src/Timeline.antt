-- ===== src/Timeline.antt =====
-- The life of the orders: what the status history, the status and the time stamps of an order must
-- say of one another.
pub mod Moving
pub mod Steps
pub mod Money
pub mod Changes
pub mod Outcomes
pub mod Payments
use launlog_api.Prelude.{
  ℕ, ◌+◌, Bool, true, ◌≡◌, ◌≤◌, ◌&&◌, Option, none, some, List, [], ◌∷◌, ◌++◌, ◌==◌, find?, select,
  length, length-append, arith, subst, refl,
}
use launlog_api.Store.{
  Db, Order, OrderStatus, OrderStatusHistory, received, processing, ready_for_pickup, completed,
  cancelled, other_status, is_completed, is_cancelled,
}
use launlog_api.Query.Lifecycle.{is_order}
use launlog_api.Orders.Status.{allowed_order_transition}
use launlog_api.Payments.Record.{is_some}
use launlog_api.Ledger.{IsUnique}

-- The rows of a history lead from the creation of an order to a status, by allowed steps.
pub data Follows : List OrderStatusHistory → OrderStatus → Type 0 where
  created_as_received :
      (h : OrderStatusHistory)
      → h.from_status ≡ none
      → h.to_status ≡ received
      → Follows (h ∷ []) received
  moved :
      (hs : List OrderStatusHistory) (s : OrderStatus) (h : OrderStatusHistory)
      → Follows hs s
      → h.from_status ≡ some s
      → allowed_order_transition s h.to_status ≡ true
      → Follows (hs ++ h ∷ []) h.to_status

-- The most rows that the history of an order at this status can have.
abbrev pub most_rows : OrderStatus → ℕ
most_rows received = 1
most_rows processing = 2
most_rows ready_for_pickup = 3
most_rows _ = 4

most_rows_step :
    (s s' : OrderStatus) → allowed_order_transition s s' ≡ true → most_rows s + 1 ≤ most_rows s'
unfolding allowed_order_transition
most_rows_step s s' h = ground arith

-- A history that follows the steps has at most one, two and three rows at RECEIVED, PROCESSING and
-- READY_FOR_PICKUP, and at most four at any other status.
pub Follows-length :
    (hs : List OrderStatusHistory) (s : OrderStatus) → Follows hs s → length hs ≤ most_rows s
Follows-length hs s (created_as_received h e e') = omega arith
Follows-length hs s (moved hs' s' h f e step) =
    omega (
      arith,
      length-append hs' (h ∷ []),
      Follows-length hs' s' f,
      most_rows_step s' h.to_status step,
    )

abbrev pub is_history_of : ℕ → ℕ → OrderStatusHistory → Bool
is_history_of b i h = h.business_id == b && h.order_id == i

-- The history of the order that the key `b`, `i` names ends at its status, and each time stamp is
-- there exactly at the status it belongs to.
pub record IsTracked (history : List OrderStatusHistory) (b i : ℕ) (o : Order) : Type 0 where
  pub follows : Follows (select (is_history_of b i) history) o.status
  pub completed_stamp : is_some o.completed_at ≡ is_completed o.status
  pub cancelled_stamp : is_some o.cancelled_at ≡ is_cancelled o.status
  pub deleted_stamp : is_some o.deleted_at ≡ is_cancelled o.status

pub record IsTimeline (db : Db) : Type 0 where
  pub unique : IsUnique db.orders
  pub tracked :
      (b i : ℕ) (o : Order)
      → find? (is_order b i) db.orders ≡ some o
      → IsTracked db.order_status_history b i o
