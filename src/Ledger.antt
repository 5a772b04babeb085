-- ===== src/Ledger.antt =====
-- The ledger of the orders: what the payments of an order and its row must say of one another.
pub mod Totals
pub mod Keys
pub mod Settle
pub mod Credit
pub mod Recording
pub mod RecordPayment
pub mod Voiding
pub mod VoidPayment
pub mod Voided
pub mod Voids
pub mod Outcomes
pub mod Retry
pub mod Replay
pub mod Listing
use launlog_api.Prelude.{ℕ, Bool, true, ◌≡◌, Option, none, some, List, [], ◌∷◌, find?, All}
use launlog_api.Prelude.Int.{ℤ, pos, ◌≤ℤ◌, InInt64}
use launlog_api.Store.{Db, Order, Payment, is_cancelled}
use launlog_api.Query.Lifecycle.{is_order}
use launlog_api.Query.Payments.{confirmed_total}
use launlog_api.Payments.Amounts.{payment_status_for}

-- UNIQUE (business_id, id).
abbrev pub IsUnique : List Order → Type 0
IsUnique [] = Unit
IsUnique (o ∷ os) = (find? (is_order o.business_id o.id) os ≡ none) × IsUnique os

-- The confirmed payments of an order, summed.
abbrev pub credited : List Payment → Order → ℤ
credited payments o = confirmed_total o.business_id o.outlet_id o.id payments

-- An order agrees with its payments: no more is credited than it costs, its payment status is the
-- one that the credit implies, and a cancelled order has no credit.
pub record IsBalanced (payments : List Payment) (o : Order) : Type 0 where
  pub in_range : InInt64 o.total_amount
  pub covered : credited payments o ≤ℤ o.total_amount
  pub status_agrees : o.payment_status ≡ payment_status_for o.total_amount (credited payments o)
  pub cancelled_unpaid : is_cancelled o.status ≡ true → credited payments o ≡ pos 0

-- Every order that a key names is balanced, and every payment is above zero.
pub record IsLedgerOf (orders : List Order) (payments : List Payment) : Type 0 where
  pub unique : IsUnique orders
  pub positive : All (λ p. pos 1 ≤ℤ p.amount) payments
  pub balanced :
      (b i : ℕ) (o : Order) → find? (is_order b i) orders ≡ some o → IsBalanced payments o

abbrev pub IsLedger : Db → Type 0
IsLedger db = IsLedgerOf db.orders db.payments
