-- ===== src/Tests.antt =====
-- A small shop, and runs of the methods on it.
mod Runs
mod Witnesses
mod Stock
mod Orders
mod Limits
mod Settings
mod Catalog
mod Sessions
use mathlib.Core.Path.{subst₂}
use launlog_api.Prelude.{
  find?-true, ℕ, Bool, true, false, ◌≡◌, ◌==◌, Option, none, some, List, [], ◌∷◌, find?, refl, sym,
  subst, arith, replicate, Bool-cases, inl, inr,
}
use launlog_api.Prelude.Int.{pos, InInt64}
use launlog_api.Prelude.Text.{Text, codes}
use launlog_api.Store.{
  Db, Order, Payment, OrderStatusHistory, Outlet, User, received, unpaid, cash, qris, admin,
}
use launlog_api.Effect.{Env, ok, err}
use launlog_api.Effect.Run.{IsHealthy}
use launlog_api.Query.Lifecycle.{is_order}
use launlog_api.Query.Payments.{confirmed_total}
use launlog_api.Actor.{Actor}
use launlog_api.Payments.Amounts.{payment_status_for}
use launlog_api.Payments.Views.{RecordPaymentInput}
use launlog_api.Ledger.{IsBalanced, IsLedger}
use launlog_api.Ledger.Totals.{is_order_key}
use launlog_api.Timeline.{Follows, created_as_received, IsTracked, IsTimeline}

abbrev pub owner : Actor
owner = record {
  business_id = 1;
  user_id = 2;
  role = admin;
  outlet_ids = [];
  ip = none;
  user_agent = [];
}

abbrev pub wash : Order
wash = record {
  id = 7;
  business_id = 1;
  outlet_id = 3;
  outlet_code_snapshot = none;
  customer_id = 5;
  invoice_number = [];
  status = received;
  payment_status = unpaid;
  total_amount = pos 10000;
  notes = none;
  received_at = 50;
  due_at = none;
  completed_at = none;
  cancelled_at = none;
  cancelled_by = none;
  cancellation_reason = none;
  deleted_at = none;
  created_by = 2;
  created_at = 50;
  updated_at = 50;
  idempotency_key = none;
  request_hash = none;
}

abbrev pub created : OrderStatusHistory
created = record {
  id = 1;
  business_id = 1;
  outlet_id = 3;
  order_id = 7;
  from_status = none;
  to_status = received;
  changed_by = 2;
  notes = none;
  changed_at = 50;
}

abbrev pub shop : Db
shop = record {
  orders = wash ∷ [];
  order_items = [];
  order_status_history = created ∷ [];
  payments = [];
  payment_refunds = [];
  audit_logs = [];
  invoice_counters = [];
  outlets = (record { id = 3; business_id = 1; code = []; is_active = true; timezone = [] }) ∷ [];
  users =
      (record {
        id = 2;
        business_id = 1;
        email = [];
        password_hash = [];
        full_name = [];
        role = admin;
        is_active = true;
      })
      ∷ [];
  user_outlets = [];
  customers = [];
  services = [];
  perfumes = [];
  businesses = [];
  user_permissions = [];
  session_families = [];
  refresh_tokens = [];
  next_order_id = 8;
  next_item_id = 1;
  next_history_id = 2;
  next_payment_id = 1;
  next_service_id = 5;
  next_family_id = 1;
  next_token_id = 1;
}

abbrev pub healthy : Env
healthy = record { now = 60; today = 1; clock = 60; random = none; failure_of = λ c. none }

pub healthy-IsHealthy : IsHealthy healthy
healthy-IsHealthy = record { at = λ c. refl }

-- 15000 in cash for an order of 10000.
abbrev pub tender : RecordPaymentInput
tender = record {
  tendered_amount = pos 15000;
  method = cash;
  external_reference = none;
  notes = none;
  idempotency_key = codes "k1";
  request_hash = replicate 32 1;
}

-- The key of `tender` with another hash.
abbrev pub changed_tender : RecordPaymentInput
changed_tender = record tender { method = qris; request_hash = replicate 32 2 }

only_order : (x : Order) (b i : ℕ) (o : Order) → find? (is_order b i) (x ∷ []) ≡ some o → x ≡ o
only_order x b i o h = elim (Bool-cases (is_order b i x)) [ inl hit ↦ ground arith | inr miss ↦ cc ]

wash-IsBalanced : IsBalanced [] wash
unfolding confirmed_total payment_status_for
wash-IsBalanced = record {
  in_range = omega arith;
  covered = omega arith;
  status_agrees = refl;
  cancelled_unpaid = λ h. refl;
}

pub shop-IsLedger : IsLedger shop
shop-IsLedger = record {
  unique = (refl, tt);
  positive = tt;
  balanced = λ b i o found. subst (IsBalanced []) (only_order wash b i o found) wash-IsBalanced;
}

pub created-Follows : Follows (created ∷ []) received
created-Follows = created_as_received created refl refl

wash-IsTracked : IsTracked (created ∷ []) 1 7 wash
wash-IsTracked = record {
  follows = created-Follows;
  completed_stamp = refl;
  cancelled_stamp = refl;
  deleted_stamp = refl;
}

pub shop-IsTimeline : IsTimeline shop
shop-IsTimeline = record {
  unique = (refl, tt);
  tracked = λ b i o found.
      let (eb, ei) = is_order_key b i o (find?-true (is_order b i) (wash ∷ []) found) in
      subst₂ (λ b i. IsTracked (created ∷ []) b i o) eb ei
        (subst (λ (o : Order). IsTracked (created ∷ []) o.business_id o.id o)
          (only_order wash b i o found) wash-IsTracked);
}
