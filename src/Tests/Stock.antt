-- ===== src/Tests/Stock.antt =====
-- The small shop with a service and a customer, and a new order.
use launlog_api.Prelude.{true, false, ◌≡◌, none, some, refl, arith, [], ◌∷◌, replicate, find?}
use launlog_api.Prelude.Int.{pos, ◌+ℤ◌, times, quo, is_int64}
use launlog_api.Prelude.Text.{codes, trim_space}
use launlog_api.Prelude.Digits.{padded, digits, digits_onto}
use launlog_api.Store.{Db, Order, kg, received, unpaid}
use launlog_api.Effect.{
  ok, transaction, pure, raise_if, lift, asks, query, query_one, insert_one, update_one, exec,
  or_no_rows, ◌>>=◌,
}
use launlog_api.Query.Creation as Sql
use launlog_api.Query.Lifecycle as Orders
use launlog_api.Query.Lifecycle.{is_order, marked_cancelled}
use launlog_api.Orders.Status.{allowed_order_transition}
use launlog_api.Orders.Lifecycle.{
  cancel, cancel_body, lock_lifecycle_order, lock_assignment, insert_lifecycle_audit,
}
use launlog_api.Actor.{audit_user_agent}
use launlog_api.Orders.Quantity.{
  parse_milli_quantity, parse_parts, with_fraction, check_milli, format_quantity,
}
use launlog_api.Orders.Lines.{line_amount, fit_int64, calculate_line, calculate_lines}
use launlog_api.Orders.Views.{CreateOrderInput, OrderCreationResult, item_from, order_from}
use launlog_api.Orders.Loading.{load_order}
use launlog_api.Orders.Creation.{
  create, create_body, create_new, replay_order, write_order, create_items, choose_perfume,
  check_staff_outlet, invoice_number_of,
}
use launlog_api.Integrity.{IsSound}
use launlog_api.Tests.{owner, wash, shop, healthy, shop-IsLedger, shop-IsTimeline}

abbrev pub stocked : Db
stocked = record shop {
  customers = (record { id = 5; business_id = 1; deleted_at = none }) ∷ [];
  services =
      (record {
        id = 4;
        business_id = 1;
        name = codes "Wash";
        description = none;
        unit = kg;
        unit_price_amount = pos 7000;
        estimated_duration_minutes = pos 60;
        is_active = true;
        created_at = 50;
        updated_at = 50;
        deleted_at = none;
      })
      ∷ [];
}

-- A kilo and a half, and a tenth more of a kilo.
abbrev pub two_bags : CreateOrderInput
two_bags = record {
  outlet_id = 3;
  customer_id = 5;
  perfume_id = none;
  due_at = none;
  notes = none;
  items =
      (record { service_id = 4; quantity = codes "1.5"; notes = none })
      ∷ (record { service_id = 4; quantity = codes "0.001"; notes = none })
      ∷ [];
  idempotency_key = codes "n1";
  request_hash = replicate 32 3;
}

pub stocked-IsSound : IsSound stocked
stocked-IsSound = record {
  ledger = shop-IsLedger;
  timeline = record { unique = shop-IsTimeline.unique; tracked = shop-IsTimeline.tracked };
  in_range = record {
    orders_below = (omega arith, tt);
    items_below = tt;
    payments_below = tt;
    history_below = (omega arith, tt);
    priced = (omega arith, tt);
  };
}

-- The shop after the order, and its answer.
abbrev pub ordered : Db
ordered = (create owner two_bags healthy stocked).1

abbrev pub first_order : OrderCreationResult
first_order = record {
  order = record {
    id = 8;
    business_id = 1;
    outlet_timezone = [];
    outlet_id = 3;
    customer_id = 5;
    invoice_number = codes "-00000001-000001";
    status = received;
    payment_status = unpaid;
    total_amount = pos 10507;
    notes = none;
    received_at = 60;
    due_at = none;
    created_by = 2;
    created_at = 60;
    updated_at = 60;
    items =
        (record {
          id = 1;
          service_id = 4;
          perfume_id = none;
          service_name_snapshot = codes "Wash";
          service_unit_snapshot = kg;
          unit_price_amount_snapshot = pos 7000;
          perfume_name_snapshot = none;
          quantity = codes "1.5";
          line_total_amount = pos 10500;
          notes = none;
        })
        ∷ (record {
          id = 2;
          service_id = 4;
          perfume_id = none;
          service_name_snapshot = codes "Wash";
          service_unit_snapshot = kg;
          unit_price_amount_snapshot = pos 7000;
          perfume_name_snapshot = none;
          quantity = codes "0.001";
          line_total_amount = pos 7;
          notes = none;
        })
        ∷ [];
  };
  replayed = false;
}

pub order_run : create owner two_bags healthy stocked ≡ (ok first_order, ordered)
unfolding create create_body create_new replay_order write_order create_items choose_perfume
    check_staff_outlet invoice_number_of load_order item_from order_from line_amount fit_int64
    calculate_line calculate_lines parse_milli_quantity parse_parts with_fraction check_milli
    format_quantity transaction pure raise_if lift asks query query_one insert_one exec or_no_rows
    ◌>>=◌ audit_user_agent Sql.get_active_order_outlet Sql.get_active_staff_order_outlet
    Sql.get_order_by_idempotency_key Sql.get_active_order_customer Sql.get_active_order_perfume
    Sql.get_active_order_service Sql.allocate_invoice_number Sql.create_order Sql.create_order_item
    Sql.create_initial_order_status Sql.insert_order_audit_log Sql.list_order_items padded digits
    digits_onto times quo is_int64 ◌+ℤ◌
order_run = refl

pub retry_run :
    create owner two_bags healthy ordered ≡ (ok (record first_order { replayed = true }), ordered)
unfolding create create_body create_new replay_order write_order create_items choose_perfume
    check_staff_outlet invoice_number_of load_order item_from order_from line_amount fit_int64
    calculate_line calculate_lines parse_milli_quantity parse_parts with_fraction check_milli
    format_quantity transaction pure raise_if lift asks query query_one insert_one exec or_no_rows
    ◌>>=◌ audit_user_agent Sql.get_active_order_outlet Sql.get_active_staff_order_outlet
    Sql.get_order_by_idempotency_key Sql.get_active_order_customer Sql.get_active_order_perfume
    Sql.get_active_order_service Sql.allocate_invoice_number Sql.create_order Sql.create_order_item
    Sql.create_initial_order_status Sql.insert_order_audit_log Sql.list_order_items padded digits
    digits_onto times quo is_int64 ◌+ℤ◌
retry_run = refl

-- The row of the order.
abbrev pub new_row : Order
new_row = record wash {
  id = 8;
  outlet_code_snapshot = some [];
  invoice_number = codes "-00000001-000001";
  total_amount = pos 10507;
  received_at = 60;
  created_at = 60;
  updated_at = 60;
  idempotency_key = some (codes "n1");
  request_hash = some (replicate 32 3);
}

pub ordered_key :
    Sql.get_order_by_idempotency_key 1 3 two_bags.idempotency_key ordered ≡ some (new_row, [])
unfolding create create_body create_new replay_order write_order create_items choose_perfume
    check_staff_outlet invoice_number_of load_order item_from order_from line_amount fit_int64
    calculate_line calculate_lines parse_milli_quantity parse_parts with_fraction check_milli
    format_quantity transaction pure raise_if lift asks query query_one insert_one exec or_no_rows
    ◌>>=◌ audit_user_agent Sql.get_active_order_outlet Sql.get_active_staff_order_outlet
    Sql.get_order_by_idempotency_key Sql.get_active_order_customer Sql.get_active_order_perfume
    Sql.get_active_order_service Sql.allocate_invoice_number Sql.create_order Sql.create_order_item
    Sql.create_initial_order_status Sql.insert_order_audit_log Sql.list_order_items padded digits
    digits_onto times quo is_int64 ◌+ℤ◌
ordered_key = refl

-- The shop after the first order is cancelled.
abbrev pub closed : Db
closed = (cancel owner 7 (codes "no") healthy stocked).1

pub closed_found :
    find? (is_order 1 7) closed.orders ≡ some (marked_cancelled 2 (codes "no") 60 wash)
unfolding cancel cancel_body lock_lifecycle_order lock_assignment Orders.get_order_for_update
    Orders.cancel_order Orders.insert_order_status_history Orders.insert_order_lifecycle_audit_log
    allowed_order_transition insert_lifecycle_audit transaction pure raise_if query query_one
    update_one exec insert_one or_no_rows ◌>>=◌ audit_user_agent trim_space
closed_found = refl
