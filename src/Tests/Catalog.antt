-- ===== src/Tests/Catalog.antt =====
-- The catalog of a small shop.
use launlog_api.Prelude.{ℕ, false, ◌≡◌, ◌≢◌, none, some, refl}
use launlog_api.Prelude.Int.{pos}
use launlog_api.Prelude.Text.{codes, is_space, trim_space}
use launlog_api.Store.{ServiceView, Service, pcs}
use launlog_api.Effect.{
  ok, err, invalid_unit, pure, lift, ◌>>=◌, query_one, insert_one, update_one, exec, or_no_rows,
  transaction, query,
}
use launlog_api.Query.Creation as Orders
use launlog_api.Query.Services.{changed_service}
use launlog_api.Query.Services as Sql
use launlog_api.Query.Sessions as Audit
use launlog_api.Actor.{audit_user_agent}
use launlog_api.Services.{
  ServiceInput, ValidInput, validate_service_input, valid_unit, or_conflict, audit_service,
  service_from_row, catalog_get, catalog_create, catalog_update, catalog_delete,
  update_service_body, delete_service_body,
}
use launlog_api.Services.Answers.{catalog_update_read, catalog_delete_final}
use launlog_api.Tests.{owner, healthy, healthy-IsHealthy}
use launlog_api.Tests.Stock.{stocked}

abbrev dry : ServiceInput
dry = record {
  name = codes " Dry ";
  description = some (codes "  ");
  unit = codes "pcs";
  unit_price_amount = pos 9000;
  estimated_duration_minutes = pos 30;
  is_active = false;
}

abbrev dry_view : ServiceView
dry_view = record {
  id = 4;
  business_id = 1;
  name = codes "Dry";
  description = none;
  unit = pcs;
  unit_price_amount = pos 9000;
  estimated_duration_minutes = pos 30;
  is_active = false;
  created_at = 50;
  updated_at = 60;
}

update_runs :
    catalog_update owner 4 dry healthy stocked
    ≡ (ok dry_view, (catalog_update owner 4 dry healthy stocked).1)
unfolding catalog_update validate_service_input valid_unit update_service_body or_conflict
    audit_service service_from_row trim_space is_space audit_user_agent pure lift ◌>>=◌ query
    query_one update_one insert_one exec or_no_rows transaction Sql.get_service Sql.update_service
    Audit.insert_audit_log
update_runs = refl

delete_runs :
    catalog_delete owner 4 healthy stocked ≡ (ok tt, (catalog_delete owner 4 healthy stocked).1)
unfolding catalog_delete delete_service_body audit_service service_from_row audit_user_agent pure
    ◌>>=◌ query query_one update_one insert_one exec or_no_rows transaction Sql.get_service
    Sql.soft_delete_service Audit.insert_audit_log
delete_runs = refl

bad_unit_refused :
    catalog_create owner (record dry { unit = codes "box" }) healthy stocked
    ≡ (err invalid_unit, stocked)
unfolding catalog_create validate_service_input valid_unit trim_space is_space lift ◌>>=◌
bad_unit_refused = refl

catalog_update_read_example :
    (catalog_get 1 4 healthy (catalog_update owner 4 dry healthy stocked).1
      ≡ (ok dry_view, (catalog_update owner 4 dry healthy stocked).1))
    × (v : ValidInput) × (s : Service) × (validate_service_input dry ≡ ok v)
    × (Sql.get_service 1 4 stocked ≡ some s)
    × (dry_view
        ≡ service_from_row (
            changed_service v.name v.description v.unit v.unit_price_amount
              v.estimated_duration_minutes v.is_active 60 s))
catalog_update_read_example =
    catalog_update_read owner healthy healthy stocked 4 dry healthy-IsHealthy update_runs

catalog_delete_final_example :
    (Sql.get_service 1 4 (catalog_delete owner 4 healthy stocked).1 ≡ none)
    × (Orders.get_active_order_service 1 4 (catalog_delete owner 4 healthy stocked).1 ≡ none)
    × ((j : ℕ)
        → j ≢ 4
        → Sql.get_service 1 j (catalog_delete owner 4 healthy stocked).1
          ≡ Sql.get_service 1 j stocked)
catalog_delete_final_example = catalog_delete_final owner healthy stocked 4 delete_runs
