-- ===== src/Services.antt =====
-- `ServiceCatalog` (internal/service/services.go).
pub mod Restocked
pub mod Answers
use launlog_api.Prelude.{
  ℕ, Bool, true, false, ◌&&◌, not, Option, none, some, List, map, eq_text, if◌then◌else◌,
}
use launlog_api.Prelude.Int.{ℤ, pos, ltb_ℤ}
use launlog_api.Prelude.Text.{Text, codes, is_empty, trim_space}
use launlog_api.Store.{
  Service, ServiceView, ServiceUnit, kg, pcs, metre, square_metre, AuditAction, AuditValues,
  service_entity, service_created, service_updated, service_deactivated, service_reactivated,
  service_deleted, service_values, service_gone, no_values,
}
use launlog_api.Effect.{
  M, Error, Result, ok, err, database, unique_violation, pure, lift, query, query_one, insert_one,
  update_one, exec, or_no_rows, transaction, ◌>>=◌, ◌>>◌, list_services, count_services,
  get_service, create_service, get_service_for_update, update_service, soft_delete_service,
  insert_audit_log, invalid_name, invalid_unit, invalid_price, invalid_duration, not_found,
  conflict,
}
use launlog_api.Query.Services.{Collation}
use launlog_api.Query.Services as Sql
use launlog_api.Query.Sessions as Audit
use launlog_api.Actor.{Actor, audit_user_agent}

pub record ServiceInput : Type 0 where
  pub name : Text
  pub description : Option Text
  pub unit : Text
  pub unit_price_amount : ℤ
  pub estimated_duration_minutes : ℤ
  pub is_active : Bool

pub record ServiceFilter : Type 0 where
  pub search : Text
  pub unit : Option Text
  pub is_active : Option Bool
  pub page_offset : ℕ
  pub page_limit : ℕ

-- `ValidUnit`: the unit that a valid text names.
unfoldable pub valid_unit : Text → Option ServiceUnit
valid_unit t =
    if eq_text t (codes "kg")
    then some kg
    else if eq_text t (codes "pcs")
    then some pcs
    else if eq_text t (codes "m")
    then some metre
    else if eq_text t (codes "m2")
    then some square_metre
    else none

-- An input that passed `validateServiceInput`, which trims its texts.
pub record ValidInput : Type 0 where
  pub name : Text
  pub description : Option Text
  pub unit : ServiceUnit
  pub unit_price_amount : ℤ
  pub estimated_duration_minutes : ℤ
  pub is_active : Bool

abbrev pub trimmed_description : Option Text → Option Text
trimmed_description none = none
trimmed_description (some t) = let s = trim_space t in if is_empty s then none else some s

abbrev pub validate_amounts : ServiceInput → Option ServiceUnit → Result ValidInput
validate_amounts input none = err invalid_unit
validate_amounts input (some unit) =
    if ltb_ℤ input.unit_price_amount (pos 0)
    then err invalid_price
    else if ltb_ℤ input.estimated_duration_minutes (pos 0)
    then err invalid_duration
    else ok (record {
      name = trim_space input.name;
      description = trimmed_description input.description;
      unit = unit;
      unit_price_amount = input.unit_price_amount;
      estimated_duration_minutes = input.estimated_duration_minutes;
      is_active = input.is_active;
    })

unfoldable pub validate_service_input : ServiceInput → Result ValidInput
validate_service_input input =
    if is_empty (trim_space input.name)
    then err invalid_name
    else validate_amounts input (valid_unit input.unit)

unfoldable pub service_from_row : Service → ServiceView
service_from_row s = record {
  id = s.id;
  business_id = s.business_id;
  name = s.name;
  description = s.description;
  unit = s.unit;
  unit_price_amount = s.unit_price_amount;
  estimated_duration_minutes = s.estimated_duration_minutes;
  is_active = s.is_active;
  created_at = s.created_at;
  updated_at = s.updated_at;
}

-- `serviceWriteError`.
abbrev pub service_write_error {ℓ} : {A : Type ℓ} → Result A → Result A
service_write_error (ok a) = ok a
service_write_error (err (database (unique_violation _))) = err conflict
service_write_error (err other) = err other

unfoldable pub or_conflict {ℓ} : {A : Type ℓ} → M A → M A
or_conflict m env db = let (r, db') = m env db in (service_write_error r, db')

unfoldable pub audit_service : Actor → AuditAction → ℕ → AuditValues → AuditValues → M (Unit {0})
audit_service actor action entity_id before after = exec insert_audit_log (
    Audit.insert_audit_log actor.business_id (some actor.user_id) action service_entity
      (some entity_id) before after actor.ip (audit_user_agent actor))

abbrev pub filter_unit : Option Text → Result (Option ServiceUnit)
filter_unit none = ok none
filter_unit (some t) = elim (valid_unit t) [ none ↦ err invalid_unit | some u ↦ ok (some u) ]

unfoldable pub catalog_list : Collation → ℕ → ServiceFilter → M (List ServiceView × ℕ)
catalog_list c business_id filter = do
  unit ← lift (filter_unit filter.unit)
  items ← query list_services (
      Sql.list_services c business_id (trim_space filter.search) unit filter.is_active
        filter.page_offset filter.page_limit)
  total ←
      query count_services
        (Sql.count_services c business_id (trim_space filter.search) unit filter.is_active)
  pure (map service_from_row items, total)

unfoldable pub catalog_get : ℕ → ℕ → M ServiceView
catalog_get business_id service_id = do
  item ← or_no_rows not_found (query_one get_service (Sql.get_service business_id service_id))
  pure (service_from_row item)

unfoldable pub create_service_body : Actor → ValidInput → M ServiceView
create_service_body actor input = do
  item ← or_conflict (
      insert_one create_service (
        Sql.create_service actor.business_id input.name input.description input.unit
          input.unit_price_amount input.estimated_duration_minutes))
  audit_service actor service_created item.id no_values (service_values (service_from_row item))
  pure (service_from_row item)

unfoldable pub catalog_create : Actor → ServiceInput → M ServiceView
catalog_create actor raw = do
  input ← lift (validate_service_input raw)
  transaction (create_service_body actor input)

-- The action that an update is audited as.
abbrev pub update_action : Bool → Bool → AuditAction
update_action true false = service_deactivated
update_action false true = service_reactivated
update_action _ _ = service_updated

unfoldable pub update_service_body : Actor → ℕ → ValidInput → M ServiceView
update_service_body actor service_id input = do
  old ←
      or_no_rows not_found
        (query_one get_service_for_update (Sql.get_service actor.business_id service_id))
  item ← or_conflict (
      update_one update_service (
        Sql.update_service input.name input.description input.unit input.unit_price_amount
          input.estimated_duration_minutes input.is_active actor.business_id service_id))
  audit_service actor (update_action old.is_active item.is_active) service_id
      (service_values (service_from_row old)) (service_values (service_from_row item))
  pure (service_from_row item)

unfoldable pub catalog_update : Actor → ℕ → ServiceInput → M ServiceView
catalog_update actor service_id raw = do
  input ← lift (validate_service_input raw)
  transaction (update_service_body actor service_id input)

unfoldable pub delete_service_body : Actor → ℕ → M (Unit {0})
delete_service_body actor service_id = do
  old ←
      or_no_rows not_found
        (query_one get_service_for_update (Sql.get_service actor.business_id service_id))
  gone ← update_one soft_delete_service (Sql.soft_delete_service actor.business_id service_id)
  audit_service actor service_deleted service_id (service_values (service_from_row old))
      service_gone

unfoldable pub catalog_delete : Actor → ℕ → M (Unit {0})
catalog_delete actor service_id = transaction (delete_service_body actor service_id)
