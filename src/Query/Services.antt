-- ===== src/Query/Services.antt =====
-- The statements of services.sql.go.
use launlog_api.Prelude.{
  ℕ, ◌+◌, Bool, true, false, ◌&&◌, ◌||◌, Option, none, some, List, [], ◌∷◌, ◌++◌, ◌==◌, find?,
  select, length, leb, eq_text, if◌then◌else◌,
}
use launlog_api.Prelude.Int.{ℤ}
use launlog_api.Prelude.Text.{Text, is_empty}
use launlog_api.Store.{Db, Service, ServiceUnit, unit_text}
use launlog_api.Effect.{Env}
use launlog_api.Query.Creation.{is_absent}
use launlog_api.Query.Lifecycle.{update_returning}
use launlog_api.Query.Listing.{sort_by}
use launlog_api.Query.Payments.{page}

-- The texts of the database: lower case, order, and `text ILIKE '%' || search || '%'`.
pub record Collation : Type 0 where
  pub lower : Text → Text
  pub precedes : Text → Text → Bool
  pub contains : Text → Text → Bool

abbrev pub is_service : ℕ → ℕ → Service → Bool
is_service b i s = s.business_id == b && s.id == i && is_absent s.deleted_at

unfoldable pub get_service : ℕ → ℕ → Db → Option Service
get_service b i db = find? (is_service b i) db.services

abbrev pub new_service : ℕ → ℕ → Text → Option Text → ServiceUnit → ℤ → ℤ → ℕ → Service
new_service i b name description unit price duration now = record {
  id = i;
  business_id = b;
  name = name;
  description = description;
  unit = unit;
  unit_price_amount = price;
  estimated_duration_minutes = duration;
  is_active = true;
  created_at = now;
  updated_at = now;
  deleted_at = none;
}

abbrev pub insert_service : Service → Db → Service × Db
insert_service s db =
    (s, record db { services = db.services ++ s ∷ []; next_service_id = db.next_service_id + 1 })

unfoldable pub create_service :
    ℕ → Text → Option Text → ServiceUnit → ℤ → ℤ → Env → Db → Service × Db
create_service b name description unit price duration env db =
    insert_service (new_service db.next_service_id b name description unit price duration env.now)
      db

-- The answer of an update of `services`, and the tables after it.
abbrev pub store_services : Db → Option (Service × List Service) → Option (Service × Db)
store_services db none = none
store_services db (some (s, rows)) = some (s, record db { services = rows })

abbrev pub changed_service : Text → Option Text → ServiceUnit → ℤ → ℤ → Bool → ℕ → Service → Service
changed_service name description unit price duration is_active now s = record s {
  name = name;
  description = description;
  unit = unit;
  unit_price_amount = price;
  estimated_duration_minutes = duration;
  is_active = is_active;
  updated_at = now;
}

unfoldable pub update_service :
    Text → Option Text → ServiceUnit → ℤ → ℤ → Bool → ℕ → ℕ → Env → Db → Option (Service × Db)
update_service name description unit price duration is_active b i env db = store_services db (
    update_returning (is_service b i)
      (changed_service name description unit price duration is_active env.now) db.services)

abbrev pub deleted_service : ℕ → Service → Service
deleted_service now s = record s { is_active = false; deleted_at = some now; updated_at = now }

-- It returns the row, of which the catalog uses nothing.
unfoldable pub soft_delete_service : ℕ → ℕ → Env → Db → Option (Service × Db)
soft_delete_service b i env db =
    store_services db (update_returning (is_service b i) (deleted_service env.now) db.services)

abbrev pub text_contains : (Text → Text → Bool) → Option Text → Text → Bool
text_contains contains none search = contains [] search
text_contains contains (some t) search = contains t search

abbrev pub has_unit : Option ServiceUnit → ServiceUnit → Bool
has_unit none u = true
has_unit (some w) u = eq_text (unit_text w) (unit_text u)

abbrev pub has_activity : Option Bool → Bool → Bool
has_activity none b = true
has_activity (some true) b = b
has_activity (some false) b = if b then false else true

unfoldable pub lists_service :
    Collation → ℕ → Text → Option ServiceUnit → Option Bool → Service → Bool
lists_service c b search unit is_active s =
    (s.business_id == b && is_absent s.deleted_at)
    && ((is_empty search
          || c.contains s.name search
          || text_contains c.contains s.description search)
        && (has_unit unit s.unit && has_activity is_active s.is_active))

-- `ORDER BY lower(name), unit, id`.
unfoldable pub service_precedes : Collation → Service → Service → Bool
service_precedes c s t =
    if eq_text (c.lower s.name) (c.lower t.name)
    then (if eq_text (unit_text s.unit) (unit_text t.unit)
        then leb s.id t.id
        else c.precedes (unit_text s.unit) (unit_text t.unit))
    else c.precedes (c.lower s.name) (c.lower t.name)

unfoldable pub list_services :
    Collation → ℕ → Text → Option ServiceUnit → Option Bool → ℕ → ℕ → Db → List Service
list_services c b search unit is_active offset limit db =
    page limit offset
      (sort_by (service_precedes c) (select (lists_service c b search unit is_active) db.services))

unfoldable pub count_services : Collation → ℕ → Text → Option ServiceUnit → Option Bool → Db → ℕ
count_services c b search unit is_active db =
    length (select (lists_service c b search unit is_active) db.services)
