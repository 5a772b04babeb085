-- ===== src/Query/Listing.antt =====
-- The statements of orders.sql.go and payments.sql.go that list rows.
pub mod Pages
use launlog_api.Prelude.{
  ℕ, Bool, ◌&&◌, ◌||◌, Option, none, some, List, [], ◌∷◌, ◌++◌, ◌==◌, ltb, leb, eq_text, true,
  if◌then◌else◌, select, map, length, exists,
}
use launlog_api.Prelude.Text.{Text}
use launlog_api.Store.{Db, Order, OrderStatus, OrderStatusHistory, Payment, Outlet, status_text}
use launlog_api.Query.Lifecycle.{with_names}
use launlog_api.Query.Payments.{pays, page}

-- `ORDER BY`: insertion of each row before the first row that it precedes.
module _ {ℓ} {A : Type ℓ} (precedes : A → A → Bool) where
  abbrev pub insert_by : A → List A → List A
  insert_by x [] = x ∷ []
  insert_by x (y ∷ ys) = let rest = insert_by x ys in if precedes x y then x ∷ y ∷ ys else y ∷ rest

  abbrev pub sort_by : List A → List A
  sort_by [] = []
  sort_by (x ∷ xs) = insert_by x (sort_by xs)

-- `ORDER BY time, id`, both ascending or both descending.
abbrev pub earlier : ℕ → ℕ → ℕ → ℕ → Bool
earlier time id time' id' = ltb time time' || (time == time' && leb id id')

unfoldable pub list_order_payments : ℕ → ℕ → ℕ → ℕ → ℕ → Db → List Payment
list_order_payments b t i offset limit db =
    page limit offset (
      sort_by (λ p q. earlier p.created_at p.id q.created_at q.id)
        (select (pays b t i) db.payments))

-- The rows of an inner join: each row with each of its matches.
abbrev pub joined {ℓ κ} : {A : Type ℓ} {B : Type κ} → (A → List B) → List A → List B
joined matches [] = []
joined matches (x ∷ xs) = matches x ++ joined matches xs

unfoldable pub list_order_status_history : ℕ → ℕ → ℕ → Db → List (OrderStatusHistory × Text)
list_order_status_history b t i db = joined (with_names db.users) (
    sort_by (λ h k. earlier h.changed_at h.id k.changed_at k.id)
      (select (λ h. h.business_id == b && (h.outlet_id == t && h.order_id == i))
        db.order_status_history))

-- `(for_admin OR outlet_id = ANY(outlet_ids)) AND (outlet IS NULL OR …) AND (status IS NULL OR …)`
abbrev pub equals_or_null : Option ℕ → ℕ → Bool
equals_or_null none x = true
equals_or_null (some y) x = x == y

abbrev pub has_status : Option Text → Text → Bool
has_status none s = true
has_status (some w) s = eq_text s w

unfoldable pub lists : ℕ → Bool → List ℕ → Option ℕ → Option Text → Order → Bool
lists b for_admin outlet_ids outlet_id status o =
    o.business_id == b
    && ((for_admin || exists (λ t. t == o.outlet_id) outlet_ids)
        && (equals_or_null outlet_id o.outlet_id && has_status status (status_text o.status)))

-- The rows of `outlets` that an order joins, as their time zones.
abbrev pub with_timezones : List Outlet → Order → List (Order × Text)
with_timezones outlets o =
    map (λ t. (o, t.timezone))
      (select (λ t. t.business_id == o.business_id && t.id == o.outlet_id) outlets)

unfoldable pub list_orders :
    ℕ → Bool → List ℕ → Option ℕ → Option Text → ℕ → ℕ → Db → List (Order × Text)
list_orders b for_admin outlet_ids outlet_id status offset limit db = page limit offset (
    joined (with_timezones db.outlets) (
      sort_by (λ p q. earlier q.created_at q.id p.created_at p.id)
        (select (lists b for_admin outlet_ids outlet_id status) db.orders)))

unfoldable pub count_orders : ℕ → Bool → List ℕ → Option ℕ → Option Text → Db → ℕ
count_orders b for_admin outlet_ids outlet_id status db =
    length (select (lists b for_admin outlet_ids outlet_id status) db.orders)
