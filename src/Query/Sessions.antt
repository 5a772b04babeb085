-- ===== src/Query/Sessions.antt =====
-- The statements of auth.sql.go, and the audit statement of management.sql.go that sessions use.
use launlog_api.Prelude.{
  ℕ, ◌+◌, Bool, ◌&&◌, Option, none, some, List, [], ◌∷◌, ◌++◌, ◌==◌, find?, exists, select, update,
  map, length, ltb, leb, eq_text,
}
use launlog_api.Prelude.Text.{Text, Bytes}
use launlog_api.Store.{
  Db, User, Outlet, UserOutlet, SessionFamily, RefreshToken, AuditAction, AuditValues, EntityType,
}
use launlog_api.Effect.{Env}
use launlog_api.Query.Lifecycle.{add_audit}
use launlog_api.Query.Creation.{is_absent}
use launlog_api.Query.Listing.{sort_by}

-- `JOIN businesses b ON b.id = … AND b.is_active`.
abbrev pub business_is_active : Db → ℕ → Bool
business_is_active db b = exists (λ x. x.id == b && x.is_active) db.businesses

-- `lower` is the database's.
unfoldable pub get_user_for_login : (Text → Text) → Text → Db → Option User
get_user_for_login lower email db =
    find? (λ u. eq_text (lower u.email) (lower email) && business_is_active db u.business_id)
      db.users

unfoldable pub get_active_user : ℕ → ℕ → Db → Option User
get_active_user i b db =
    find?
      (λ u.
        (u.id == i && u.business_id == b) && (u.is_active && business_is_active db u.business_id))
      db.users

abbrev pub is_outlet_of : UserOutlet → Outlet → Bool
is_outlet_of a o = o.id == a.outlet_id && o.business_id == a.business_id && o.is_active

unfoldable pub list_user_outlet_ids : ℕ → ℕ → Db → List ℕ
list_user_outlet_ids b u db = sort_by leb (
    map (λ a. a.outlet_id)
      (select (λ a. a.business_id == b && a.user_id == u && exists (is_outlet_of a) db.outlets)
        db.user_outlets))

unfoldable pub list_user_outlets : ℕ → ℕ → Db → List (ℕ × Text)
list_user_outlets b u db =
    map (λ o. (o.id, o.timezone))
      (sort_by (λ o p. leb o.id p.id)
        (select
          (λ o.
            o.business_id == b
            && o.is_active
            && exists (λ a. a.business_id == b && a.user_id == u && a.outlet_id == o.id)
                db.user_outlets)
          db.outlets))

-- `precedes` is the order of texts in the database.
unfoldable pub list_user_permission_codes : (Text → Text → Bool) → ℕ → ℕ → Db → List Text
list_user_permission_codes precedes b u db = sort_by precedes (
    map (λ p. p.permission_code)
      (select (λ p. p.business_id == b && p.user_id == u) db.user_permissions))

unfoldable pub create_session_family : ℕ → ℕ → Env → Db → ℕ × Db
create_session_family b u env db = (
  db.next_family_id,
  record db {
    session_families =
        db.session_families
        ++ (record { id = db.next_family_id; business_id = b; user_id = u; revoked_at = none })
          ∷ [];
    next_family_id = db.next_family_id + 1;
  },
)

-- The row that CreateRefreshToken inserts.
abbrev pub new_token : ℕ → ℕ → ℕ → Text → ℕ → Db → RefreshToken
new_token b u family_id hash expires_at db = record {
  id = db.next_token_id;
  business_id = b;
  user_id = u;
  family_id = family_id;
  token_hash = hash;
  expires_at = expires_at;
  revoked_at = none;
}

abbrev pub insert_token : RefreshToken → Db → RefreshToken × Db
insert_token t db = (
  t,
  record db { refresh_tokens = db.refresh_tokens ++ t ∷ []; next_token_id = db.next_token_id + 1 },
)

unfoldable pub create_refresh_token : ℕ → ℕ → ℕ → Text → ℕ → Env → Db → RefreshToken × Db
create_refresh_token b u family_id hash expires_at env db =
    insert_token (new_token b u family_id hash expires_at db) db

-- FindRefreshTokenFamily and GetRefreshTokenForUpdate.
unfoldable pub token_of_hash : Text → Db → Option RefreshToken
token_of_hash hash db = find? (λ t. eq_text t.token_hash hash) db.refresh_tokens

abbrev pub is_token : ℕ → ℕ → ℕ → RefreshToken → Bool
is_token i b u t = t.id == i && (t.business_id == b && t.user_id == u)

unfoldable pub get_refresh_token_by_id : ℕ → ℕ → ℕ → Db → Option RefreshToken
get_refresh_token_by_id i b u db = find? (is_token i b u) db.refresh_tokens

abbrev pub is_family : ℕ → ℕ → ℕ → SessionFamily → Bool
is_family i b u f = f.id == i && (f.business_id == b && f.user_id == u)

unfoldable pub lock_session_family : ℕ → ℕ → ℕ → Db → Option SessionFamily
lock_session_family i b u db = find? (is_family i b u) db.session_families

abbrev pub revoked_token : ℕ → RefreshToken → RefreshToken
revoked_token now t = record t { revoked_at = some now }

abbrev pub to_revoke : ℕ → ℕ → ℕ → RefreshToken → Bool
to_revoke i b u t = is_token i b u t && is_absent t.revoked_at

-- `:execrows` answers with the number of rows.
unfoldable pub revoke_refresh_token : ℕ → ℕ → ℕ → Env → Db → ℕ × Db
revoke_refresh_token i b u env db = (
  length (select (to_revoke i b u) db.refresh_tokens),
  record db { refresh_tokens = update (to_revoke i b u) (revoked_token env.now) db.refresh_tokens },
)

abbrev pub revoked_family : ℕ → SessionFamily → SessionFamily
revoked_family now f = record f { revoked_at = some now }

abbrev pub family_to_revoke : ℕ → ℕ → ℕ → SessionFamily → Bool
family_to_revoke i b u f = is_family i b u f && is_absent f.revoked_at

unfoldable pub revoke_session_family : ℕ → ℕ → ℕ → Env → Db → Db
revoke_session_family i b u env db = record db {
  session_families = update (family_to_revoke i b u) (revoked_family env.now) db.session_families;
}

-- `JOIN session_families sf ON … AND sf.revoked_at IS NULL`.
abbrev pub has_open_family : Db → RefreshToken → Bool
has_open_family db t =
    exists (family_to_revoke t.family_id t.business_id t.user_id) db.session_families

unfoldable pub get_active_refresh_session : ℕ → ℕ → ℕ → ℕ → Db → Option RefreshToken
get_active_refresh_session now i b u db =
    find? (λ t. to_revoke i b u t && (ltb now t.expires_at && has_open_family db t))
      db.refresh_tokens

unfoldable pub get_logout_session : ℕ → ℕ → ℕ → ℕ → Db → Option RefreshToken
get_logout_session now i b u db =
    find? (λ t. is_token i b u t && (ltb now t.expires_at && has_open_family db t))
      db.refresh_tokens

unfoldable pub insert_audit_log :
    ℕ
    → Option ℕ
    → AuditAction
    → EntityType
    → Option ℕ
    → AuditValues
    → AuditValues
    → Option Bytes
    → Option Bytes
    → Env
    → Db
    → Db
insert_audit_log b actor_user_id action entity_type entity_id old_values new_values ip user_agent
      env db =
    add_audit
      (record {
        business_id = b;
        outlet_id = none;
        actor_user_id = actor_user_id;
        action = action;
        entity_type = entity_type;
        entity_id = entity_id;
        old_values = old_values;
        new_values = new_values;
        ip_address = ip;
        user_agent = user_agent;
      })
      db
