-- ===== src/Sessions/Authenticate.antt =====
-- The middleware that authenticates a request (internal/middleware/auth.go).
pub mod Sound
pub mod Fields
pub mod Complete
use launlog_api.Prelude.{
  ℕ, Bool, true, false, ◌&&◌, ◌||◌, not, Option, none, some, List, [], ◌∷◌, ◌==◌, eq_text, exists,
  length, if◌then◌else◌,
}
use launlog_api.Prelude.Text.{Text, codes, is_space, is_empty}
use launlog_api.Store.{RefreshToken, role_text, is_staff, is_admin}
use launlog_api.Effect.{
  M, Env, Result, ok, err, pure, asks, lift, raise_if, query, query_one, or_error, ◌>>=◌, ◌>>◌,
  get_logout_session, get_active_refresh_session, get_active_user, list_user_outlet_ids,
  list_user_permission_codes, unauthorized,
}
use launlog_api.Query.Sessions as Sql
use launlog_api.Sessions.{AccessClaims, Library, Principal}
use launlog_api.Sessions.Refresh.{or_unauthorized}
use launlog_api.Sessions.Tokens.{parse_access_token, subject_id}

abbrev pub add_field : Text → List Text → List Text
add_field [] fields = fields
add_field (r ∷ rs) fields = (r ∷ rs) ∷ fields

-- The field under way, and the ones behind it.
unfoldable pub split_fields : Text → Text × List Text
unfolding is_space
split_fields [] = ([], [])
split_fields (r ∷ rs) =
    let rest = split_fields rs in
    if is_space r then ([], add_field rest.0 rest.1) else (r ∷ rest.0, rest.1)

-- `strings.Fields`.
unfoldable pub fields : Text → List Text
unfolding split_fields
fields s = let found = split_fields s in add_field found.0 found.1

-- The token of the header `Authorization`.
abbrev pub bearer_of : List Text → Option Text
bearer_of (scheme ∷ token ∷ []) = if eq_text scheme (codes "Bearer") then some token else none
bearer_of _ = none

unfoldable pub session_query : Bool → ℕ → ℕ → ℕ → M RefreshToken
session_query true i b u = do
  now ← asks (λ env. env.now)
  query_one get_logout_session (Sql.get_logout_session now i b u)
session_query false i b u = do
  now ← asks (λ env. env.now)
  query_one get_active_refresh_session (Sql.get_active_refresh_session now i b u)

-- The principal that claims name, as the tables have it.
unfoldable pub principal_of : Library → Bool → AccessClaims → M Principal
principal_of lib for_logout claims = do
  uid ← lift (or_unauthorized (subject_id claims))
  session ← session_query for_logout claims.session_id claims.business_id uid
  u ← query_one get_active_user (Sql.get_active_user uid claims.business_id)
  raise_if (not (eq_text (role_text u.role) claims.role)) unauthorized
  outs ← query list_user_outlet_ids (Sql.list_user_outlet_ids claims.business_id uid)
  raise_if (not (eq_text outs claims.outlet_ids)) unauthorized
  raise_if (is_staff u.role && length outs == 0) unauthorized
  perms ←
      query list_user_permission_codes
        (Sql.list_user_permission_codes lib.precedes claims.business_id uid)
  pure (record {
    user_id = uid;
    business_id = claims.business_id;
    session_id = claims.session_id;
    email = u.email;
    full_name = u.full_name;
    role = u.role;
    outlet_ids = outs;
    permissions = perms;
  })

-- `authenticate`: whatever goes wrong, the request is not authorized.
unfoldable pub authenticate : Library → Bool → Text → M Principal
authenticate lib for_logout header = do
  raw ← lift (or_unauthorized (bearer_of (fields header)))
  now ← asks (λ env. env.clock)
  claims ← lift (or_unauthorized (parse_access_token lib now raw))
  or_error unauthorized (principal_of lib for_logout claims)

-- The test of `RequirePermission`.
unfoldable pub has_permission : Principal → Text → Bool
has_permission p permission = is_admin p.role || exists (λ v. eq_text v permission) p.permissions

-- The test of `RequireAdmin`.
unfoldable pub has_admin : Principal → Bool
has_admin p = is_admin p.role
