-- ===== src/Sessions/Logout.antt =====
-- `Logout` and `Me` (internal/handlers/auth.go).
use launlog_api.Prelude.{ℕ, ◌||◌, not, ◌==◌, List}
use launlog_api.Prelude.Text.{Text, is_empty}
use launlog_api.Store.{RefreshToken, auth_session_revoked}
use launlog_api.Effect.{
  M, pure, lift, raise_if, query, query_one, exec, or_error, transaction, ◌>>=◌, ◌>>◌,
  find_refresh_token_family, lock_session_family, get_refresh_token_by_id, revoke_session_family,
  list_user_outlets, invalid_request, unauthorized,
}
use launlog_api.Query.Creation.{is_absent}
use launlog_api.Query.Sessions as Sql
use launlog_api.Sessions.{Library, Client, Body, Principal}
use launlog_api.Sessions.Issue.{required, audit_session}

-- The transaction of a logout, for the row that was looked up before it.
unfoldable pub logout_body : Client → Principal → RefreshToken → M (Unit {0})
logout_body c p lookup = do
  family ← or_error unauthorized (
      query_one lock_session_family
        (Sql.lock_session_family lookup.family_id p.business_id p.user_id))
  raise_if (not (is_absent family.revoked_at)) unauthorized
  bearer ← or_error unauthorized (
      query_one get_refresh_token_by_id
        (Sql.get_refresh_token_by_id p.session_id p.business_id p.user_id))
  raise_if (not (bearer.family_id == family.id)) unauthorized
  exec revoke_session_family (Sql.revoke_session_family family.id family.business_id family.user_id)
  audit_session c family.business_id family.user_id family.id auth_session_revoked

unfoldable pub logout : Library → Client → Principal → Body Text → M (Unit {0})
logout lib c p body = do
  raw ← lift (required body)
  raise_if (is_empty raw) invalid_request
  lookup ←
      or_error unauthorized
        (query_one find_refresh_token_family (Sql.token_of_hash (lib.hash_refresh_token raw)))
  raise_if (not (lookup.business_id == p.business_id) || not (lookup.user_id == p.user_id))
      unauthorized
  transaction (logout_body c p lookup)

-- The principal, and the outlets of its user.
unfoldable pub me : Principal → M (Principal × List (ℕ × Text))
me p = do
  outlets ← query list_user_outlets (Sql.list_user_outlets p.business_id p.user_id)
  pure (p, outlets)
