-- ===== src/Sessions/Refresh.antt =====
-- `Refresh` (internal/handlers/auth.go).
use launlog_api.Prelude.{◌+◌, ◌||◌, not, Option, none, some, ◌==◌, leb, if◌then◌else◌}
use launlog_api.Prelude.Text.{Text, is_empty}
use launlog_api.Store.{
  SessionFamily, RefreshToken, auth_session_refreshed, auth_refresh_replay_detected,
}
use launlog_api.Effect.{
  M, Result, ok, err, pure, asks, lift, raise_if, query_one, insert_one, exec, or_no_rows, or_error,
  transaction, ◌>>=◌, ◌>>◌, find_refresh_token_family, lock_session_family,
  get_refresh_token_for_update, revoke_session_family, get_active_user, create_refresh_token,
  revoke_refresh_token, invalid_request, unauthorized, internal_error,
}
use launlog_api.Query.Creation.{is_absent}
use launlog_api.Query.Sessions as Sql
use launlog_api.Sessions.{Library, Lifetimes, Client, Body, SessionResponse}
use launlog_api.Sessions.Issue.{required, authorization, new_refresh_token, response, audit_session}
use launlog_api.Sessions.Login.{identity}

-- The replay of a consumed token revokes its family. There is no response.
unfoldable pub contain : Client → SessionFamily → M (Option SessionResponse)
contain c family = do
  exec revoke_session_family (Sql.revoke_session_family family.id family.business_id family.user_id)
  audit_session c family.business_id family.user_id family.id auth_refresh_replay_detected
  pure none

-- A new token of the family, in place of the one that is used.
unfoldable pub rotate :
    Library → Lifetimes → Client → SessionFamily → RefreshToken → M (Option SessionResponse)
rotate lib ttl c family session = do
  now ← asks (λ env. env.clock)
  raise_if (leb session.expires_at now) unauthorized
  u ←
      or_error unauthorized
        (query_one get_active_user (Sql.get_active_user family.user_id family.business_id))
  granted ← or_error unauthorized (authorization lib u.business_id u.id u.role)
  token ← new_refresh_token lib
  new_session ←
      insert_one create_refresh_token
        (Sql.create_refresh_token u.business_id u.id family.id token.1 (now + ttl.refresh_ttl))
  answer ←
      response lib ttl (identity u) new_session.id token.0 new_session.expires_at granted.0
        granted.1
  affected ←
      insert_one revoke_refresh_token
        (Sql.revoke_refresh_token session.id session.business_id session.user_id)
  raise_if (not (affected == 1)) internal_error
  audit_session c family.business_id family.user_id family.id auth_session_refreshed
  pure (some answer)

-- The transaction of a refresh, for the row that was looked up before it.
unfoldable pub refresh_body :
    Library → Lifetimes → Client → RefreshToken → Text → M (Option SessionResponse)
refresh_body lib ttl c lookup hash = do
  family ← or_error unauthorized (
      query_one lock_session_family
        (Sql.lock_session_family lookup.family_id lookup.business_id lookup.user_id))
  raise_if (not (is_absent family.revoked_at)) unauthorized
  session ← or_error unauthorized (query_one get_refresh_token_for_update (Sql.token_of_hash hash))
  raise_if (not (session.family_id == family.id) || not (session.user_id == family.user_id))
      unauthorized
  if is_absent session.revoked_at then rotate lib ttl c family session else contain c family

abbrev pub or_unauthorized {ℓ} : {A : Type ℓ} → Option A → Result A
or_unauthorized none = err unauthorized
or_unauthorized (some a) = ok a

unfoldable pub refresh : Library → Lifetimes → Client → Body Text → M SessionResponse
refresh lib ttl c body = do
  raw ← lift (required body)
  raise_if (is_empty raw) invalid_request
  lookup ←
      or_no_rows unauthorized
        (query_one find_refresh_token_family (Sql.token_of_hash (lib.hash_refresh_token raw)))
  answer ← transaction (refresh_body lib ttl c lookup (lib.hash_refresh_token raw))
  lift (or_unauthorized answer)
