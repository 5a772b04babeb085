-- ===== src/Sessions/Issue.antt =====
-- The credentials of a session: `TenantSessions`, and the parts of internal/handlers/auth.go that
-- logins and refreshes share.
use launlog_api.Prelude.{
  ℕ, ◌+◌, ◌&&◌, Option, none, some, List, ◌==◌, if◌then◌else◌, ltb, length, take,
}
use launlog_api.Prelude.Text.{Text, Bytes}
use launlog_api.Store.{
  Role, session_family_entity, no_values, AuditAction, auth_session_created, session_event,
  is_staff,
}
use launlog_api.Effect.{
  M, Result, ok, err, pure, asks, lift, raise_if, query, insert_one, exec, ◌>>=◌, ◌>>◌, or_error,
  list_user_outlets, list_user_outlet_ids, list_user_permission_codes, create_session_family,
  create_refresh_token, insert_audit_log, internal_error, unauthorized, Error, request_too_large,
  invalid_request,
}
use launlog_api.Query.Sessions as Sql
use launlog_api.Actor.{text_or_null}
use launlog_api.Sessions.{
  Library, Lifetimes, Client, Body, decoded, too_large, malformed, TenantIdentity, SessionResponse,
}
use launlog_api.Sessions.Tokens.{new_access_token}

-- The outlets and the permissions of a user. Staff without an active outlet is refused.
unfoldable pub authorization : Library → ℕ → ℕ → Role → M (List ℕ × List Text)
authorization lib business_id user_id role = do
  outs ← query list_user_outlet_ids (Sql.list_user_outlet_ids business_id user_id)
  raise_if (is_staff role && length outs == 0) unauthorized
  perms ←
      query list_user_permission_codes
        (Sql.list_user_permission_codes lib.precedes business_id user_id)
  pure (outs, perms)

abbrev pub or_internal {ℓ} : {A : Type ℓ} → Option A → Result A
or_internal none = err internal_error
or_internal (some a) = ok a

-- `NewRefreshToken`: a random text and its digest.
unfoldable pub new_refresh_token : Library → M (Text × Text)
new_refresh_token lib = do
  random ← asks (λ env. env.random)
  raw ← lift (or_internal random)
  pure (raw, lib.hash_refresh_token raw)

-- `Response`.
unfoldable pub response :
    Library → Lifetimes → TenantIdentity → ℕ → Text → ℕ → List ℕ → List Text → M SessionResponse
response lib ttl u session_id refresh refresh_expiry outs perms = do
  outlets ← query list_user_outlets (Sql.list_user_outlets u.business_id u.id)
  now ← asks (λ env. env.clock)
  let token = new_access_token lib ttl.access_ttl u.id u.business_id session_id u.role outs now
  access ← lift (or_internal token.0)
  pure (record {
    access_token = access;
    refresh_token = refresh;
    access_token_expires_at = token.1;
    refresh_token_expires_at = refresh_expiry;
    outlets = outlets;
    user = u;
    outlet_ids = outs;
    permissions = perms;
  })

-- `Create`: a new family, with its first token.
unfoldable pub create_session :
    Library → Lifetimes → TenantIdentity → List ℕ → List Text → M (SessionResponse × ℕ)
create_session lib ttl u outs perms = do
  family_id ← insert_one create_session_family (Sql.create_session_family u.business_id u.id)
  token ← new_refresh_token lib
  now ← asks (λ env. env.clock)
  session ←
      insert_one create_refresh_token
        (Sql.create_refresh_token u.business_id u.id family_id token.1 (now + ttl.refresh_ttl))
  answer ← response lib ttl u session.id token.0 session.expires_at outs perms
  pure (answer, family_id)

-- The first 512 bytes of the user agent, or null.
unfoldable pub client_user_agent : Client → Option Bytes
client_user_agent c =
    text_or_null (if ltb 512 (length c.user_agent) then take 512 c.user_agent else c.user_agent)

unfoldable pub audit_session : Client → ℕ → ℕ → ℕ → AuditAction → M (Unit {0})
audit_session c business_id user_id family_id action = exec insert_audit_log (
    Sql.insert_audit_log business_id (some user_id) action session_family_entity (some family_id)
      no_values (session_event action) c.ip (client_user_agent c))

-- The transaction of a login.
unfoldable pub issue_body : Library → Lifetimes → Client → TenantIdentity → M SessionResponse
issue_body lib ttl c u = do
  granted ← or_error unauthorized (authorization lib u.business_id u.id u.role)
  session ← create_session lib ttl u granted.0 granted.1
  audit_session c u.business_id u.id session.1 auth_session_created
  pure session.0

-- `decodeAuthBody`, and `authBodyError` of what it reports.
abbrev pub required {ℓ} : {A : Type ℓ} → Body A → Result A
required (decoded a) = ok a
required too_large = err request_too_large
required malformed = err invalid_request

-- The statuses of the responses to errors: `badRequest`, `authBodyError`, `unauthorized` and
-- `internalError`.
unfoldable pub status_of : Error → ℕ
status_of invalid_request = 400
status_of unauthorized = 401
status_of request_too_large = 413
status_of _ = 500
