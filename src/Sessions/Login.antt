-- ===== src/Sessions/Login.antt =====
-- `Login` (internal/handlers/auth.go).
use launlog_api.Prelude.{ℕ, Bool, ◌&&◌, ◌||◌, not, ltb}
use launlog_api.Prelude.Text.{Text, Bytes, byte_len, is_empty, trim_space}
use launlog_api.Store.{User}
use launlog_api.Effect.{
  M, lift, raise_if, query_one, or_no_rows, transaction, ◌>>=◌, ◌>>◌, get_user_for_login,
  invalid_request, unauthorized,
}
use launlog_api.Query.Sessions as Sql
use launlog_api.Sessions.{
  Library, Lifetimes, Client, Body, LoginRequest, TenantIdentity, SessionResponse,
}
use launlog_api.Sessions.Issue.{required, issue_body}

abbrev pub max_bcrypt_password_bytes : ℕ
max_bcrypt_password_bytes = 72

-- `VerifyPassword`.
abbrev pub verify_password : Library → Bytes → Text → Bool
verify_password lib hash password =
    not (ltb max_bcrypt_password_bytes (byte_len password)) && lib.matches_hash hash password

abbrev pub identity : User → TenantIdentity
identity u = record {
  id = u.id;
  business_id = u.business_id;
  email = u.email;
  full_name = u.full_name;
  role = u.role;
}

unfoldable pub login : Library → Lifetimes → Client → Body LoginRequest → M SessionResponse
login lib ttl c body = do
  req ← lift (required body)
  raise_if (is_empty (trim_space req.email) || is_empty req.password) invalid_request
  u ←
      or_no_rows unauthorized
        (query_one get_user_for_login (Sql.get_user_for_login lib.lower (trim_space req.email)))
  raise_if (ltb max_bcrypt_password_bytes (byte_len req.password)) unauthorized
  raise_if (not (verify_password lib u.password_hash req.password) || not u.is_active) unauthorized
  transaction (issue_body lib ttl c (identity u))
