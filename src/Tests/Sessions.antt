-- ===== src/Tests/Sessions.antt =====
-- Sessions of a small shop.
mod Runs
mod Witnesses
use mathlib.Core.Option.{some-injective}
use launlog_api.Prelude.{
  subst, ℕ, ◌<◌, Bool, true, false, ◌&&◌, Option, none, some, [], ◌∷◌, ◌==◌, ◌≡◌, ◌≢◌, refl, sym,
  ap, eq_text, eq_text-eq, if◌then◌else◌, ltb, arith, All, length, replicate,
}
use launlog_api.Prelude.Text.{Text, codes, is_space, trim_space, is_empty}
use launlog_api.Prelude.Digits.{digits, digits_onto}
use launlog_api.Store.{
  Db, User, SessionFamily, RefreshToken, AuditLog, AuditAction, admin, session_family_entity,
  session_event, no_values, auth_session_created, auth_session_refreshed, auth_session_revoked,
}
use launlog_api.Effect.{
  Env, ok, err, unauthorized, pure, asks, lift, ◌>>=◌, raise_if, query, query_one, insert_one, exec,
  or_no_rows, or_error, transaction,
}
use launlog_api.Sessions.{
  AccessClaims, Library, Lifetimes, Client, decoded, Principal, SessionResponse,
}
use launlog_api.Sessions.Tokens.{new_access_token, parse_access_token, subject_id, parse_int64}
use launlog_api.Sessions.Login.{login, identity}
use launlog_api.Sessions.Issue.{
  issue_body, authorization, new_refresh_token, response, create_session, client_user_agent,
  audit_session,
}
use launlog_api.Query.Sessions as Sql
use launlog_api.Sessions.Refresh.{refresh, refresh_body, rotate}
use launlog_api.Sessions.Logout.{logout, logout_body}
use launlog_api.Sessions.Authenticate.{
  authenticate, principal_of, session_query, split_fields, fields,
}
use launlog_api.Sessions.Authenticate.Sound.{Authentic, authenticate_sound}
use launlog_api.Sessions.Authenticate.Complete.{IsSigning, Backed, issued_authenticates}
use launlog_api.Families.Steps.{Reaches, begins, then, issues, presents, Reaches-IsLineage}
use launlog_api.Families.Handlers.{refresh_rotates}
use launlog_api.Families.Spent.{refresh_single_use}
use launlog_api.Families.Ended.{logout_final}
use launlog_api.Families.Replay.{Consumed, refresh_replayed}
use launlog_api.Families.{tables_of, IsLineage}
use launlog_api.Families.Spec.{view_of, SameBut, SpecReaches}
use launlog_api.Tests.{shop, healthy, healthy-IsHealthy}

abbrev pub owner_user : User
owner_user = record {
  id = 2;
  business_id = 1;
  email = codes "a@b.c";
  password_hash = codes "pw";
  full_name = [];
  role = admin;
  is_active = true;
}

-- The claims that the session 1 of the owner carries when it is issued at 60.
abbrev pub demo : AccessClaims
demo = record {
  business_id = 1;
  role = codes "ADMIN";
  outlet_ids = [];
  session_id = 1;
  issuer = codes "launlog-api";
  subject = codes "2";
  audience = codes "launlog-api";
  issued_at = 60;
  expires_at = 160;
}

abbrev pub is_demo : AccessClaims → Bool
is_demo c =
    c.business_id == 1
    && eq_text c.role demo.role
    && eq_text c.outlet_ids []
    && c.session_id == 1
    && eq_text c.issuer demo.issuer
    && eq_text c.subject demo.subject
    && eq_text c.audience demo.audience
    && c.issued_at == 60
    && c.expires_at == 160

-- Digests, hashes and dates of no secrecy; a signed text is as long as the id of its session.
abbrev pub library : Library
library = record {
  lower = λ t. t;
  precedes = λ a b. true;
  matches_hash = eq_text;
  hash_refresh_token = λ t. 0 ∷ t;
  numeric_date = λ n. n;
  sign = λ c. some (replicate c.session_id 97);
  parse_with_claims = λ now t. some (record demo { session_id = length t });
}

-- It signs only the claims of the demonstration.
abbrev pub signing_library : Library
signing_library = record library {
  sign = λ c. if is_demo c then some (codes "t") else none;
  parse_with_claims = λ now t. if ltb now demo.expires_at then some demo else none;
}

abbrev pub lifetimes : Lifetimes
lifetimes = record { access_ttl = 100; refresh_ttl = 1000 }

abbrev pub client : Client
client = record { ip = none; user_agent = [] }

abbrev pub home : Db
home = record shop {
  businesses = (record { id = 1; is_active = true }) ∷ [];
  users = owner_user ∷ [];
}

abbrev pub with_random : Text → Env
with_random t = record healthy { random = some t }

abbrev pub audit_row : AuditAction → AuditLog
audit_row action = record {
  business_id = 1;
  outlet_id = none;
  actor_user_id = some 2;
  action = action;
  entity_type = session_family_entity;
  entity_id = some 1;
  old_values = no_values;
  new_values = session_event action;
  ip_address = none;
  user_agent = none;
}

abbrev pub family : ℕ → Option ℕ → SessionFamily
family i at = record { id = i; business_id = 1; user_id = 2; revoked_at = at }

abbrev pub token : ℕ → ℕ → Text → Option ℕ → RefreshToken
token i f t at = record {
  id = i;
  business_id = 1;
  user_id = 2;
  family_id = f;
  token_hash = 0 ∷ t;
  expires_at = 1060;
  revoked_at = at;
}

abbrev pub signed_in : Db
signed_in = record home {
  session_families = family 1 none ∷ [];
  refresh_tokens = token 1 1 (codes "r") none ∷ [];
  next_family_id = 2;
  next_token_id = 2;
  audit_logs = audit_row auth_session_created ∷ [];
}

abbrev pub refreshed : Db
refreshed = record signed_in {
  refresh_tokens = token 1 1 (codes "r") (some 60) ∷ token 2 1 (codes "s") none ∷ [];
  next_token_id = 3;
  audit_logs = audit_row auth_session_created ∷ audit_row auth_session_refreshed ∷ [];
}

abbrev pub answer : Text → ℕ → SessionResponse
answer t i = record {
  access_token = replicate i 97;
  refresh_token = t;
  access_token_expires_at = 160;
  refresh_token_expires_at = 1060;
  outlets = [];
  user = identity owner_user;
  outlet_ids = [];
  permissions = [];
}

-- The principals of the two families.
abbrev pub bearer : ℕ → Principal
bearer i = record {
  user_id = 2;
  business_id = 1;
  session_id = i;
  email = codes "a@b.c";
  full_name = [];
  role = admin;
  outlet_ids = [];
  permissions = [];
}

-- Two families of one user.
abbrev pub twice : Db
twice = record home {
  session_families = family 1 none ∷ family 2 none ∷ [];
  refresh_tokens = token 1 1 (codes "r") none ∷ token 2 2 (codes "q") none ∷ [];
  next_family_id = 3;
  next_token_id = 3;
}

abbrev pub logged_out : Db
logged_out = record twice {
  session_families = family 1 (some 60) ∷ family 2 none ∷ [];
  audit_logs = audit_row auth_session_revoked ∷ [];
}
