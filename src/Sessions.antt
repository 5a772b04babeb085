-- ===== src/Sessions.antt =====
-- The sessions of tenants: internal/service/tenant_sessions.go and the claims of
-- internal/security/token.go.
pub mod Tokens
pub mod Issue
pub mod Login
pub mod Refresh
pub mod Logout
pub mod Authenticate
use launlog_api.Prelude.{ℕ, Bool, Option, List}
use launlog_api.Prelude.Text.{Text, Bytes}
use launlog_api.Store.{Role}

-- The claims of an access token. An id that is not positive stands as 0.
pub record AccessClaims : Type 0 where
  pub business_id : ℕ
  pub role : Text
  pub outlet_ids : List ℕ
  pub session_id : ℕ
  pub issuer : Text
  pub subject : Text
  pub audience : Text
  pub issued_at : ℕ
  pub expires_at : ℕ

-- What the program calls and does not implement: the order and the lower case of texts in the
-- database, bcrypt, the digest of a refresh token as text, and the JWT package, which cuts times to
-- seconds, signs claims, and reads back what it accepts at a time.
pub record Library : Type 0 where
  pub lower : Text → Text
  pub precedes : Text → Text → Bool
  pub matches_hash : Bytes → Text → Bool
  pub hash_refresh_token : Text → Text
  pub numeric_date : ℕ → ℕ
  pub sign : AccessClaims → Option Text
  pub parse_with_claims : ℕ → Text → Option AccessClaims

-- The body of a request as `decodeAuthBody` leaves it: the decoded value, too large, or not the
-- JSON of one value.
pub data Body {ℓ} (A : Type ℓ) : Type ℓ where
  decoded : A → Body A
  too_large : Body A
  malformed : Body A

-- The lifetimes of the tokens, as the settings give them.
pub record Lifetimes : Type 0 where
  pub access_ttl : ℕ
  pub refresh_ttl : ℕ

-- What a request says of its sender, for the audit.
pub record Client : Type 0 where
  pub ip : Option Bytes
  pub user_agent : Bytes

pub record LoginRequest : Type 0 where
  pub email : Text
  pub password : Text

-- The authenticated sender of a request (internal/handlers/principal.go).
pub record Principal : Type 0 where
  pub user_id : ℕ
  pub business_id : ℕ
  pub session_id : ℕ
  pub email : Text
  pub full_name : Text
  pub role : Role
  pub outlet_ids : List ℕ
  pub permissions : List Text

pub record TenantIdentity : Type 0 where
  pub id : ℕ
  pub business_id : ℕ
  pub email : Text
  pub full_name : Text
  pub role : Role

-- The body of a session response.
pub record SessionResponse : Type 0 where
  pub access_token : Text
  pub refresh_token : Text
  pub access_token_expires_at : ℕ
  pub refresh_token_expires_at : ℕ
  pub outlets : List (ℕ × Text)
  pub user : TenantIdentity
  pub outlet_ids : List ℕ
  pub permissions : List Text
