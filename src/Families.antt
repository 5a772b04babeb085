-- ===== src/Families.antt =====
-- Session families and their refresh tokens (internal/handlers/auth.go), as the tables hold them and
-- as the tenants see them.
pub mod Outcomes
pub mod Writes
pub mod Opened
pub mod Rotated
pub mod Closed
pub mod Steps
pub mod Spec
pub mod Handlers
pub mod Spent
pub mod Ended
pub mod Replay
use launlog_api.Prelude.{
  ℕ, ◌+◌, ◌<◌, ◌≤◌, Bool, ◌&&◌, Option, none, some, List, [], ◌∷◌, ◌++◌, ◌==◌, ◌≡◌, All, Distinct,
  exists, select, update, length, if◌then◌else◌,
}
use launlog_api.Prelude.Text.{Text}
use launlog_api.Store.{Db, SessionFamily, RefreshToken}
use launlog_api.Query.Creation.{is_absent}
use launlog_api.Query.Sessions.{revoked_token, to_revoke, revoked_family, family_to_revoke}

-- The two tables of sessions, and their sequences.
pub record Tables : Type 0 where
  pub families : List SessionFamily
  pub tokens : List RefreshToken
  pub next_family : ℕ
  pub next_token : ℕ

abbrev pub tables_of : Db → Tables
tables_of db = record {
  families = db.session_families;
  tokens = db.refresh_tokens;
  next_family = db.next_family_id;
  next_token = db.next_token_id;
}

-- A token of the family `f` that is not consumed.
abbrev pub is_live_of : ℕ → RefreshToken → Bool
is_live_of f t = t.family_id == f && is_absent t.revoked_at

abbrev pub live_tokens : Tables → ℕ → List RefreshToken
live_tokens s f = select (is_live_of f) s.tokens

abbrev pub is_open_family : ℕ → SessionFamily → Bool
is_open_family f x = x.id == f && is_absent x.revoked_at

abbrev pub is_open : Tables → ℕ → Bool
is_open s f = exists (is_open_family f) s.families

-- Ids are below their sequences and name one row each, every token is of a family that was opened,
-- and no family has two tokens that are not consumed.
pub record IsLineage (s : Tables) : Type 0 where
  pub families_below : All (λ f. f.id < s.next_family) s.families
  pub tokens_below : All (λ t. t.id < s.next_token) s.tokens
  pub lineage_below : All (λ t. t.family_id < s.next_family) s.tokens
  pub distinct_families : Distinct (λ f. f.id) s.families
  pub distinct_tokens : Distinct (λ t. t.id) s.tokens
  pub one_live : (f : ℕ) → length (live_tokens s f) ≤ 1

abbrev pub first_hash : List RefreshToken → Option Text
first_hash [] = none
first_hash (t ∷ ts) = some t.token_hash

-- The digest that a family accepts next, if it is open.
abbrev pub accepted : Tables → ℕ → Option Text
accepted s f = if is_open s f then first_hash (live_tokens s f) else none

abbrev pub token_row : ℕ → ℕ → ℕ → ℕ → Text → ℕ → RefreshToken
token_row i b u f hash expires_at = record {
  id = i;
  business_id = b;
  user_id = u;
  family_id = f;
  token_hash = hash;
  expires_at = expires_at;
  revoked_at = none;
}

abbrev pub family_row : ℕ → ℕ → ℕ → SessionFamily
family_row f b u = record { id = f; business_id = b; user_id = u; revoked_at = none }

-- A new family of a user, with a first token.
abbrev pub opened : ℕ → ℕ → Text → ℕ → Tables → Tables
opened b u hash expires_at s = record {
  families = s.families ++ family_row s.next_family b u ∷ [];
  tokens = s.tokens ++ token_row s.next_token b u s.next_family hash expires_at ∷ [];
  next_family = s.next_family + 1;
  next_token = s.next_token + 1;
}

abbrev pub consumes : RefreshToken → RefreshToken → Bool
consumes session = to_revoke session.id session.business_id session.user_id

-- A new token of the family `f`, and the end of the one before it.
abbrev pub rotated : RefreshToken → ℕ → ℕ → ℕ → Text → ℕ → ℕ → Tables → Tables
rotated session b u f hash expires_at now s = record {
  families = s.families;
  tokens =
      update (consumes session) (revoked_token now)
        (s.tokens ++ token_row s.next_token b u f hash expires_at ∷ []);
  next_family = s.next_family;
  next_token = s.next_token + 1;
}

abbrev pub ends_family : SessionFamily → SessionFamily → Bool
ends_family family = family_to_revoke family.id family.business_id family.user_id

abbrev pub closed : SessionFamily → ℕ → Tables → Tables
closed family now s = record {
  families = update (ends_family family) (revoked_family now) s.families;
  tokens = s.tokens;
  next_family = s.next_family;
  next_token = s.next_token;
}
