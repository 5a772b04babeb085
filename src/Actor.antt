-- ===== src/Actor.antt =====
-- The authenticated user on whose behalf a method runs (internal/service/services.go), and what
-- the audit rows keep of a request.
use launlog_api.Prelude.{
  ℕ, Bool, ◌||◌, Option, none, some, List, [], ◌∷◌, ltb, ◌==◌, if◌then◌else◌, length, take, exists,
}
use launlog_api.Prelude.Text.{Bytes}
use launlog_api.Store.{Role}

pub record Actor : Type 0 where
  pub business_id : ℕ
  pub user_id : ℕ
  pub role : Role
  pub outlet_ids : List ℕ
  pub ip : Option Bytes
  pub user_agent : Bytes

-- `pgtype.Text{String: s, Valid: s != ""}`.
abbrev pub text_or_null : Bytes → Option Bytes
text_or_null [] = none
text_or_null (b ∷ bs) = some (b ∷ bs)

-- The first 512 bytes of the user agent, or null.
unfoldable pub audit_user_agent : Actor → Option Bytes
audit_user_agent actor =
    text_or_null
      (if ltb 512 (length actor.user_agent) then take 512 actor.user_agent else actor.user_agent)

-- `actor.BusinessID < 1 || actor.UserID < 1`.
abbrev pub is_anonymous : Actor → Bool
is_anonymous actor = ltb actor.business_id 1 || ltb actor.user_id 1

unfoldable pub contains_outlet : List ℕ → ℕ → Bool
contains_outlet outlets outlet_id = exists (λ id. id == outlet_id) outlets
