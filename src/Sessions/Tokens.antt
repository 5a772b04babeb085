-- ===== src/Sessions/Tokens.antt =====
-- Access tokens (internal/security/token.go).
pub mod Subject
use launlog_api.Prelude.{
  ℕ, ◌+◌, Bool, true, false, ◌&&◌, ◌||◌, not, Option, none, some, List, [], ◌∷◌, ◌^◌, if◌then◌else◌,
  ltb, leb, length, ◌==◌,
}
use launlog_api.Prelude.Int.{ℤ, pos, ◌-ℤ◌, ltb_ℤ}
use launlog_api.Prelude.Text.{Text, codes, is_empty}
use launlog_api.Prelude.Digits.{digits, digits_value, all_digits}
use launlog_api.Store.{Role, role_text}
use launlog_api.Sessions.{AccessClaims, Library}

abbrev pub issuer : Text
issuer = codes "launlog-api"

-- The expiry of a token that is issued at a time.
abbrev pub access_expiry : Library → ℕ → ℕ → ℕ
access_expiry lib access_ttl now = lib.numeric_date (now + access_ttl)

abbrev pub access_claims : Library → ℕ → ℕ → ℕ → ℕ → Role → List ℕ → ℕ → AccessClaims
access_claims lib access_ttl user_id business_id session_id role outlet_ids now = record {
  business_id = business_id;
  role = role_text role;
  outlet_ids = outlet_ids;
  session_id = session_id;
  issuer = issuer;
  subject = digits user_id;
  audience = issuer;
  issued_at = lib.numeric_date now;
  expires_at = lib.numeric_date (access_expiry lib access_ttl now);
}

unfoldable pub new_access_token : Library → ℕ → ℕ → ℕ → ℕ → Role → List ℕ → ℕ → Option Text × ℕ
new_access_token lib access_ttl user_id business_id session_id role outlet_ids now = (
  lib.sign (access_claims lib access_ttl user_id business_id session_id role outlet_ids now),
  access_expiry lib access_ttl now,
)

abbrev pub checked_claims : Option AccessClaims → Option AccessClaims
checked_claims none = none
checked_claims (some claims) =
    if ltb claims.business_id 1 || ltb claims.session_id 1 || is_empty claims.subject
    then none
    else some claims

unfoldable pub parse_access_token : Library → ℕ → Text → Option AccessClaims
parse_access_token lib now raw = checked_claims (lib.parse_with_claims now raw)

-- `strconv.ParseInt` at base 10 and 64 bits: digits, after a sign or none.
abbrev pub parse_magnitude : ℕ → Text → Option ℕ
parse_magnitude bound cs =
    if not (is_empty cs) && (all_digits cs && ltb (digits_value 0 cs) bound)
    then some (digits_value 0 cs)
    else none

abbrev pub negated : Option ℕ → Option ℤ
negated none = none
negated (some n) = some (pos 0 -ℤ pos n)

abbrev pub as_positive : Option ℕ → Option ℤ
as_positive none = none
as_positive (some n) = some (pos n)

unfoldable pub parse_int64 : Text → Option ℤ
parse_int64 [] = none
parse_int64 (c ∷ cs) =
    if c == 45
    then negated (parse_magnitude (2 ^ 63 + 1) cs)
    else if c == 43
    then as_positive (parse_magnitude (2 ^ 63) cs)
    else as_positive (parse_magnitude (2 ^ 63) (c ∷ cs))

abbrev pub positive_id : Option ℤ → Option ℕ
positive_id none = none
positive_id (some (pos n)) = if ltb n 1 then none else some n
positive_id (some _) = none

unfoldable pub subject_id : AccessClaims → Option ℕ
unfolding parse_int64
subject_id claims = positive_id (parse_int64 claims.subject)
