-- ===== src/Config/Accepted.antt =====
-- What accepted settings satisfy.
use launlog_api.Prelude.{◌≤◌, Bool, true, false, ◌≡◌, Option, none, length, eq_text, arith, refl}
use launlog_api.Prelude.Int.{pos, ◌≤ℤ◌, ◌<ℤ◌}
use launlog_api.Prelude.Text.{codes}
use launlog_api.Config.{
  Config, ConfigError, Library, reject, is_mode, is_production, hour, ninety_days, validate,
  validate_ranges, validate_connections,
}

-- Settings that the process may run with.
pub record IsAccepted (lib : Library) (c : Config) : Type 0 where
  pub safe_production :
      is_production lib c ≡ true
      → (c.owner_registration_enabled ≡ false)
        × (is_mode (codes "verify-full") (lib.ssl_mode c.database_url) ≡ true)
  pub long_secrets :
      (32 ≤ length c.jwt_signing_secret) × (32 ≤ length c.platform_jwt_signing_secret)
  pub distinct_secrets : eq_text c.platform_jwt_signing_secret c.jwt_signing_secret ≡ false
  pub access_ttl : (pos 1 ≤ℤ c.jwt_access_token_ttl) × (c.jwt_access_token_ttl ≤ℤ pos hour)
  pub refresh_ttl :
      (c.jwt_access_token_ttl <ℤ c.jwt_refresh_token_ttl)
      × (c.jwt_refresh_token_ttl ≤ℤ pos ninety_days)
  pub port : (pos 1 ≤ℤ c.http_port) × (c.http_port ≤ℤ pos 65535)
  pub http_timeouts :
      (pos 1 ≤ℤ c.http_read_timeout)
      × (pos 1 ≤ℤ c.http_write_timeout)
      × (pos 1 ≤ℤ c.http_idle_timeout)
  pub timeouts :
      (pos 1 ≤ℤ c.shutdown_timeout)
      × (pos 1 ≤ℤ c.readiness_timeout)
      × (pos 1 ≤ℤ c.database_connect_timeout)
  pub connections :
      (pos 0 ≤ℤ c.database_min_connections)
      × (c.database_min_connections ≤ℤ c.database_max_connections)
      × (pos 1 ≤ℤ c.database_max_connections)

-- What passes a check.
passes :
    (b : Bool) (e : ConfigError) (rest : Option ConfigError)
    → reject b e rest ≡ none
    → (b ≡ false) × (rest ≡ none)
unfolding reject
passes true e rest h = cc
passes false e rest h = (refl, h)

-- Accepted settings have secrets of at least 32 bytes that differ, an access token that lives up to
-- an hour and less than the refresh token, which lives up to 90 days, a port from 1 to 65535, timeouts
-- above zero, and at least one connection and no fewer than the least number of them, which is not negative. In
-- production the registration of owners is off and the database is verified.
pub validate_sound : (lib : Library) (c : Config) → validate lib c ≡ none → IsAccepted lib c
unfolding validate validate_ranges validate_connections
validate_sound lib c h =
    let (a1, h) = passes _ _ _ h in
    let (a2, h) = passes _ _ _ h in
    let (a3, h) = passes _ _ _ h in
    let (a4, h) = passes _ _ _ h in
    let (a5, h) = passes _ _ _ h in
    let (a6, h) = passes _ _ _ h in
    let (a7, h) = passes _ _ _ h in
    let (a8, h) = passes _ _ _ h in
    let (a9, h) = passes _ _ _ h in
    let (a10, h) = passes _ _ _ h in
    let (a11, h) = passes _ _ _ h in
    let (a12, h) = passes _ _ _ h in
    let (a13, h) = passes _ _ _ h in
    let (a14, h) = passes _ _ _ h in
    record {
      safe_production = λ p. (ground arith, ground arith);
      long_secrets = (ground arith, ground arith);
      distinct_secrets = ground arith;
      access_ttl = (ground arith, ground arith);
      refresh_ttl = (ground arith, ground arith);
      port = (ground arith, ground arith);
      http_timeouts = (ground arith, ground arith, ground arith);
      timeouts = (ground arith, ground arith, ground arith);
      connections = (ground arith, ground arith, ground arith);
    }
