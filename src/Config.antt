-- ===== src/Config.antt =====
-- The settings of the process and their checks (internal/config/config.go). A duration is a number of
-- nanoseconds; texts are the bytes of the environment.
pub mod Accepted
use launlog_api.Prelude.{
  ℕ, Bool, true, false, not, ◌&&◌, ◌||◌, Option, none, some, [], if◌then◌else◌, ltb, length,
  eq_text,
}
use launlog_api.Prelude.Int.{ℤ, pos, ltb_ℤ, leb_ℤ}
use launlog_api.Prelude.Text.{Bytes, codes}

-- Without the host and the CORS origins, which `validate` does not read.
pub record Config : Type 0 where
  pub environment : Bytes
  pub http_port : ℤ
  pub http_read_timeout : ℤ
  pub http_write_timeout : ℤ
  pub http_idle_timeout : ℤ
  pub shutdown_timeout : ℤ
  pub readiness_timeout : ℤ
  pub timezone : Bytes
  pub database_url : Bytes
  pub database_connect_timeout : ℤ
  pub database_max_connections : ℤ
  pub database_min_connections : ℤ
  pub jwt_signing_secret : Bytes
  pub platform_jwt_signing_secret : Bytes
  pub jwt_access_token_ttl : ℤ
  pub jwt_refresh_token_ttl : ℤ
  pub owner_registration_enabled : Bool

-- The errors of `validate`, in the order of its checks.
pub data ConfigError : Type 0 where
  no_database_url registration_in_production no_verified_database : ConfigError
  weak_secret weak_platform_secret bad_access_ttl bad_refresh_ttl : ConfigError
  bad_port bad_http_timeout bad_timeout bad_timezone : ConfigError
  bad_max_connections bad_min_connections min_above_max : ConfigError

-- The standard library: `strings.EqualFold`, and the `sslmode` that `url.Parse` finds in the query of
-- a database URL, if it parses.
pub record Library : Type 0 where
  pub equal_fold : Bytes → Bytes → Bool
  pub ssl_mode : Bytes → Option Bytes

-- `if test { return e }`.
unfoldable pub reject : Bool → ConfigError → Option ConfigError → Option ConfigError
reject test e rest = if test then some e else rest

abbrev pub placeholder : Bytes
placeholder = codes "replace-with-a-random-secret-of-at-least-32-bytes"

abbrev pub is_weak : Bytes → Bool
is_weak secret = ltb (length secret) 32 || eq_text secret placeholder

abbrev pub is_mode : Bytes → Option Bytes → Bool
is_mode mode none = false
is_mode mode (some m) = eq_text m mode

abbrev pub is_production : Library → Config → Bool
is_production lib c = lib.equal_fold c.environment (codes "production")

abbrev pub hour : ℕ
hour = 3600000000000

abbrev pub ninety_days : ℕ
ninety_days = 7776000000000000

unfoldable pub validate_connections : Config → Option ConfigError
validate_connections c = reject (leb_ℤ c.database_max_connections (pos 0)) bad_max_connections (
    reject (ltb_ℤ c.database_min_connections (pos 0)) bad_min_connections
      (reject (ltb_ℤ c.database_max_connections c.database_min_connections) min_above_max none))

-- The checks from the port on.
unfoldable pub validate_ranges : Config → Option ConfigError
validate_ranges c = reject (ltb_ℤ c.http_port (pos 1) || ltb_ℤ (pos 65535) c.http_port) bad_port (
    reject
      (leb_ℤ c.http_read_timeout (pos 0)
        || leb_ℤ c.http_write_timeout (pos 0)
        || leb_ℤ c.http_idle_timeout (pos 0))
      bad_http_timeout
      (reject
        (leb_ℤ c.shutdown_timeout (pos 0)
          || leb_ℤ c.readiness_timeout (pos 0)
          || leb_ℤ c.database_connect_timeout (pos 0))
        bad_timeout
        (reject (not (eq_text c.timezone (codes "Asia/Jakarta"))) bad_timezone
          (validate_connections c))))

unfoldable pub validate : Library → Config → Option ConfigError
validate lib c = reject (eq_text c.database_url []) no_database_url (
    reject (is_production lib c && c.owner_registration_enabled) registration_in_production (
      reject
        (is_production lib c && not (is_mode (codes "verify-full") (lib.ssl_mode c.database_url)))
        no_verified_database
        (reject (is_weak c.jwt_signing_secret) weak_secret (
          reject
            (is_weak c.platform_jwt_signing_secret
              || eq_text c.platform_jwt_signing_secret c.jwt_signing_secret)
            weak_platform_secret
            (reject
              (leb_ℤ c.jwt_access_token_ttl (pos 0) || ltb_ℤ (pos hour) c.jwt_access_token_ttl)
              bad_access_ttl
              (reject
                (leb_ℤ c.jwt_refresh_token_ttl c.jwt_access_token_ttl
                  || ltb_ℤ (pos ninety_days) c.jwt_refresh_token_ttl)
                bad_refresh_ttl (validate_ranges c)))))))
