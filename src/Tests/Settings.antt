-- ===== src/Tests/Settings.antt =====
-- The checks of the settings at work.
use launlog_api.Prelude.{false, none, ◌≡◌, refl, replicate}
use launlog_api.Prelude.Int.{pos}
use launlog_api.Prelude.Text.{codes}
use launlog_api.Config.{Config, Library, validate, validate_ranges, validate_connections, reject}
use launlog_api.Config.Accepted.{IsAccepted, validate_sound}

abbrev plain : Library
plain = record { equal_fold = λ _ _. false; ssl_mode = λ _. none }

abbrev local_settings : Config
local_settings = record {
  environment = codes "development";
  http_port = pos 8080;
  http_read_timeout = pos 10000000000;
  http_write_timeout = pos 15000000000;
  http_idle_timeout = pos 60000000000;
  shutdown_timeout = pos 10000000000;
  readiness_timeout = pos 2000000000;
  timezone = codes "Asia/Jakarta";
  database_url = codes "postgres://db";
  database_connect_timeout = pos 5000000000;
  database_max_connections = pos 10;
  database_min_connections = pos 0;
  jwt_signing_secret = replicate 32 1;
  platform_jwt_signing_secret = replicate 32 2;
  jwt_access_token_ttl = pos 900000000000;
  jwt_refresh_token_ttl = pos 2592000000000000;
  owner_registration_enabled = false;
}

local_run : validate plain local_settings ≡ none
unfolding validate validate_ranges validate_connections reject
local_run = refl

validate_sound_example : IsAccepted plain local_settings
validate_sound_example = validate_sound plain local_settings local_run
