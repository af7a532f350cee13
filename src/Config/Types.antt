-- ===== src/Config/Types.antt =====
-- src/config/types.rs, the configuration that serde reads. Durations are numbers of seconds;
-- `F` is the type of the `f64` values.
use rust_ai_router.Base.{ℕ, Bool, true, false, Option, none, List, [], ◌∷◌, ◌*◌, Str, bytes, Float}
use rust_ai_router.Base.Dict.{Dict}

pub record TimeoutConfig : Type 0 where
  pub client_idle_secs : ℕ
  pub client_read_secs : ℕ
  pub upstream_connect_secs : ℕ
  pub upstream_read_secs : ℕ
  pub upstream_write_secs : ℕ

pub record ServerConfig : Type 0 where
  pub listen : Str
  pub base_path : Str
  pub timeouts : TimeoutConfig
  pub max_body_size : ℕ

pub record LimitsConfig : Type 0 where
  pub rpm : ℕ
  pub tpm : ℕ

pub record TeamConfig (F : Type 0) : Type 0 where
  pub name : Str
  pub models : List Str
  pub limits : Option LimitsConfig
  pub cost_multiplier : Option F

pub record TokenConfig : Type 0 where
  pub key : Str
  pub team : Str
  pub models : Option (List Str)
  pub limits : Option LimitsConfig

pub record CostConfig (F : Type 0) : Type 0 where
  pub prompt : F
  pub completion : F

pub record EndpointConfig (F : Type 0) : Type 0 where
  pub url : Str
  pub key : Str
  pub limits : Option LimitsConfig
  pub cost : Option (CostConfig F)
  pub weight : ℕ
  pub headers : Dict Str

pub record ModelConfig (F : Type 0) : Type 0 where
  pub name : Str
  pub aliases : List Str
  pub endpoints : List (EndpointConfig F)
  pub model_type : Str

pub record Fail2banConfig (F : Type 0) : Type 0 where
  pub max_failures : ℕ
  pub ban_duration_secs : ℕ
  pub error_threshold_pct : F
  pub fail_status_codes : List Str
  pub health_check_interval_secs : ℕ
  pub retry_on_failure : Bool

pub record StatsConfig : Type 0 where
  pub enabled : Bool
  pub postgres_url : Option Str
  pub retention_days : ℕ
  pub cleanup_interval_secs : ℕ
  pub aggregation_interval_secs : ℕ

pub record SessionConfig : Type 0 where
  pub sticky_ttl_secs : ℕ

pub record SyncConfig : Type 0 where
  pub enabled : Bool
  pub mode : Str
  pub redis_url : Option Str
  pub sentinel_nodes : List Str
  pub sentinel_master_name : Option Str
  pub sentinel_server_type : Str
  pub key_prefix : Str
  pub fail_open : Bool

pub record AppConfig (F : Type 0) : Type 0 where
  pub server : ServerConfig
  pub teams : List (TeamConfig F)
  pub tokens : List TokenConfig
  pub models : List (ModelConfig F)
  pub fail2ban : Fail2banConfig F
  pub stats : StatsConfig
  pub session : SessionConfig
  pub sync : SyncConfig

pub record EffectiveLimits (F : Type 0) : Type 0 where
  pub rpm : ℕ
  pub tpm : ℕ
  pub models : List Str
  pub cost_multiplier : F

abbrev pub default_max_body_size : ℕ
default_max_body_size = 10 * 1024 * 1024

abbrev pub default_timeouts : TimeoutConfig
default_timeouts = record {
  client_idle_secs = 60;
  client_read_secs = 30;
  upstream_connect_secs = 10;
  upstream_read_secs = 300;
  upstream_write_secs = 60;
}

abbrev pub default_fail_codes : List Str
default_fail_codes = bytes "5xx" ∷ bytes "401" ∷ bytes "403" ∷ bytes "429" ∷ []

-- The literal 0.5 is the exact quotient of 1 by 2.
abbrev pub default_fail2ban : {F : Type 0} ⦃fl : Float F⦄ → Fail2banConfig F
default_fail2ban ⦃fl⦄ = record {
  max_failures = 5;
  ban_duration_secs = 60;
  error_threshold_pct = fl.div (fl.of_u64 1) (fl.of_u64 2);
  fail_status_codes = default_fail_codes;
  health_check_interval_secs = 30;
  retry_on_failure = true;
}

abbrev pub default_stats : StatsConfig
default_stats = record {
  enabled = false;
  postgres_url = none;
  retention_days = 30;
  cleanup_interval_secs = 3600;
  aggregation_interval_secs = 300;
}

abbrev pub default_session : SessionConfig
default_session = record { sticky_ttl_secs = 300 }

abbrev pub default_sync : SyncConfig
default_sync = record {
  enabled = false;
  mode = bytes "standalone";
  redis_url = none;
  sentinel_nodes = [];
  sentinel_master_name = none;
  sentinel_server_type = bytes "master";
  key_prefix = bytes "oar";
  fail_open = true;
}
