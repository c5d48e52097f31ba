-- ===== src/Config.antt =====
-- internal/config/config.go: the keys, the environments, and the checks of Init. The environment and
-- the file are read by libraries; the version is left out.
pub mod Keys
use election_agent.Prelude.{
  ℕ, String, ◌<>◌, ◌⊎◌, inl, inr, Bool, not, ◌&&◌, ◌||◌, Option, none, some, List, [], ◌∷◌, ◌==◌,
  if◌then◌else◌,
}
use election_agent.Errors.{Error, text}
use election_agent.Agent.{contains}

-- The fields of Config, ZoneConfig, RedisConfig and LeaseConfig that the modelled code reads.
pub record Config : Type 0 where
  pub env : String
  pub name : String
  pub key_prefix : String
  pub default_state : String
  pub state_cache_ttl : ℕ
  pub driver : String
  pub redis_mode : String
  pub redis_primary : ℕ
  pub lease_cache : Bool
  pub zone_enable : Bool
  pub zone_name : String
  pub http_enable : Bool
  pub metric_enable : Bool

unfoldable pub agent_info_key : Config → String → String
agent_info_key cfg field = cfg.key_prefix <> "/info/" <> cfg.name <> "/" <> field

abbrev pub kind_or_default : String → String
kind_or_default kind = if kind == "" then "default" else kind

unfoldable pub lease_key : Config → String → String → String
lease_key cfg lease kind = cfg.key_prefix <> "/lease/" <> kind_or_default kind <> "/" <> lease

unfoldable pub lease_kind_prefix : Config → String → String
lease_kind_prefix cfg kind = cfg.key_prefix <> "/lease/" <> kind_or_default kind <> "/"

abbrev pub redis_modes : List String
redis_modes = "single" ∷ "cluster" ∷ "sharding" ∷ []

-- The checks at the end of Init; `none` passes.
unfoldable pub check_config : Config → Option Error
check_config cfg =
    if (cfg.driver == "goredis" || cfg.driver == "rueidis")
      && not (contains redis_modes cfg.redis_mode)
    then some (text "Unsupported redis mode")
    else if not cfg.http_enable && cfg.metric_enable
    then some (text "The config http.enable needs to be true")
    else none

-- Init, on what the environment gives and what the file then makes of it: the configuration that
-- becomes the default one, or an error.
unfoldable pub init_config : Config ⊎ Error → (Config → Config ⊎ Error) → Config ⊎ Error
unfolding check_config
init_config (inr e) load_yaml = inr e
init_config (inl env_config) load_yaml = elim (load_yaml env_config) [
  | inr e ↦ inr e
  | inl cfg ↦ elim (check_config cfg) [ some e ↦ inr e | none ↦ inl cfg ]
]

-- IsProdEnv, IsDevEnv, IsTestEnv and IsBenchmarkEnv
unfoldable pub is_prod_env : Config → Bool
is_prod_env cfg = cfg.env == "production"

unfoldable pub is_dev_env : Config → Bool
is_dev_env cfg = cfg.env == "development"

unfoldable pub is_test_env : Config → Bool
is_test_env cfg = cfg.env == "test"

unfoldable pub is_benchmark_env : Config → Bool
is_benchmark_env cfg = cfg.env == "benchmark"
