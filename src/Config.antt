-- ===== src/Config.antt =====
-- internal/server/config.go: the configuration that is read from the environment. What
-- `time.ParseDuration` makes of a text is a parameter.
pub mod Wiring
pub mod Accepted
use mdfly.Common.{
  if◌then◌else◌, ltb_ℤ, Str, codes, str_eq, is_empty, to_lower, ℤ, pos, ℕ, ◌*◌, ◌||◌, Option, none,
  some, [],
}

-- A name of an environment variable, and the value of one that is set.
abbrev pub Environment : Type 0
Environment = Str → Option Str

abbrev pub second : ℕ
second = 1000000000

abbrev pub minute : ℕ
minute = 60 * second

abbrev pub hour : ℕ
hour = 60 * minute

abbrev pub default_addr : Str
default_addr = codes ":8080"

abbrev pub default_shutdown_timeout : ℤ
default_shutdown_timeout = pos (15 * second)

abbrev pub default_purge_drain_interval : ℤ
default_purge_drain_interval = pos (15 * minute)

abbrev pub default_lifecycle_gc_interval : ℤ
default_lifecycle_gc_interval = pos hour

abbrev pub default_abandon_grace : ℤ
default_abandon_grace = pos hour

abbrev pub default_blob_delete_grace : ℤ
default_blob_delete_grace = pos (24 * hour)

pub data LogLevel : Type 0 where
  level_debug level_info level_warn level_error : LogLevel

pub record StorageConfig : Type 0 where
  pub endpoint : Str
  pub access_key_id : Str
  pub secret_access_key : Str
  pub bucket : Str
  pub public_base_url : Str

pub record JobsConfig : Type 0 where
  pub purge_drain_interval : ℤ
  pub lifecycle_gc_interval : ℤ
  pub abandon_grace : ℤ
  pub blob_delete_grace : ℤ

pub record CloudflareConfig : Type 0 where
  pub zone_id : Str
  pub token : Str

-- `DatabaseConfig` and `RateLimitConfig` hold one URL each.
pub record Config : Type 0 where
  pub addr : Str
  pub base_url : Str
  pub log_level : LogLevel
  pub shutdown_timeout : ℤ
  pub database_url : Str
  pub r2 : StorageConfig
  pub jobs : JobsConfig
  pub rate_limit_url : Str
  pub cloudflare : CloudflareConfig

-- The variable that is not set, the level that is none, or the variable whose duration is bad.
pub data ConfigError : Type 0 where
  not_set invalid_level bad_duration : Str → ConfigError

pub data Loaded (A : Type 0) : Type 0 where
  loaded : A → Loaded A
  refused_config : ConfigError → Loaded A

infixl 5 ◌>>=◌
abbrev ◌>>=◌ : {A B : Type 0} → Loaded A → (A → Loaded B) → Loaded B
loaded a >>= f = f a
refused_config e >>= f = refused_config e

-- `os.Getenv`
unfoldable pub getenv : Environment → Str → Str
getenv env key = elim (env key) [ none ↦ [] | some v ↦ v ]

unfoldable pub require_env : Environment → Str → Loaded Str
unfolding is_empty
require_env env key = elim (env key) [
  | none ↦ refused_config (not_set key)
  | some v ↦ if is_empty v then refused_config (not_set key) else loaded v
]

unfoldable pub env_or_default : Environment → Str → Str → Str
unfolding is_empty
env_or_default env key fallback = elim (env key) [
  | none ↦ fallback
  | some v ↦ if is_empty v then fallback else v
]

unfoldable pub parse_log_level : Str → Loaded LogLevel
unfolding is_empty to_lower str_eq
parse_log_level raw =
    let level = to_lower raw in
    if is_empty raw
    then loaded level_info
    else if str_eq level (codes "debug")
    then loaded level_debug
    else if str_eq level (codes "info")
    then loaded level_info
    else if str_eq level (codes "warn") || str_eq level (codes "warning")
    then loaded level_warn
    else if str_eq level (codes "error")
    then loaded level_error
    else refused_config (invalid_level raw)

module _ (parse : Str → Option ℤ) (env : Environment) where
  -- `parseDuration` of a variable; the error names the variable.
  unfoldable pub parse_duration : Str → ℤ → Loaded ℤ
  unfolding is_empty getenv
  parse_duration key fallback =
      if is_empty (getenv env key) then loaded fallback else elim (parse (getenv env key)) [
        | none ↦ refused_config (bad_duration key)
        | some d ↦ if ltb_ℤ (pos 0) d then loaded d else refused_config (bad_duration key)
      ]

  unfoldable pub load_jobs_config : Loaded JobsConfig
  unfolding parse_duration
  load_jobs_config = do
    drain ← parse_duration (codes "PURGE_DRAIN_INTERVAL") default_purge_drain_interval
    gc ← parse_duration (codes "LIFECYCLE_GC_INTERVAL") default_lifecycle_gc_interval
    abandon ← parse_duration (codes "ABANDON_GRACE") default_abandon_grace
    delete ← parse_duration (codes "BLOB_DELETE_GRACE") default_blob_delete_grace
    loaded (record {
      purge_drain_interval = drain;
      lifecycle_gc_interval = gc;
      abandon_grace = abandon;
      blob_delete_grace = delete;
    })

  -- `LoadConfig`
  unfoldable pub load_config : Loaded Config
  unfolding require_env parse_log_level parse_duration load_jobs_config env_or_default getenv
  load_config = do
    dsn ← require_env env (codes "DATABASE_URL")
    base_url ← require_env env (codes "BASE_URL")
    endpoint ← require_env env (codes "R2_ENDPOINT")
    key ← require_env env (codes "R2_ACCESS_KEY_ID")
    secret ← require_env env (codes "R2_SECRET_ACCESS_KEY")
    bucket ← require_env env (codes "R2_BUCKET")
    storage_base ← require_env env (codes "STORAGE_BASE_URL")
    level ← parse_log_level (getenv env (codes "LOG_LEVEL"))
    shutdown ← parse_duration (codes "SHUTDOWN_TIMEOUT") default_shutdown_timeout
    jobs ← load_jobs_config
    loaded (record {
      addr = env_or_default env (codes "ADDR") default_addr;
      base_url = base_url;
      log_level = level;
      shutdown_timeout = shutdown;
      database_url = dsn;
      r2 = record {
        endpoint = endpoint;
        access_key_id = key;
        secret_access_key = secret;
        bucket = bucket;
        public_base_url = storage_base;
      };
      jobs = jobs;
      rate_limit_url = getenv env (codes "REDIS_URL");
      cloudflare = record {
        zone_id = getenv env (codes "CLOUDFLARE_ZONE_ID");
        token = getenv env (codes "CLOUDFLARE_API_TOKEN");
      };
    })
