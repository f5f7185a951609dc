-- ===== src/Tests/Setup.antt =====
-- A configuration, the jobs it starts, and the counters of two clients.
use mdfly.Common.{
  if◌then◌else◌, Str, codes, str_eq, has_byte, ℤ, pos, ℕ, ◌≡◌, refl, false, ◌||◌, Option, none,
  some, [], ◌∷◌,
}
use mdfly.Config.{Environment, Config, load_config, level_warn}
use mdfly.Config.Accepted.{load_config-Registers, IsUsable, collection}
use mdfly.RateLimit.Subject.Keys.{bucket_key-injective}
use mdfly.Gc.Sweep
use mdfly.Gc.Sweep.{validate_config}
use mdfly.RateLimit.Subject.{Request, Netip, rate_limit_subject}
use mdfly.Config.Wiring.{new_purge, lifecycle_gc, register_jobs}

abbrev is_set : Str → Str → Option Str
is_set key v = if str_eq key v then some (codes "x") else none

abbrev environment : Environment
environment key =
    if str_eq key (codes "ABANDON_GRACE")
    then some (codes "2h")
    else if str_eq key (codes "LOG_LEVEL")
    then some (codes "Warning")
    else if str_eq key (codes "CLOUDFLARE_ZONE_ID")
        || str_eq key (codes "SHUTDOWN_TIMEOUT")
        || str_eq key (codes "PURGE_DRAIN_INTERVAL")
        || str_eq key (codes "LIFECYCLE_GC_INTERVAL")
        || str_eq key (codes "BLOB_DELETE_GRACE")
    then none
    else some key

abbrev durations : Str → Option ℤ
durations s = if str_eq s (codes "2h") then some (pos 7200000000000) else none

abbrev no_host : Str → Option Str
no_host s = none

abbrev made : Config
made = record {
  addr = codes "ADDR";
  base_url = codes "BASE_URL";
  log_level = level_warn;
  shutdown_timeout = pos 15000000000;
  database_url = codes "DATABASE_URL";
  r2 = record {
    endpoint = codes "R2_ENDPOINT";
    access_key_id = codes "R2_ACCESS_KEY_ID";
    secret_access_key = codes "R2_SECRET_ACCESS_KEY";
    bucket = codes "R2_BUCKET";
    public_base_url = codes "STORAGE_BASE_URL";
  };
  jobs = record {
    purge_drain_interval = pos 900000000000;
    lifecycle_gc_interval = pos 3600000000000;
    abandon_grace = pos 7200000000000;
    blob_delete_grace = pos 86400000000000;
  };
  rate_limit_url = codes "REDIS_URL";
  cloudflare = record { zone_id = []; token = codes "CLOUDFLARE_API_TOKEN" };
}

load_config-Registers_example :
    (register_jobs made.jobs (new_purge no_host made) ≡ some (collection made.jobs ∷ []))
    × (IsUsable made.jobs × (Sweep.validate_config (lifecycle_gc made.jobs) ≡ none))
unfolding load_config new_purge
load_config-Registers_example = load_config-Registers durations environment no_host made refl

-- Addresses are their texts.
abbrev texts : Netip Str
texts = record {
  parse_addr = λ s. some s;
  is_loopback = λ a. str_eq a (codes "127.0.0.1");
  is_private = λ a. false;
  prefix_contains = λ p a. false;
}

-- A client behind the proxy, and one that claims an address of its own.
abbrev behind_proxy : Request
behind_proxy = record {
  remote_addr = codes "127.0.0.1:4000";
  authorization = [];
  connecting_ip = codes "2001:db8::1";
}

abbrev forged : Request
forged = record {
  remote_addr = codes "203.0.113.7:5000";
  authorization = [];
  connecting_ip = codes "2001:db8::1";
}

behind_proxy_subject : rate_limit_subject texts (λ s. s) behind_proxy ≡ codes "ip:2001.db8..1"
unfolding rate_limit_subject str_eq
behind_proxy_subject = refl

forged_subject : rate_limit_subject texts (λ s. s) forged ≡ codes "ip:203.0.113.7"
unfolding rate_limit_subject str_eq
forged_subject = refl

abbrev step : ℕ
step = 29400

bucket_key-injective_example :
    (rate_limit_subject texts (λ s. s) behind_proxy
      ≡ rate_limit_subject texts (λ s. s) behind_proxy)
    × ((codes "m" ≡ codes "m") × (step ≡ step))
unfolding has_byte
bucket_key-injective_example =
    bucket_key-injective texts (λ s. s) behind_proxy behind_proxy (codes "m") (codes "m") 29400
      29400 refl refl refl
