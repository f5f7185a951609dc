-- ===== src/Config/Accepted.antt =====
-- What an accepted configuration gives the jobs.
use mdfly.Common.{
  if◌then◌else◌, Bool-cases, ltb_ℤ, Str, codes, is_empty, ℤ, pos, ◌≡◌, refl, ap, ◌∙◌, subst, ◌⊎◌,
  inl, inr, true, ◌||◌, Option, none, some, [], ◌∷◌, arith,
}
use mdfly.Config.{
  Environment, JobsConfig, Config, Loaded, loaded, refused_config, ConfigError, parse_duration,
  load_jobs_config, load_config, require_env, getenv, parse_log_level, default_purge_drain_interval,
  default_lifecycle_gc_interval, default_abandon_grace, default_blob_delete_grace, ◌>>=◌,
  default_shutdown_timeout,
}
use mdfly.Gc.Sweep
use mdfly.Jobs.Runner.{Job, register}
use mdfly.Config.Wiring.{
  job_lifecycle_gc, job_purge_drain, new_purge, purge_service, lifecycle_gc, register_drain,
  register_jobs,
}

Loaded-cases :
    {A : Type 0} (m : Loaded A)
    → ((a : A) × (m ≡ loaded a)) ⊎ ((e : ConfigError) × (m ≡ refused_config e))
Loaded-cases (loaded a) = inl (a, refl)
Loaded-cases (refused_config e) = inr (e, refl)

loaded-injective : {A : Type 0} (a b : A) → loaded a ≡ loaded b → a ≡ b
loaded-injective a b h = cc

bind-loaded :
    {A B : Type 0} (m : Loaded A) (f : A → Loaded B) (b : B)
    → (m >>= f) ≡ loaded b
    → (a : A) × ((m ≡ loaded a) × (f a ≡ loaded b))
bind-loaded (loaded a) f b h = (a, (refl, h))
bind-loaded (refused_config e) f b h = let wrong : refused_config e ≡ loaded b = h in cc

abbrev IsPositive : ℤ → Type 0
IsPositive d = ltb_ℤ (pos 0) d ≡ true

-- What the jobs are given is positive.
pub record IsUsable (cfg : JobsConfig) : Type 0 where
  pub drain : IsPositive cfg.purge_drain_interval
  pub gc : IsPositive cfg.lifecycle_gc_interval
  pub abandon : IsPositive cfg.abandon_grace
  pub delete : IsPositive cfg.blob_delete_grace

abbrev pub collection : JobsConfig → Job
collection cfg = record { name = job_lifecycle_gc; interval = cfg.lifecycle_gc_interval }

abbrev pub drainage : JobsConfig → Job
drainage cfg = record { name = job_purge_drain; interval = cfg.purge_drain_interval }

module _ (parse : Str → Option ℤ) (env : Environment) where
  parse_duration-IsPositive :
      (key : Str) (fallback d : ℤ)
      → IsPositive fallback
      → parse_duration parse env key fallback ≡ loaded d
      → IsPositive d
  unfolding parse_duration
  parse_duration-IsPositive key fallback d p h = ground arith

  duration-cases :
      (key : Str) (fallback : ℤ)
      → IsPositive fallback
      → ((d : ℤ) × ((parse_duration parse env key fallback ≡ loaded d) × IsPositive d))
        ⊎ ((e : ConfigError) × (parse_duration parse env key fallback ≡ refused_config e))
  duration-cases key fallback p = elim (Loaded-cases (parse_duration parse env key fallback)) [
    | inl (d, e) ↦ inl (d, (e, parse_duration-IsPositive key fallback d p e))
    | inr refusal ↦ inr refusal
  ]

  load_jobs_config-IsUsable :
      (cfg : JobsConfig) → load_jobs_config parse env ≡ loaded cfg → IsUsable cfg
  unfolding load_jobs_config
  load_jobs_config-IsUsable cfg h =
      elim (duration-cases (codes "PURGE_DRAIN_INTERVAL") default_purge_drain_interval refl) [
        | inr (e, k) ↦ let wrong = rw (k, load_jobs_config) at h in cc
        | inl (a, (ka, pa)) ↦
            elim (duration-cases (codes "LIFECYCLE_GC_INTERVAL") default_lifecycle_gc_interval
              refl) [
                | inr (e, k) ↦ let wrong = rw (ka, k, load_jobs_config) at h in cc
                | inl (b, (kb, pb)) ↦
                    elim (duration-cases (codes "ABANDON_GRACE") default_abandon_grace refl) [
                      | inr (e, k) ↦ let wrong = rw (ka, kb, k, load_jobs_config) at h in cc
                      | inl (c, (kc, pc)) ↦
                          elim (duration-cases (codes "BLOB_DELETE_GRACE") default_blob_delete_grace
                            refl) [
                              | inr (e, k) ↦
                                  let wrong = rw (ka, kb, kc, k, load_jobs_config) at h in cc
                              | inl (d, (kd, pd)) ↦
                                  let made : JobsConfig = record {
                                    purge_drain_interval = a;
                                    lifecycle_gc_interval = b;
                                    abandon_grace = c;
                                    blob_delete_grace = d;
                                  } in
                                  let same =
                                    loaded-injective made cfg
                                      (rw (ka, kb, kc, kd, load_jobs_config) at h) in
                                  subst IsUsable same
                                    (record { drain = pa; gc = pb; abandon = pc; delete = pd })
                            ]
                    ]
              ]
      ]

  jobs_of :
      (cfg : Config)
      → load_config parse env ≡ loaded cfg
      → load_jobs_config parse env ≡ loaded cfg.jobs
  unfolding load_config
  jobs_of cfg h =
      let (dsn, (_, h)) = bind-loaded (require_env env (codes "DATABASE_URL")) _ cfg h in
      let (base_url, (_, h)) = bind-loaded (require_env env (codes "BASE_URL")) _ cfg h in
      let (endpoint, (_, h)) = bind-loaded (require_env env (codes "R2_ENDPOINT")) _ cfg h in
      let (key, (_, h)) = bind-loaded (require_env env (codes "R2_ACCESS_KEY_ID")) _ cfg h in
      let (secret, (_, h)) = bind-loaded (require_env env (codes "R2_SECRET_ACCESS_KEY")) _ cfg h in
      let (bucket, (_, h)) = bind-loaded (require_env env (codes "R2_BUCKET")) _ cfg h in
      let (storage_base, (_, h)) =
        bind-loaded (require_env env (codes "STORAGE_BASE_URL")) _ cfg h in
      let (level, (_, h)) =
        bind-loaded (parse_log_level (getenv env (codes "LOG_LEVEL"))) _ cfg h in
      let (shutdown, (_, h)) =
        bind-loaded (parse_duration parse env (codes "SHUTDOWN_TIMEOUT") default_shutdown_timeout) _
          cfg h in
      let (jobs, (k, h)) = bind-loaded (load_jobs_config parse env) _ cfg h in
      let same : jobs ≡ cfg.jobs = ap Config.jobs (loaded-injective _ cfg h) in k ∙ ap loaded same

  -- With an accepted configuration the jobs are registered without a panic: the collection, and
  -- behind it the drain exactly if both Cloudflare variables are set, each at its interval, which is
  -- positive; and the collector finds its own configuration valid.
  pub load_config-Registers :
      (parse_url : Str → Option Str) (cfg : Config)
      → load_config parse env ≡ loaded cfg
      → (register_jobs cfg.jobs (new_purge parse_url cfg)
          ≡ some (
              collection cfg.jobs
              ∷ (if is_empty cfg.cloudflare.zone_id || is_empty cfg.cloudflare.token
                  then []
                  else drainage cfg.jobs ∷ [])))
        × (IsUsable cfg.jobs × (Sweep.validate_config (lifecycle_gc cfg.jobs) ≡ none))
  unfolding register_jobs register register_drain new_purge Sweep.validate_config lifecycle_gc
  load_config-Registers parse_url cfg h =
      let fit = load_jobs_config-IsUsable cfg.jobs (jobs_of cfg h) in
      let valid : Sweep.validate_config (lifecycle_gc cfg.jobs) ≡ none =
        rw (fit.abandon, fit.delete) refl in
      elim (Bool-cases (is_empty cfg.cloudflare.zone_id || is_empty cfg.cloudflare.token)) [
        | inl t ↦
            let absent : new_purge parse_url cfg ≡ none = rw (new_purge, t) refl in
            (rw (t, register_jobs, fit.gc, absent) refl, (fit, valid))
        | inr f ↦
            let set : new_purge parse_url cfg ≡ some (purge_service parse_url cfg) =
              rw (new_purge, f) refl in
            (rw (f, register_jobs, fit.gc, set, fit.drain) refl, (fit, valid))
      ]
