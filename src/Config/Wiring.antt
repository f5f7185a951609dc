-- ===== src/Config/Wiring.antt =====
-- internal/server/app.go: the jobs that are registered for a configuration; purge.go, `HostFromBaseURL`.
-- The host that `url.Parse` finds in a text is a parameter.
use mdfly.Common.{
  ◌==◌, if◌then◌else◌, Str, codes, is_empty, has_prefix, pos, Bool, true, ◌&&◌, ◌||◌, Option, none,
  some, List, [], ◌∷◌, ◌++◌,
}
use mdfly.Config.{JobsConfig, Config}
use mdfly.Gc.Sweep
use mdfly.Purge.Drain
use mdfly.Jobs.Runner.{Job, register}

abbrev pub job_lifecycle_gc : Str
job_lifecycle_gc = codes "lifecycle-gc"

abbrev pub job_purge_drain : Str
job_purge_drain = codes "purge-drain"

-- `strings.Contains`
unfoldable pub contains : Str → Str → Bool
unfolding has_prefix
contains [] t = has_prefix [] t
contains (c ∷ s) t = has_prefix (c ∷ s) t || contains s t

-- `strings.TrimSuffix` of a slash.
unfoldable pub trim_slash : Str → Str
unfolding is_empty
trim_slash [] = []
trim_slash (c ∷ s) = let rest = trim_slash s in if c == b'/' && is_empty s then [] else c ∷ rest

-- `HostFromBaseURL`
unfoldable pub host_from_base_url : (Str → Option Str) → Str → Str
unfolding contains is_empty trim_slash
host_from_base_url parse_url base_url =
    let raw = if contains base_url (codes "://") then base_url else codes "https://" ++ base_url in
    elim (parse_url raw) [
      | none ↦ trim_slash base_url
      | some host ↦ if is_empty host then trim_slash base_url else host
    ]

-- The service of `newPurge`.
unfoldable pub purge_service : (Str → Option Str) → Config → Drain.Service
unfolding host_from_base_url
purge_service parse_url cfg = record {
  has_store = true;
  has_cdn = true;
  host = host_from_base_url parse_url cfg.base_url;
  batch_size = pos 0;
  base_backoff = pos 0;
  max_backoff = pos 0;
}

-- `newPurge`
unfoldable pub new_purge : (Str → Option Str) → Config → Option Drain.Service
unfolding is_empty purge_service
new_purge parse_url cfg =
    if is_empty cfg.cloudflare.zone_id || is_empty cfg.cloudflare.token
    then none
    else some (purge_service parse_url cfg)

-- The garbage collection service of `registerJobs`.
unfoldable pub lifecycle_gc : JobsConfig → Sweep.Service
lifecycle_gc cfg = record {
  abandon_grace = cfg.abandon_grace;
  blob_delete_grace = cfg.blob_delete_grace;
  has_blobs = true;
  batch_size = pos 0;
}

unfoldable pub register_drain : JobsConfig → Option Drain.Service → List Job → Option (List Job)
unfolding register
register_drain cfg none jobs = some jobs
register_drain cfg (some purger) jobs = register job_purge_drain cfg.purge_drain_interval jobs

-- `registerJobs` on a runner without jobs; `none` is a panic of `Register`.
unfoldable pub register_jobs : JobsConfig → Option Drain.Service → Option (List Job)
unfolding register register_drain
register_jobs cfg purger = elim (register job_lifecycle_gc cfg.lifecycle_gc_interval []) [
  | none ↦ none
  | some jobs ↦ register_drain cfg purger jobs
]
