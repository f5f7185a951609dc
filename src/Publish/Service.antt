-- ===== src/Publish/Service.antt =====
-- publish.go: the service's parts, its results, and the outcome of a request: the database that it
-- leaves, what the handler writes, and the slug whose inline purge it kicked off.
use mdfly.Common.{if◌then◌else◌, Str, codes, ℕ, ◌*◌, Bool, Option, none, some, ◌++◌}
use mdfly.Httpx.{Result}
use mdfly.Documents.Table.{Database}
use mdfly.Platform.{Platform}

pub record Service : Type 0 where
  pub platform : Platform
  pub base_url : Str
  -- whether a Purger is wired
  pub purger : Bool

-- 30 days, in nanoseconds
abbrev pub anon_expires_in : ℕ
anon_expires_in = 30 * 24 * 60 * 60 * 1000000000

pub record Outcome (A : Type 0) : Type 0 where
  pub db : Database
  pub result : Result A
  pub purged : Option Str

pub record CommitResult : Type 0 where
  pub url : Str
  pub slug : Str
  pub manifest_hash : Str

abbrev pub document_url : Str → Str → Str
document_url base s = base ++ (codes "/" ++ s)

abbrev pub commit_result : Service → Str → Str → CommitResult
commit_result sv s hash = record {
  url = document_url sv.base_url s;
  slug = s;
  manifest_hash = hash;
}

abbrev pub purge_soon : Service → Str → Option Str
purge_soon sv s = if sv.purger then some s else none
