-- ===== src/Tests/Limits.antt =====
-- Limits and checks at concrete data.
use mdfly.Common.Hex.{decode}
use mdfly.Common.Hex.{decode}
use mdfly.Common.{
  All, add64, Str, codes, str_eq, pos, ℕ, ◌*◌, ◌^◌, ◌≡◌, refl, ◌≢◌, ◌↔◌, true, false, not, Option,
  none, some, List, [], ◌∷◌, arith,
}
use mdfly.Tests.World.{platform, one_file}
use mdfly.Httpx.{bad_request}
use mdfly.Slug.{
  generate_slug, generate_slug_from, generate, generate_from, push, letter, is_reserved,
}
use mdfly.Api.{BundleDto}
use mdfly.RateLimit.Limiter.{Window, first_limit, decide}
use mdfly.RateLimit.Limiter.Laws.{
  exceeded, longest_wait, least_left, HasSize, decide_verdict, RollsOver, retry_after-RollsOver,
}
use mdfly.Purge.Backoff.{backoff_for}
use mdfly.Purge.Backoff.Bounds.{min, backoff_for-exact}
use mdfly.Publish.Validate.{
  validate_bundle, validate_files, file_error, hash_error, size_error, after_files,
}
use mdfly.Publish.Blobs.{verify_blobs}
use mdfly.Publish.Blobs.Uploaded.{FileStored, verify_blobs-FileStored}
use mdfly.Publish.Validate.Laws.{IsBundle, validate_bundle-IsBundle, lists_path}
use mdfly.Cli.Limits.{BundleFile, Bundle, dto_files, to_dto, check_bundle_limits}
use mdfly.Cli.Exit.{CliError, api_error}
use mdfly.Cli.Limits.Preflight.{IsLocalBundle, check_bundle_limits-validate_bundle}

abbrev hash64 : Str
hash64 = codes "00112233445566778899aabbccddeeff00112233445566778899aabbccddeeff"

abbrev small_bundle : BundleDto
small_bundle = record {
  root_path = codes "a.md";
  project_root = [];
  files = record { path = codes "a.md"; hash = hash64; size = pos 3 } ∷ [];
}

small_bundle_valid : validate_bundle small_bundle ≡ none
unfolding validate_bundle validate_files file_error hash_error decode size_error after_files str_eq
    add64
small_bundle_valid = refl

-- A root path that no file has is refused.
rootless_refused :
    validate_bundle (record small_bundle { root_path = codes "b.md" })
    ≡ some (bad_request "bundle.root_path not present in bundle.files")
unfolding validate_bundle validate_files file_error hash_error decode size_error after_files str_eq
rootless_refused = refl

validate_bundle-IsBundle_example : (validate_bundle small_bundle ≡ none) ↔ IsBundle small_bundle
validate_bundle-IsBundle_example = validate_bundle-IsBundle small_bundle

verify_blobs-FileStored_example :
    (verify_blobs platform (codes "live") (one_file (codes "a.md")).files_by_path ≡ none)
    ↔ All (FileStored platform (codes "live")) (one_file (codes "a.md")).files_by_path
verify_blobs-FileStored_example =
    verify_blobs-FileStored platform (codes "live") (one_file (codes "a.md")).files_by_path

abbrev windows : List Window
windows =
    record { name = codes "1m"; size = 60; limit = 10 }
    ∷ record { name = codes "1h"; size = 3600; limit = 30 }
    ∷ []

windows-HasSize : All HasSize windows
windows-HasSize = (omega arith, (omega arith, tt))

decide_verdict_example :
    ((decide windows (11 ∷ 12 ∷ []) 70).allowed ≡ not (exceeded windows (11 ∷ 12 ∷ [])))
    × (exceeded windows (11 ∷ 12 ∷ []) ≡ false
        → (decide windows (11 ∷ 12 ∷ []) 70).remaining
          ≡ least_left windows (11 ∷ 12 ∷ []) (first_limit windows))
    × (exceeded windows (11 ∷ 12 ∷ []) ≡ true
        → (decide windows (11 ∷ 12 ∷ []) 70).retry_after ≡ longest_wait windows (11 ∷ 12 ∷ []) 70 0)
decide_verdict_example = decide_verdict windows (11 ∷ 12 ∷ []) 70 windows-HasSize

refused_for_now :
    decide windows (11 ∷ 12 ∷ []) 70
    ≡ record { allowed = false; limit = 10; remaining = 0; retry_after = 50 }
unfolding decide
refused_for_now = refl

refused : (decide windows (11 ∷ 12 ∷ []) 70).allowed ≡ false
unfolding decide
refused = refl

retry_after-RollsOver_example :
    RollsOver windows (11 ∷ 12 ∷ []) 70 (decide windows (11 ∷ 12 ∷ []) 70).retry_after
retry_after-RollsOver_example =
    retry_after-RollsOver windows (11 ∷ 12 ∷ []) 70 windows-HasSize refused

backoff_for-exact_example : backoff_for (pos 60) (pos 1000) 3 ≡ pos (min (60 * 2 ^ 3) 1000)
backoff_for-exact_example = backoff_for-exact 60 1000 3 (omega arith) (omega arith) (omega arith)

abbrev tenth : ℕ → Option ℕ
tenth k = some 10

tens : generate_slug tenth ≡ some (codes "AAAAAAAA")
unfolding generate_slug generate_slug_from generate generate_from push letter is_reserved
tens = refl

abbrev local_file : BundleFile
local_file = record { path = codes "a.md"; hash = hash64; size = pos 3; content = codes "abc" }

abbrev local_bundle : Bundle
local_bundle = record {
  root_path = codes "a.md";
  project_root = [];
  files_by_path = (codes "a.md", local_file) ∷ [];
}

hash64_hex : decode hash64 ≢ none
unfolding decode
hash64_hex = λ e. cc e

local_bundle-IsLocalBundle : IsLocalBundle local_bundle
unfolding dto_files lists_path str_eq
local_bundle-IsLocalBundle = record {
  has_root = λ e. cc e;
  local_files = (
    record { hash_length = refl; hash_hex = hash64_hex; has_path = λ e. cc e; size_low = refl },
    tt,
  );
  lists_root = refl;
}

check_bundle_limits-validate_bundle_example :
    (check_bundle_limits local_bundle ≡ none) ↔ (validate_bundle (to_dto local_bundle) ≡ none)
check_bundle_limits-validate_bundle_example =
    check_bundle_limits-validate_bundle local_bundle local_bundle-IsLocalBundle

abbrev outage : CliError
outage = api_error (record { status = 503; code = [] })
