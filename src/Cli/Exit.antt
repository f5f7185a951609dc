-- ===== src/Cli/Exit.antt =====
-- internal/cli/output/exit.go, and `isRetryable` of internal/cli/publish/retry.go: what an error makes
-- the process exit with, and whether the request is sent again.
use mdfly.Common.{
  leb, ◌==◌, if◌then◌else◌, Str, codes, str_eq, ℕ, ◌≡◌, ◌≢◌, Bool, true, false, ◌||◌, Option, none,
  some, arith,
}
use mdfly.Api.{
  code_idempotency_payload_mismatch, code_bad_bundle, code_invalid_edit_token, code_slug_taken,
  code_update_conflict, code_bundle_too_large, code_rate_limited,
}

pub record ApiError : Type 0 where
  pub status : ℕ
  pub code : Str

-- What `errors.As` and `errors.Is` find in an error, in the order of `ExitCode`.
pub data CliError : Type 0 where
  usage_error content_error bundle_limit_error : CliError
  api_error : ApiError → CliError
  transient_error file_error other_error : CliError

abbrev pub exit_ok : ℕ
exit_ok = 0

abbrev pub exit_unclassified : ℕ
exit_unclassified = 1

abbrev pub exit_usage : ℕ
exit_usage = 2

abbrev pub exit_auth : ℕ
exit_auth = 3

abbrev pub exit_conflict : ℕ
exit_conflict = 4

abbrev pub exit_quota : ℕ
exit_quota = 5

abbrev pub exit_server : ℕ
exit_server = 6

unfoldable pub exit_for_status : ℕ → ℕ
exit_for_status status =
    if status == 400 || status == 422
    then exit_usage
    else if status == 401 || status == 403
    then exit_auth
    else if status == 409
    then exit_conflict
    else if status == 413 || status == 429
    then exit_quota
    else if leb 500 status
    then exit_server
    else exit_unclassified

unfoldable pub exit_for_api : ApiError → ℕ
exit_for_api e =
    if str_eq e.code (codes code_bad_bundle)
      || str_eq e.code (codes code_idempotency_payload_mismatch)
    then exit_usage
    else if str_eq e.code (codes code_invalid_edit_token)
    then exit_auth
    else if str_eq e.code (codes code_slug_taken) || str_eq e.code (codes code_update_conflict)
    then exit_conflict
    else if str_eq e.code (codes code_bundle_too_large) || str_eq e.code (codes code_rate_limited)
    then exit_quota
    else exit_for_status e.status

-- `ExitCode`; `none` is a nil error.
unfoldable pub exit_code : Option CliError → ℕ
exit_code none = exit_ok
exit_code (some usage_error) = exit_usage
exit_code (some content_error) = exit_usage
exit_code (some bundle_limit_error) = exit_usage
exit_code (some (api_error e)) = exit_for_api e
exit_code (some transient_error) = exit_server
exit_code (some file_error) = exit_usage
exit_code (some other_error) = exit_unclassified

unfoldable pub is_retryable : CliError → Bool
is_retryable (api_error e) = leb 500 e.status
is_retryable transient_error = true
is_retryable _ = false

-- No error makes the command line exit with success, and it exits with the code of a server failure
-- only on an error for which `withRetry` sends the request again.
pub exit_server-is_retryable :
    (e : CliError)
    → (exit_code (some e) ≢ exit_ok) × (exit_code (some e) ≡ exit_server → is_retryable e ≡ true)
unfolding exit_code is_retryable exit_for_api exit_for_status
exit_server-is_retryable e = ground arith
