-- ===== src/Cli/Commands/Delete.antt =====
-- delete.go and remove.go, `DeleteDocument` of internal/cli/publish/delete.go, and what an update that
-- fails does to the local state (`handleUpdateError`).
pub mod Laws
use mdfly.Common.{
  ltb, leb, ◌==◌, if◌then◌else◌, length, Str, codes, str_eq, to_lower, trim, is_space, ℕ, Bool,
  true, false, ◌&&◌, ◌||◌, Option, none, some, List, [], ◌∷◌,
}
use mdfly.Cli.Exit.{ApiError, CliError, usage_error, api_error, transient_error, other_error}
use mdfly.Cli.Retry.{
  Attempt, succeeded, raised, Outcome, value, not_retried, after_attempts, context_done, with_retry,
}
use mdfly.Cli.LocalState.{Record, Codec, Disk, Calls, Answer, got, broke, load_token}
use mdfly.Cli.LocalState.Ledger.{Ledger, get, load, all_records}
use mdfly.Cli.LocalState.Persist.{prune_local}
use mdfly.Cli.Walk.{FileSystem}
use mdfly.Cli.Commands.Targets.{
  Target, target, misused, abs_failed, Stdin, no_terminal, typed, resolve_local_slug,
  resolve_delete_target,
}

-- An HTTP exchange: no response, a status with a body that could not be read, or one with the code of
-- its error envelope, empty where there is none.
pub data Reply : Type 0 where
  no_response : Reply
  unread : ℕ → Reply
  replied : ℕ → Str → Reply

abbrev pub is_success : ℕ → Bool
is_success status = leb 200 status && ltb status 300

-- `doDelete`
unfoldable pub do_delete : Reply → Attempt (Unit {0})
do_delete no_response = raised transient_error
do_delete (unread status) = if is_success status then succeeded tt else raised transient_error
do_delete (replied status code) =
    if is_success status
    then succeeded tt
    else raised (api_error (record { status = status; code = code }))

-- The error of an outcome; those that are wrapped are found by `errors.As`.
unfoldable pub error_of : Outcome (Unit {0}) → Option CliError
error_of (value _) = none
error_of (not_retried e) = some e
error_of (after_attempts e) = some e
error_of context_done = some other_error

-- `DeleteDocument`, given what the n-th sending is replied, and whether the n-th wait is cut short.
unfoldable pub delete_document : (ℕ → Reply) → (ℕ → Bool) → Option CliError
unfolding do_delete error_of with_retry
delete_document reply ends = error_of (with_retry (λ n. do_delete (reply n)) ends).0

-- `isAlreadyGone`
unfoldable pub is_already_gone : CliError → Bool
is_already_gone (api_error e) = e.status == 404 || e.status == 410
is_already_gone _ = false

-- `readYes`
unfoldable pub read_yes : Str → Bool
unfolding trim to_lower str_eq
read_yes line =
    let answer = to_lower (trim is_space line) in
    str_eq answer (codes "y") || str_eq answer (codes "yes")

-- `confirmDelete` and `confirmRemoveAll`; `none` is the usage error.
unfoldable pub confirm : Bool → Stdin → Option Bool
unfolding read_yes
confirm true stdin = some true
confirm false no_terminal = none
confirm false (typed line) = some (read_yes line)

pub data Ended : Type 0 where
  failed_with : CliError → Ended
  aborted : Ended
  pruned_slug : Str → Ended
  pruned_all : ℕ → Ended

-- The local state behind a command, the slug and the token that the server was sent, and the end.
pub record Run : Type 0 where
  pub disk : Disk
  pub sent : Option (Str × Str)
  pub ended : Ended

abbrev stop : Disk → Ended → Run
stop d e = record { disk = d; sent = none; ended = e }

abbrev text_or_empty : Option Str → Str
text_or_empty none = []
text_or_empty (some s) = s

-- The arguments of a command, and what it reads.
pub record Arguments : Type 0 where
  pub arg : Str
  pub slug_flag : Str
  pub yes_flag : Bool
  pub stdin : Stdin
  pub cwd : Option Str

module _ (codec : Codec) (fs : FileSystem) (server : Str → Str → Option CliError)
    (at_load at_token at_prune at_forget : Calls) (a : Arguments) where
  unfoldable pub delete_answered : Disk → Str → Str → Option CliError → Run
  unfolding is_already_gone prune_local
  delete_answered d slug token none = record {
    disk = prune_local codec at_prune at_forget slug d;
    sent = some (slug, token);
    ended = pruned_slug slug;
  }
  delete_answered d slug token (some e) =
      if is_already_gone e
      then record {
        disk = prune_local codec at_prune at_forget slug d;
        sent = some (slug, token);
        ended = pruned_slug slug;
      }
      else record { disk = d; sent = some (slug, token); ended = failed_with e }

  unfoldable pub delete_confirmed : Disk → Str → Option Bool → Answer (Option Str) → Run
  unfolding delete_answered
  delete_confirmed d slug none token = stop d (failed_with usage_error)
  delete_confirmed d slug (some false) token = stop d aborted
  delete_confirmed d slug (some true) (broke e) = stop d (failed_with other_error)
  delete_confirmed d slug (some true) (got token) =
      delete_answered d slug (text_or_empty token) (server slug (text_or_empty token))

  unfoldable pub delete_target : Disk → Target → Run
  unfolding delete_confirmed confirm load_token
  delete_target d (misused u) = stop d (failed_with usage_error)
  delete_target d abs_failed = stop d (failed_with other_error)
  delete_target d (target slug) =
      delete_confirmed d slug (confirm a.yes_flag a.stdin) (load_token codec at_token slug d)

  unfoldable pub delete_loaded : Disk × Answer Ledger → Run
  unfolding delete_target resolve_delete_target
  delete_loaded (d, broke e) = stop d (failed_with other_error)
  delete_loaded (d, got ledger) =
      delete_target d (resolve_delete_target fs a.cwd ledger a.arg a.slug_flag)

  -- `runDelete`
  unfoldable pub run_delete : Disk → Run
  unfolding delete_loaded load
  run_delete d = delete_loaded (load codec at_load d)

-- The calls of a removal may differ from slug to slug.
module _ (codec : Codec) (at_load : Calls) (at_prune at_forget : Str → Calls) (a : Arguments) where
  unfoldable pub remove_target : Disk → Ledger → Target → Run
  unfolding get prune_local
  remove_target d ledger (misused u) = stop d (failed_with usage_error)
  remove_target d ledger abs_failed = stop d (failed_with other_error)
  remove_target d ledger (target slug) = elim (get ledger slug) [
    | none ↦ stop d (failed_with usage_error)
    | some _ ↦ stop (prune_local codec (at_prune slug) (at_forget slug) slug d) (pruned_slug slug)
  ]

  unfoldable pub remove_loaded : Disk × Answer Ledger → Run
  unfolding remove_target resolve_local_slug
  remove_loaded (d, broke e) = stop d (failed_with other_error)
  remove_loaded (d, got ledger) =
      remove_target d ledger (resolve_local_slug a.cwd ledger a.arg a.slug_flag)

  -- `runRemove`
  unfoldable pub run_remove : Disk → Run
  unfolding remove_loaded load
  run_remove d = remove_loaded (load codec at_load d)

  unfoldable pub prune_each : List Record → Disk → Disk
  unfolding prune_local
  prune_each [] d = d
  prune_each (rec ∷ records) d =
      prune_each records (prune_local codec (at_prune rec.slug) (at_forget rec.slug) rec.slug d)

  unfoldable pub remove_records : Disk → List Record → Option Bool → Run
  unfolding prune_each
  remove_records d records none = stop d (failed_with usage_error)
  remove_records d records (some false) = stop d aborted
  remove_records d records (some true) = stop (prune_each records d) (pruned_all (length records))

  unfoldable pub remove_all_loaded : Disk × Answer Ledger → Run
  unfolding remove_records all_records confirm
  remove_all_loaded (d, broke e) = stop d (failed_with other_error)
  remove_all_loaded (d, got ledger) =
      remove_records d (all_records ledger) (confirm a.yes_flag a.stdin)

  -- `runRemoveAll`
  unfoldable pub run_remove_all : Disk → Run
  unfolding remove_all_loaded load
  run_remove_all d = remove_all_loaded (load codec at_load d)

  -- `handleUpdateError`
  unfoldable pub handle_update_error : Str → CliError → Disk → Disk
  unfolding is_already_gone prune_local
  handle_update_error slug e d =
      if is_already_gone e then prune_local codec (at_prune slug) (at_forget slug) slug d else d
