-- ===== src/Cli/LocalState/Persist.antt =====
-- What a publish, an update and a delete do to the local state: internal/cli/publish (`persistPublish`,
-- `persistUpdate`) and internal/cli/cmd (`pruneLocal`).
pub mod Laws
pub mod Backed
pub mod Unbacked
use mdfly.Common.{
  if◌then◌else◌, length, Str, codes, is_empty, pos, ℕ, true, not, Option, none, some, [],
}
use mdfly.Common.Dict.{Dict, lookup}
use mdfly.Cli.Limits.{Bundle, total_bytes}
use mdfly.Cli.LocalState.{
  Source, source_file, source_text, Record, Codec, Disk, Calls, StoreError, upsert, prune,
  save_token, delete_token, Answer, got, broke,
}
use mdfly.Cli.LocalState.Ledger.{Ledger, get, load}
use mdfly.Cli.Walk.Crawl.{abs}
use mdfly.Common.Paths.{is_abs}

-- `input.Source`: a file by its path, or a text.
pub data Input : Type 0 where
  input_file : Str → Input
  input_text : Str → Input

pub record CommitResponse : Type 0 where
  pub url : Str
  pub slug : Str
  pub manifest_hash : Str

abbrev pub tier_anon : Str
tier_anon = codes "anon"

-- `filepath.Abs`; `none` where the working directory is asked for and not known.
unfoldable pub abs_path : Option Str → Str → Option Str
unfolding abs is_abs
abs_path cwd path =
    if is_abs path
    then some (abs [] path)
    else elim cwd [ none ↦ none | some here ↦ some (abs here path) ]

unfoldable pub source_of : Input → Source
source_of (input_file path) = source_file
source_of (input_text content) = source_text

unfoldable pub path_of : Option Str → Input → Option Str
unfolding abs_path
path_of cwd (input_file path) = abs_path cwd path
path_of cwd (input_text content) = none

-- The record of a publish at `now`.
unfoldable pub published_record : ℕ → Option Str → Input → Bundle → CommitResponse → Record
unfolding total_bytes source_of path_of
published_record now cwd src bundle commit = record {
  slug = commit.slug;
  url = commit.url;
  manifest_hash = commit.manifest_hash;
  tier = tier_anon;
  size = total_bytes (pos 0) bundle.files_by_path;
  file_count = length bundle.files_by_path;
  created_at = now;
  updated_at = now;
  source = source_of src;
  path = path_of cwd src;
  has_token = true;
}

-- The record that an update starts from: the tracked one, or a new one.
unfoldable pub base_record : ℕ → Str → Str → Option Record → Record
unfolding is_empty
base_record now slug token (some rec) = rec
base_record now slug token none = record {
  slug = slug;
  url = [];
  manifest_hash = [];
  tier = tier_anon;
  size = pos 0;
  file_count = 0;
  created_at = now;
  updated_at = now;
  source = source_text;
  path = none;
  has_token = not (is_empty token);
}

unfoldable pub updated_record : ℕ → Option Str → Input → Bundle → CommitResponse → Record → Record
unfolding total_bytes source_of path_of
updated_record now cwd src bundle commit rec = record rec {
  url = commit.url;
  manifest_hash = commit.manifest_hash;
  size = total_bytes (pos 0) bundle.files_by_path;
  file_count = length bundle.files_by_path;
  updated_at = now;
  source = source_of src;
  path = path_of cwd src;
}

module _ (codec : Codec) where
  -- The token is taken back where the record was not written.
  unfoldable pub roll_back : Calls → Str → Disk × Option StoreError → Disk × Option StoreError
  unfolding delete_token
  roll_back c slug (d, none) = (d, none)
  roll_back c slug (d, some e) = ((delete_token codec c slug d).0, some e)

  -- Behind the saving of the token.
  unfoldable pub record_publish :
      Calls → Calls → Record → Disk × Option StoreError → Disk × Option StoreError
  unfolding upsert roll_back
  record_publish at_record at_rollback rec (d, some e) = (d, some e)
  record_publish at_record at_rollback rec (d, none) =
      roll_back at_rollback rec.slug (upsert codec at_record rec d)

  -- `persistPublish`
  unfoldable pub persist_publish :
      Calls
      → Calls
      → Calls
      → ℕ
      → Option Str
      → Input
      → Bundle
      → CommitResponse
      → Str
      → Disk
      → Disk × Option StoreError
  unfolding record_publish save_token published_record
  persist_publish at_token at_record at_rollback now cwd src bundle commit token d =
      record_publish at_record at_rollback (published_record now cwd src bundle commit)
        (save_token codec at_token commit.slug token d)

  unfoldable pub update_ledger :
      Calls
      → ℕ
      → Option Str
      → Input
      → Str
      → Bundle
      → CommitResponse
      → Disk × Answer Ledger
      → Disk × Option StoreError
  unfolding upsert get base_record updated_record
  update_ledger c now cwd src token bundle commit (d, broke e) = (d, some e)
  update_ledger c now cwd src token bundle commit (d, got ledger) =
      let rec = base_record now commit.slug token (get ledger commit.slug) in
      upsert codec c (updated_record now cwd src bundle commit rec) d

  -- `persistUpdate`
  unfoldable pub persist_update :
      Calls
      → Calls
      → ℕ
      → Option Str
      → Input
      → Str
      → Bundle
      → CommitResponse
      → Disk
      → Disk × Option StoreError
  unfolding update_ledger load
  persist_update at_load at_record now cwd src token bundle commit d =
      update_ledger at_record now cwd src token bundle commit (load codec at_load d)

  -- `pruneLocal`: its failures are only logged.
  unfoldable pub prune_local : Calls → Calls → Str → Disk → Disk
  unfolding prune delete_token
  prune_local at_record at_token slug d =
      (delete_token codec at_token slug (prune codec at_record slug d).0).0
