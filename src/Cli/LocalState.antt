-- ===== src/Cli/LocalState.antt =====
-- internal/cli/localstate: the store of state.json and of the credentials (state.go, credentials.go,
-- atomic.go). A disk has the contents of the files of the state directory; a parameter says of each call
-- of the operating system whether it gets through; JSON is a parameter.
pub mod Ledger
pub mod Laws
pub mod Persist
use mdfly.Common.{if◌then◌else◌, Str, ℤ, ℕ, Bool, true, false, not, Option, none, some, []}
use mdfly.Common.Dict.{Dict, insert, erase, lookup}

pub data Source : Type 0 where
  source_file source_text : Source

pub record Record : Type 0 where
  pub slug : Str
  pub url : Str
  pub manifest_hash : Str
  pub tier : Str
  pub size : ℤ
  pub file_count : ℕ
  pub created_at : ℕ
  pub updated_at : ℕ
  pub source : Source
  pub path : Option Str
  pub has_token : Bool

-- json.MarshalIndent and json.Unmarshal of the two files; `none` is an error. A map that is absent or
-- null is decoded to `some none`.
pub record Codec : Type 0 where
  pub encode_state : Dict Record → Option Str
  pub decode_state : Str → Option (Option (Dict Record))
  pub encode_credentials : Dict Str → Option Str
  pub decode_credentials : Str → Option (Option (Dict Str))

-- The files state.json, state.json.bak and credentials; `none` where there is none.
pub record Disk : Type 0 where
  pub state : Option Str
  pub state_bak : Option Str
  pub credentials : Option Str

-- How `os.WriteFile` of the backup ends; one that fails may leave anything in its file.
pub data BackUp : Type 0 where
  backed_up : BackUp
  not_backed_up : Option Str → BackUp

-- The calls of `writeAtomic`, whether they get through.
pub record WriteCalls : Type 0 where
  pub create_temp : Bool
  pub chmod : Bool
  pub write : Bool
  pub sync : Bool
  pub close : Bool
  pub rename : Bool

pub record Calls : Type 0 where
  pub mkdir_all : Bool
  pub lock : Bool
  pub read_file : Bool
  pub back_up : BackUp
  pub writes : WriteCalls

pub data StoreError : Type 0 where
  mkdir_failed lock_failed read_failed decode_failed encode_failed write_failed : StoreError

pub data Answer (A : Type 0) : Type 0 where
  got : A → Answer A
  broke : StoreError → Answer A

-- `writeAtomic`: the file has its new content only when the last call, the rename, is done.
unfoldable pub write_atomic : WriteCalls → Option Str → Str → Option Str × Bool
write_atomic c old new =
    if not c.create_temp
    then (old, false)
    else if not c.chmod
    then (old, false)
    else if not c.write
    then (old, false)
    else if not c.sync
    then (old, false)
    else if not c.close
    then (old, false)
    else if not c.rename
    then (old, false)
    else (some new, true)

unfoldable pub recover_corrupt : BackUp → Str → Disk → Disk
recover_corrupt backed_up content d = record d { state_bak = some content }
recover_corrupt (not_backed_up left) content d = record d { state_bak = left }

-- What `writeState` and `mutateCredentials` answer.
unfoldable pub wrote_state : Disk → Option Str × Bool → Disk × Option StoreError
wrote_state d (state, true) = (record d { state = state }, none)
wrote_state d (state, false) = (record d { state = state }, some write_failed)

unfoldable pub wrote_credentials : Disk → Option Str × Bool → Disk × Option StoreError
wrote_credentials d (credentials, true) = (record d { credentials = credentials }, none)
wrote_credentials d (credentials, false) =
    (record d { credentials = credentials }, some write_failed)

unfoldable pub records_or_empty {ℓ} : {V : Type ℓ} → Option (Dict V) → Dict V
records_or_empty none = []
records_or_empty (some rs) = rs

module _ (codec : Codec) where
  -- What `readState` makes of a content that is decoded, and of a file that is read.
  unfoldable pub parsed_state :
      BackUp → Disk → Str → Option (Option (Dict Record)) → Disk × Answer (Dict Record)
  unfolding recover_corrupt records_or_empty
  parsed_state b d content none = (recover_corrupt b content d, got [])
  parsed_state b d content (some records) = (d, got (records_or_empty records))

  unfoldable pub opened_state : BackUp → Disk → Option Str → Disk × Answer (Dict Record)
  unfolding parsed_state
  opened_state b d none = (d, got [])
  opened_state b d (some content) = parsed_state b d content (codec.decode_state content)

  unfoldable pub read_state : Calls → Disk → Disk × Answer (Dict Record)
  unfolding opened_state
  read_state c d =
      if not c.read_file then (d, broke read_failed) else opened_state c.back_up d d.state

  unfoldable pub write_state : Calls → Dict Record → Disk → Disk × Option StoreError
  unfolding write_atomic wrote_state
  write_state c records d = elim (codec.encode_state records) [
    | none ↦ (d, some encode_failed)
    | some content ↦ wrote_state d (write_atomic c.writes d.state content)
  ]

  unfoldable pub write_read :
      Calls → (Dict Record → Dict Record) → Disk × Answer (Dict Record) → Disk × Option StoreError
  unfolding write_state
  write_read c fn (d, broke e) = (d, some e)
  write_read c fn (d, got records) = write_state c (fn records) d

  unfoldable pub mutate : Calls → (Dict Record → Dict Record) → Disk → Disk × Option StoreError
  unfolding write_read read_state
  mutate c fn d =
      if not c.mkdir_all
      then (d, some mkdir_failed)
      else if not c.lock
      then (d, some lock_failed)
      else write_read c fn (read_state c d)

  unfoldable pub upsert : Calls → Record → Disk → Disk × Option StoreError
  unfolding mutate insert
  upsert c rec = mutate c (λ records. insert rec.slug rec records)

  unfoldable pub prune : Calls → Str → Disk → Disk × Option StoreError
  unfolding mutate erase
  prune c slug = mutate c (λ records. erase slug records)

  unfoldable pub parsed_credentials : Option (Option (Dict Str)) → Answer (Dict Str)
  unfolding records_or_empty
  parsed_credentials none = broke decode_failed
  parsed_credentials (some tokens) = got (records_or_empty tokens)

  unfoldable pub opened_credentials : Option Str → Answer (Dict Str)
  unfolding parsed_credentials
  opened_credentials none = got []
  opened_credentials (some content) = parsed_credentials (codec.decode_credentials content)

  unfoldable pub read_credentials : Calls → Disk → Answer (Dict Str)
  unfolding opened_credentials
  read_credentials c d =
      if not c.read_file then broke read_failed else opened_credentials d.credentials

  unfoldable pub write_credentials :
      Calls → (Dict Str → Dict Str) → Disk → Answer (Dict Str) → Disk × Option StoreError
  unfolding write_atomic wrote_credentials
  write_credentials c fn d (broke e) = (d, some e)
  write_credentials c fn d (got tokens) = elim (codec.encode_credentials (fn tokens)) [
    | none ↦ (d, some encode_failed)
    | some content ↦ wrote_credentials d (write_atomic c.writes d.credentials content)
  ]

  unfoldable pub mutate_credentials :
      Calls → (Dict Str → Dict Str) → Disk → Disk × Option StoreError
  unfolding write_credentials read_credentials
  mutate_credentials c fn d =
      if not c.mkdir_all
      then (d, some mkdir_failed)
      else if not c.lock
      then (d, some lock_failed)
      else write_credentials c fn d (read_credentials c d)

  unfoldable pub save_token : Calls → Str → Str → Disk → Disk × Option StoreError
  unfolding mutate_credentials insert
  save_token c slug token = mutate_credentials c (λ tokens. insert slug token tokens)

  unfoldable pub delete_token : Calls → Str → Disk → Disk × Option StoreError
  unfolding mutate_credentials erase
  delete_token c slug = mutate_credentials c (λ tokens. erase slug tokens)

  unfoldable pub load_token : Calls → Str → Disk → Answer (Option Str)
  unfolding read_credentials lookup
  load_token c slug d = elim (read_credentials c d) [
    | broke e ↦ broke e
    | got tokens ↦ got (lookup slug tokens)
  ]
