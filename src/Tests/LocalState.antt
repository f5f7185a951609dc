-- ===== src/Tests/LocalState.antt =====
-- The local state at concrete files, and the theorems at them.
use mathlib.Core.Option.{some-injective}
use native.Mathlib.Decide.{ℕ_discrete}
use mdfly.Common.{
  if◌then◌else◌, Bool-cases, Str, codes, str_eq, ℤ, ◌≡◌, refl, sym, ap, subst, ◌⊎◌, inl, inr, true,
  false, Option, none, some, [], ◌∷◌,
}
use mdfly.Common.Dict.{Dict, lookup}
use mdfly.Cli.Limits.{Bundle}
use mdfly.Cli.Exit.{CliError, api_error}
use mdfly.Cli.Walk.{FileSystem}
use mdfly.Cli.LocalState.{
  Source, Record, Codec, Disk, Calls, backed_up, lock_failed, prune, delete_token,
}
use mdfly.Cli.LocalState.Laws.{
  ReadsBack, records_of, tokens_of, decoded, IsText, IsTextRecord, AllText,
}
use mdfly.Cli.LocalState.Ledger.{new_ledger}
use mdfly.Cli.LocalState.Persist.{
  Input, input_file, CommitResponse, published_record, persist_publish, prune_local, path_of,
}
use mdfly.Cli.LocalState.Persist.Laws.{Persisted, persist_publish-Persisted, IsTextInput}
use mdfly.Cli.LocalState.Persist.Unbacked.{prune_local_unbacks}
use mdfly.Cli.LocalState.Persist.Backed.{IsBacked, Change, Change-IsBacked}
use mdfly.Cli.Commands.Targets.{typed, resolve_update_target}
use mdfly.Cli.Commands.Targets.Laws.{IsOnly, IsAmong, IsFlag, resolve_update_target-IsNamed}
use mdfly.Cli.Commands.Delete.{Arguments, run_delete, pruned_slug}
use mdfly.Cli.Commands.Delete.Laws.{IsDeletionOf, run_delete-IsDeletion}
use mdfly.Common.Utf8.{valid}

Source-discrete : Discrete Source
Source-discrete = hlevel

ℤ-discrete : Discrete ℤ
ℤ-discrete = hlevel ℕ_discrete

Record-discrete : Discrete Record
Record-discrete = hlevel (ℕ_discrete, ℤ-discrete, Source-discrete)

State-discrete : Discrete (Dict Record)
State-discrete = hlevel (ℕ_discrete, Record-discrete)

-- A file is "0" for the empty map, and "1" for one map that is not.
abbrev zero_file : Str
zero_file = codes "0"

abbrev one_file : Str
one_file = codes "1"

encode_dec : {V : Type 0} {d known : Dict V} → Dec (d ≡ known) → Dec (d ≡ []) → Option Str
encode_dec (yes p) b = some one_file
encode_dec (no p) (yes q) = some zero_file
encode_dec (no p) (no q) = none

encode_as : {V : Type 0} → Discrete (Dict V) → Dict V → Dict V → Option Str
unfolding encode_dec
encode_as same known d = encode_dec (same d known) (same d [])

decode_as : {V : Type 0} → Dict V → Str → Option (Option (Dict V))
decode_as known s =
    if str_eq s one_file
    then some (some known)
    else if str_eq s zero_file
    then some (some [])
    else none

decode_as-encode_dec :
    {V : Type 0} (known d : Dict V) (s : Str) (a : Dec (d ≡ known)) (b : Dec (d ≡ []))
    → encode_dec a b ≡ some s
    → decode_as known s ≡ some (some d)
unfolding encode_dec decode_as str_eq
decode_as-encode_dec known d s (yes p) b h =
    subst (λ x. decode_as known x ≡ some (some d)) (some-injective one_file s h)
      (ap (λ x. some (some x)) (sym p))
decode_as-encode_dec known d s (no p) (yes q) h =
    subst (λ x. decode_as known x ≡ some (some d)) (some-injective zero_file s h)
      (ap (λ x. some (some x)) (sym q))
decode_as-encode_dec known d s (no p) (no q) h = cc

decode_as-encode_as :
    {V : Type 0} (same : Discrete (Dict V)) (known d : Dict V) (s : Str)
    → encode_as same known d ≡ some s
    → decode_as known s ≡ some (some d)
unfolding encode_as
decode_as-encode_as same known d s h = decode_as-encode_dec known d s (same d known) (same d []) h

-- A guide that was published, and an update of it.
abbrev pages : Bundle
pages = record { root_path = codes "g.md"; project_root = codes "/p"; files_by_path = [] }

abbrev source_a : Input
source_a = input_file (codes "g.md")

abbrev commit_a : CommitResponse
commit_a = record { url = codes "https://m/abc"; slug = codes "abc"; manifest_hash = codes "h1" }

abbrev home : Option Str
home = some (codes "/p")

abbrev record_a : Record
record_a = published_record 7 home source_a pages commit_a

abbrev tracked : Dict Record
tracked = (codes "abc", record_a) ∷ []

abbrev tokens : Dict Str
tokens = (codes "abc", codes "mftk_1") ∷ []

Tokens-discrete : Discrete (Dict Str)
Tokens-discrete = hlevel ℕ_discrete

abbrev codec : Codec
codec = record {
  encode_state = encode_as State-discrete tracked;
  decode_state = decode_as tracked;
  encode_credentials = encode_as Tokens-discrete tokens;
  decode_credentials = decode_as tokens;
}

decode_as-AllText :
    {V : Type 0} (T : V → Type 0) (known : Dict V)
    → AllText T known
    → (s : Str) (d : Dict V) → decode_as known s ≡ some (some d)
    → AllText T d
unfolding decode_as
decode_as-AllText T known a s d h = elim (Bool-cases (str_eq s one_file)) [
  | inl t ↦
      let same =
        some-injective known d (some-injective (some known) (some d) (rw (t, decode_as) at h)) in
      subst (AllText T) same a
  | inr f ↦ elim (Bool-cases (str_eq s zero_file)) [
    | inl t ↦
        let same =
          some-injective [] d (some-injective (some []) (some d) (rw (f, t, decode_as) at h)) in
        subst (AllText T) same tt
    | inr g ↦ let wrong = rw (f, g, decode_as) at h in cc
  ]
]

guide_is_text : IsTextInput home source_a commit_a
unfolding valid path_of
guide_is_text = (refl, (refl, (refl, refl)))

tracked_is_text : AllText IsTextRecord tracked
unfolding valid published_record path_of
tracked_is_text = ((refl, (refl, (refl, (refl, (refl, refl))))), tt)

tokens_are-IsText : AllText IsText tokens
unfolding valid
tokens_are-IsText = ((refl, refl), tt)

codec_back : ReadsBack codec
codec_back = record {
  state = λ records s a e.
      (records, (decode_as-encode_as State-discrete tracked records s e, λ k. refl));
  state_text = decode_as-AllText IsTextRecord tracked tracked_is_text;
  credentials = λ entries s a e.
      (entries, (decode_as-encode_as Tokens-discrete tokens entries s e, λ k. refl));
  credentials_text = decode_as-AllText IsText tokens tokens_are-IsText;
}

abbrev all_through : Calls
all_through = record {
  mkdir_all = true;
  lock = true;
  read_file = true;
  back_up = backed_up;
  writes = record {
    create_temp = true;
    chmod = true;
    write = true;
    sync = true;
    close = true;
    rename = true;
  };
}

abbrev locked_out : Calls
locked_out = record all_through { lock = false }

abbrev empty_disk : Disk
empty_disk = record { state = none; state_bak = none; credentials = none }

abbrev tracked_disk : Disk
tracked_disk = record { state = some one_file; state_bak = none; credentials = some one_file }

persist_publish_runs :
    persist_publish codec all_through all_through all_through 7 home source_a pages commit_a
      (codes "mftk_1")
      empty_disk
    ≡ (tracked_disk, none)
unfolding persist_publish encode_as Tokens-discrete ℕ_discrete State-discrete Record-discrete
    ℤ-discrete Source-discrete
persist_publish_runs = refl

persist_publish-Persisted_example : Persisted codec record_a (codes "mftk_1") empty_disk (
    persist_publish codec all_through all_through all_through 7 home source_a pages commit_a
      (codes "mftk_1")
      empty_disk)
unfolding valid
persist_publish-Persisted_example =
    persist_publish-Persisted codec codec_back all_through all_through all_through 7 home source_a
      pages commit_a (codes "mftk_1") empty_disk guide_is_text refl

empty_disk-IsBacked : IsBacked codec empty_disk
unfolding lookup decoded
empty_disk-IsBacked slug rec l = cc

abbrev published_disk : Disk
published_disk =
    (persist_publish codec all_through all_through all_through 7 home source_a pages commit_a
      (codes "mftk_1") empty_disk).0

Change-IsBacked_example : IsBacked codec published_disk
unfolding lookup decoded valid
Change-IsBacked_example =
    Change-IsBacked codec codec_back empty_disk published_disk empty_disk-IsBacked (
      Change.published all_through all_through all_through 7 home source_a pages commit_a
        (codes "mftk_1") guide_is_text refl refl published_disk refl)

prune_local_unbacks_example :
    (lookup
        (codes "abc")
        (records_of codec (prune_local codec locked_out all_through (codes "abc") tracked_disk))
      ≡ some record_a)
    × (lookup
          (codes "abc")
          (tokens_of codec (prune_local codec locked_out all_through (codes "abc") tracked_disk))
        ≡ none)
unfolding lookup decoded decode_as str_eq published_record prune delete_token encode_as
    Tokens-discrete
prune_local_unbacks_example =
    prune_local_unbacks codec codec_back locked_out all_through (codes "abc") tracked_disk record_a
      lock_failed refl refl refl refl

-- Nothing on the disk but the local state.
abbrev no_files : FileSystem
no_files = record {
  stat = λ p. none;
  read_file = λ p. none;
  read_dir = λ p. none;
  eval_symlinks = λ p. none;
}

abbrev two_tracked : Dict Record
two_tracked = (codes "abc", record_a) ∷ (codes "xyz", record record_a { slug = codes "xyz" }) ∷ []

resolve_update_target-IsNamed_example :
    IsFlag two_tracked home (codes "g.md") [] (codes "xyz")
    ⊎ (IsOnly two_tracked home (codes "g.md") (codes "xyz")
        ⊎ IsAmong two_tracked home (codes "g.md") (typed (codes " 2")) (codes "xyz"))
unfolding resolve_update_target new_ledger published_record
resolve_update_target-IsNamed_example =
    resolve_update_target-IsNamed two_tracked home (codes "g.md") [] (typed (codes " 2"))
      (codes "xyz") refl

-- The server answers that the document is gone.
abbrev gone_server : Str → Str → Option CliError
gone_server slug token = some (api_error (record { status = 410; code = codes "gone" }))

abbrev delete_guide : Arguments
delete_guide = record {
  arg = codes "g.md";
  slug_flag = [];
  yes_flag = false;
  stdin = typed (codes "Yes");
  cwd = home;
}

run_delete_gone :
    run_delete codec no_files gone_server all_through all_through all_through all_through
      delete_guide tracked_disk
    ≡ record {
      disk = record { state = some zero_file; state_bak = none; credentials = some zero_file };
      sent = some (codes "abc", codes "mftk_1");
      ended = pruned_slug (codes "abc");
    }
unfolding run_delete encode_as Tokens-discrete ℕ_discrete State-discrete Record-discrete ℤ-discrete
    Source-discrete decode_as published_record
run_delete_gone = refl

run_delete-IsDeletion_example :
    IsDeletionOf codec codec_back no_files gone_server all_through all_through all_through
      all_through delete_guide tracked_disk
      (run_delete codec no_files gone_server all_through all_through all_through all_through
        delete_guide tracked_disk)
run_delete-IsDeletion_example =
    run_delete-IsDeletion codec codec_back no_files gone_server all_through all_through all_through
      all_through delete_guide tracked_disk
