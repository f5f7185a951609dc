-- ===== src/Cli/Commands/Targets.antt =====
-- resolve.go, delete.go and update.go: the slug that the arguments of a command name.
pub mod Laws
use mdfly.Common.{
  if◌then◌else◌, length, Str, is_empty, trim, is_space, ℤ, pos, negsuc, ℕ, zero, suc, Bool, true,
  false, not, Option, none, some, List, [], ◌∷◌,
}
use mdfly.Common.Decimal.{atoi}
use mdfly.Cli.LocalState.Ledger.{Ledger, get, slugs_for_path}
use mdfly.Cli.LocalState.Persist.{abs_path}
use mdfly.Cli.Walk.{FileSystem, Mode, regular, directory, irregular}

-- The usage errors, with what they tell.
pub data Usage : Type 0 where
  no_argument not_tracked needs_yes invalid_selection flags_conflict : Usage
  ambiguous : ℕ → Usage

pub data Target : Type 0 where
  target : Str → Target
  misused : Usage → Target
  abs_failed : Target

-- One slug is the target; of none, or of several, it is given what becomes.
unfoldable pub only : Target → Target → List Str → Target
only on_none on_many [] = on_none
only on_none on_many (slug ∷ []) = target slug
only on_none on_many (_ ∷ _ ∷ _) = on_many

unfoldable pub too_many : List Str → Target
too_many slugs = misused (ambiguous (length slugs))

unfoldable pub by_path : Option Str → Ledger → Str → (List Str → Target) → Target → Target
unfolding abs_path slugs_for_path only
by_path cwd ledger arg on_many on_none = elim (abs_path cwd arg) [
  | none ↦ abs_failed
  | some path ↦ let slugs = slugs_for_path ledger path in only on_none (on_many slugs) slugs
]

-- What `resolveLocalSlug` and `resolveDeleteTarget` begin with.
unfoldable pub tracked_first : Ledger → Str → Str → Target → Target
unfolding is_empty get
tracked_first ledger arg slug_flag by_file =
    if not (is_empty slug_flag)
    then target slug_flag
    else if is_empty arg
    then misused no_argument
    else elim (get ledger arg) [ some _ ↦ target arg | none ↦ by_file ]

-- `resolveLocalSlug`
unfoldable pub resolve_local_slug : Option Str → Ledger → Str → Str → Target
unfolding tracked_first by_path too_many
resolve_local_slug cwd ledger arg slug_flag =
    tracked_first ledger arg slug_flag (by_path cwd ledger arg too_many (misused not_tracked))

-- `fileExists`, of a path as the file system takes it.
unfoldable pub file_exists : FileSystem → Str → Bool
file_exists fs path = elim (fs.stat path) [
  | none ↦ false
  | some directory ↦ false
  | some regular ↦ true
  | some irregular ↦ true
]

-- `resolveDeleteTarget`
unfoldable pub resolve_delete_target : FileSystem → Option Str → Ledger → Str → Str → Target
unfolding tracked_first by_path too_many file_exists
resolve_delete_target fs cwd ledger arg slug_flag =
    let recovery = if file_exists fs arg then misused not_tracked else target arg in
    tracked_first ledger arg slug_flag (by_path cwd ledger arg too_many recovery)

-- The n-th of the slugs, counted from 1.
unfoldable pub chosen : List Str → ℕ → Target
chosen [] n = misused invalid_selection
chosen (slug ∷ slugs) zero = misused invalid_selection
chosen (slug ∷ slugs) (suc zero) = target slug
chosen (slug ∷ slugs) (suc (suc n)) = chosen slugs (suc n)

-- The number that was typed.
unfoldable pub selected : List Str → Option ℤ → Target
unfolding chosen
selected slugs none = misused invalid_selection
selected slugs (some (pos n)) = chosen slugs n
selected slugs (some (negsuc n)) = misused invalid_selection

-- What the command reads from: nothing interactive, or a terminal with the line that is typed.
pub data Stdin : Type 0 where
  no_terminal : Stdin
  typed : Str → Stdin

-- `pickSlug`
unfoldable pub pick_slug : Stdin → List Str → Target
unfolding too_many selected atoi trim
pick_slug no_terminal slugs = too_many slugs
pick_slug (typed line) slugs = selected slugs (atoi (trim is_space line))

-- `resolveUpdateTarget`
unfoldable pub resolve_update_target : Stdin → Option Str → Ledger → Str → Str → Target
unfolding is_empty by_path pick_slug
resolve_update_target stdin cwd ledger file_arg slug_flag =
    let by_file = by_path cwd ledger file_arg (pick_slug stdin) (misused not_tracked) in
    if not (is_empty slug_flag)
    then target slug_flag
    else if is_empty file_arg
    then misused no_argument
    else by_file

-- `parentHash`
unfoldable pub parent_hash : Ledger → Str → Bool → Str
unfolding get
parent_hash ledger slug force =
    if force then [] else elim (get ledger slug) [ none ↦ [] | some rec ↦ rec.manifest_hash ]
