-- ===== src/Blobs/DeletePrefix.antt =====
-- internal/server/storage/delete.go: every object under a slug's prefix is removed, page by page. The
-- calls of the object store (ListObjectsV2, DeleteObjects) are parameters.
pub mod Keys
pub mod Laws
use mdfly.Common.{length, Str, ℕ, zero, suc, Bool, true, false, Option, none, some, List, [], ◌∷◌}
use mdfly.Jobs.History.{failure}
use mdfly.Manifest.Keys.{prefix_key}

-- A page of a listing: whether more follows, and the token that the next page is asked for with.
pub record Page : Type 0 where
  pub contents : List Str
  pub truncated : Bool
  pub next : Option Str

-- The call fails, or tells the keys that it failed on.
pub data DeleteAnswer : Type 0 where
  refused : DeleteAnswer
  answered : List Str → DeleteAnswer

pub data DeleteError : Type 0 where
  list_failed delete_refused : DeleteError
  -- how many of how many failed, and the first
  keys_failed : ℕ → ℕ → Str → DeleteError

-- How the loop ends; `running` stands for a loop that the fuel did not suffice for.
pub data Ended : Type 0 where
  running done : Ended
  stopped : DeleteError → Ended

unfoldable pub judge_delete : List Str → DeleteAnswer → Option DeleteError
judge_delete ids refused = some delete_refused
judge_delete ids (answered []) = none
judge_delete ids (answered (k ∷ ks)) = some (keys_failed (length (k ∷ ks)) (length ids) k)

module _ {Store : Type 0} (list_objects : Store → Str → Option Str → Option Page)
    (delete_call : Store → List Str → Store × DeleteAnswer) where
  unfoldable pub delete_objects : Store → List Str → Store × Option DeleteError
  unfolding judge_delete
  delete_objects st [] = (st, none)
  delete_objects st (k ∷ ks) =
      let (st', answer) = delete_call st (k ∷ ks) in (st', judge_delete (k ∷ ks) answer)

  -- `deletePrefix` from a token on.
  unfoldable pub delete_prefix_from : ℕ → Str → Option Str → Store → Store × Ended
  unfolding delete_objects
  delete_prefix_from zero prefix token st = (st, running)
  delete_prefix_from (suc fuel) prefix token st = elim (list_objects st prefix token) [
    | none ↦ (st, stopped list_failed)
    | some page ↦
        let (st', failure) = delete_objects st page.contents in
        elim failure [
          | some e ↦ (st', stopped e)
          | none ↦ elim page.truncated [
            | false ↦ (st', done)
            | true ↦ delete_prefix_from fuel prefix page.next st'
          ]
        ]
  ]

  -- `DeletePrefix`
  unfoldable pub delete_prefix : ℕ → Str → Store → Store × Ended
  unfolding prefix_key delete_prefix_from
  delete_prefix fuel slug st = delete_prefix_from fuel (prefix_key slug) none st
