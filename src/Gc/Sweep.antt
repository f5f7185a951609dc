-- ===== src/Gc/Sweep.antt =====
-- gc.go: `Sweep`, `deleteBlobs` and the checks of the configuration. Which calls of the database
-- and of the object store get through is a parameter.
pub mod Runs
pub mod Laws
use mdfly.Common.{
  if◌then◌else◌, pos_part, ltb_ℤ, Str, ℤ, pos, ℕ, ◌+◌, ◌-◌, Bool, not, Option, none, some, List, [],
  ◌∷◌,
}
use mdfly.Documents.Table.{Document, Database}
use mdfly.Documents.Sweep.{
  mark_expired, mark_abandoned, BlobGcCandidate, list_blob_gc_candidates, set_blobs_deleted_at,
}
use mdfly.Purge.Backoff.{batch_size}

abbrev pub default_batch_size : ℕ
default_batch_size = 500

pub record Service : Type 0 where
  pub abandon_grace : ℤ
  pub blob_delete_grace : ℤ
  pub has_blobs : Bool
  pub batch_size : ℤ

pub data GcError : Type 0 where
  invalid_abandon_grace invalid_blob_delete_grace missing_blobs : GcError
  expire_failed abandon_failed list_failed : GcError
  delete_failed stamp_failed : Str → GcError

-- The time of the service, which the statements are given (`now` is the database's), which calls
-- succeed, and which rows other transactions have locked.
pub record Environment : Type 0 where
  pub clock : ℕ
  pub expires : Bool
  pub abandons : Bool
  pub lists : Bool
  pub deletes_prefix : Str → Bool
  pub stamps : ℕ → Bool
  pub locked : Document → Bool

pub record Result : Type 0 where
  pub expired : ℕ
  pub abandoned : ℕ
  pub blobs_deleted : ℕ

-- The state of a pass: the database, the prefixes under which objects of the store were, or may have
-- been, deleted (a deletion that fails may have removed some), and the errors.
pub record Pass : Type 0 where
  pub db : Database
  pub touched_prefixes : List Str
  pub result : Result
  pub errors : List GcError

unfoldable pub validate_config : Service → Option GcError
validate_config s =
    if not (ltb_ℤ (pos 0) s.abandon_grace)
    then some invalid_abandon_grace
    else if not (ltb_ℤ (pos 0) s.blob_delete_grace)
    then some invalid_blob_delete_grace
    else if not s.has_blobs
    then some missing_blobs
    else none

-- `now.Add(-grace)`, for a positive grace; a time before the epoch of the model is its epoch.
abbrev pub cutoff : ℕ → ℤ → ℕ
cutoff now grace = now - pos_part grace

module _ (env : Environment) where
  -- The body of the loop of `deleteBlobs`: the stamp follows the delete.
  unfoldable pub delete_candidate : ℕ → BlobGcCandidate → Pass → Pass
  delete_candidate now c p =
      if env.deletes_prefix c.slug
      then if env.stamps c.id
        then record p {
          db = set_blobs_deleted_at c.id now p.db;
          touched_prefixes = c.slug ∷ p.touched_prefixes;
          result = record (p.result) { blobs_deleted = p.result.blobs_deleted + 1 };
        }
        else record p {
          touched_prefixes = c.slug ∷ p.touched_prefixes;
          errors = stamp_failed c.slug ∷ p.errors;
        }
      else record p {
        touched_prefixes = c.slug ∷ p.touched_prefixes;
        errors = delete_failed c.slug ∷ p.errors;
      }

  unfoldable pub delete_candidates : ℕ → List BlobGcCandidate → Pass → Pass
  delete_candidates now [] p = p
  delete_candidates now (c ∷ cs) p = delete_candidates now cs (delete_candidate now c p)

  unfoldable pub delete_blobs : Service → ℕ → ℕ → Pass → Pass
  delete_blobs s now limit p =
      if env.lists
      then delete_candidates now
          (list_blob_gc_candidates (cutoff env.clock s.blob_delete_grace) limit p.db) p
      else record p { errors = list_failed ∷ p.errors }

  unfoldable pub expire_step : ℕ → ℕ → Pass → Pass
  expire_step now limit p =
      let moved = mark_expired env.locked env.clock limit now p.db in
      if env.expires
      then record p { db = moved.0; result = record (p.result) { expired = moved.1 } }
      else record p { errors = expire_failed ∷ p.errors }

  unfoldable pub abandon_step : Service → ℕ → ℕ → Pass → Pass
  abandon_step s now limit p =
      let moved = mark_abandoned env.locked (cutoff env.clock s.abandon_grace) limit now p.db in
      if env.abandons
      then record p { db = moved.0; result = record (p.result) { abandoned = moved.1 } }
      else record p { errors = abandon_failed ∷ p.errors }

  unfoldable pub start : Database → Pass
  start d = record {
    db = d;
    touched_prefixes = [];
    result = record { expired = 0; abandoned = 0; blobs_deleted = 0 };
    errors = [];
  }

  unfoldable pub sweep : Service → ℕ → Database → Pass
  sweep s now d = elim (validate_config s) [
    | some e ↦ record (start d) { errors = e ∷ [] }
    | none ↦
        let limit = batch_size s.batch_size default_batch_size in
        delete_blobs s now limit (abandon_step s now limit (expire_step now limit (start d)))
  ]
