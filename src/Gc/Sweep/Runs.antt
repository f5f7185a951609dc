-- ===== src/Gc/Sweep/Runs.antt =====
-- A pass of the garbage collector as a run of steps on the database.
use mathlib.Core.Path.{subst}
use mdfly.Common.{Option-cases, ℕ, ◌≡◌, sym, ◌⊎◌, inl, inr, List, [], ◌∷◌, arith}
use mdfly.Documents.Steps.{Reach, here, next, stamps_row, expires_rows, abandons_rows}
use mdfly.Documents.Table.{Database}
use mdfly.Gc.Sweep.{
  Service, Environment, expire_step, abandon_step, default_batch_size, Pass, cutoff,
  delete_candidate, delete_candidates, delete_blobs, start, sweep, validate_config,
}
use mdfly.Platform.{Platform}
use mdfly.Documents.Sweep.{BlobGcCandidate, list_blob_gc_candidates}
use mdfly.Purge.Backoff.{batch_size}

module _ (pf : Platform) (env : Environment) (d : Database) where
  abbrev Run : Pass → Type 0
  Run p = Reach pf d p.db

  delete_candidate-Run :
      (now : ℕ) (c : BlobGcCandidate) (p : Pass) → Run p → Run (delete_candidate env now c p)
  unfolding delete_candidate
  delete_candidate-Run now c p r = ground (arith, next r (stamps_row c.id now))

  pub delete_candidates-Run :
      (now : ℕ) (cs : List BlobGcCandidate) (p : Pass)
      → Run p
      → Run (delete_candidates env now cs p)
  unfolding delete_candidates
  delete_candidates-Run now [] p r = r
  delete_candidates-Run now (c ∷ cs) p r =
      delete_candidates-Run now cs (delete_candidate env now c p) (delete_candidate-Run now c p r)

  expire_step-Run : (now limit : ℕ) (p : Pass) → Run p → Run (expire_step env now limit p)
  unfolding expire_step
  expire_step-Run now limit p r =
      ground (arith, next r (expires_rows env.locked env.clock limit now))

  abandon_step-Run :
      (s : Service) (now limit : ℕ) (p : Pass) → Run p → Run (abandon_step env s now limit p)
  unfolding abandon_step
  abandon_step-Run s now limit p r =
      ground (arith, next r (abandons_rows env.locked (cutoff env.clock s.abandon_grace) limit now))

-- The pass up to the deletion of blobs.
unfoldable pub marked : Environment → Service → ℕ → ℕ → Database → Pass
marked env sv now limit d = abandon_step env sv now limit (expire_step env now limit (start env d))

pub marked-Run :
    (pf : Platform) (env : Environment) (sv : Service) (now limit : ℕ) (d : Database)
    → Reach pf d (marked env sv now limit d).db
unfolding marked start
marked-Run pf env sv now limit d =
    abandon_step-Run pf env d sv now limit (expire_step env now limit (start env d))
      (expire_step-Run pf env d now limit (start env d) here)

delete_blobs-Run :
    (pf : Platform) (env : Environment) (d : Database) (sv : Service) (now limit : ℕ) (p : Pass)
    → Reach pf d p.db
    → Reach pf d (delete_blobs env sv now limit p).db
unfolding delete_blobs
delete_blobs-Run pf env d sv now limit p r =
    let cs = list_blob_gc_candidates (cutoff env.clock sv.blob_delete_grace) limit p.db in
    ground (arith, delete_candidates-Run pf env d now cs p r)

sweep-db :
    (env : Environment) (sv : Service) (now : ℕ) (d : Database)
    → ((sweep env sv now d).db ≡ d)
      ⊎ (sweep env sv now d
          ≡ delete_blobs env sv now
              (batch_size sv.batch_size default_batch_size)
              (marked env sv now (batch_size sv.batch_size default_batch_size) d))
unfolding sweep start marked
sweep-db env sv now d = elim (Option-cases (validate_config sv)) [
  | inl n ↦ inr (ground arith)
  | inr (e, h) ↦ inl (ground arith)
]

-- A pass of the garbage collector, whichever of its calls fail, is a run of the step relation.
pub sweep-Reach :
    (pf : Platform) (env : Environment) (sv : Service) (now : ℕ) (d : Database)
    → Reach pf d (sweep env sv now d).db
sweep-Reach pf env sv now d = elim (sweep-db env sv now d) [
  | inl e ↦ subst (Reach pf d) (sym e) here
  | inr e ↦
      let limit = batch_size sv.batch_size default_batch_size in
      subst (λ (p : Pass). Reach pf d p.db) (sym e)
        (delete_blobs-Run pf env d sv now limit (marked env sv now limit d)
          (marked-Run pf env sv now limit d))
]
