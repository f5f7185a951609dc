-- ===== src/Publish/Runs.antt =====
-- The requests of the services as steps on the database.
use mathlib.Core.Path.{subst}
use mdfly.Common.{Str, ℕ, ◌+◌, ◌≡◌, refl, sym, ◌⊎◌, inl, inr, arith}
use mdfly.Publish.Service.{Service, anon_expires_in}
use mdfly.Documents.Steps.{Reach, here, next, publishes}
use mdfly.Documents.Table.{
  not_found, gone, unavailable, found, failed, Document, Database, DbResult,
}
use mdfly.Publish.Commit.{
  commit, commit_done, commit_pending, commit_loaded, refuse, CommitLink, call, commit_publish,
}
use mdfly.Api.{CommitRequest}
use mdfly.Documents.Ops.{get_by_idempotency_key}
use mdfly.Documents.Tx.{TxLink}

module _ (sv : Service) where
  -- A request leaves the database as it read it, or takes it from where others had brought it one step
  -- on.
  abbrev pub Runs : Database → Database → Database → Type 0
  Runs read before after = (after ≡ read) ⊎ Reach sv.platform before after

  commit_done-db : (d : Database) (x : DbResult Document) → (commit_done sv d x).db ≡ d
  unfolding commit_done refuse
  commit_done-db d x = ground arith

  commit_pending-db :
      (link : TxLink) (meanwhile : Database → Database) (key : Str) (now : ℕ) (d : Database)
      (row : Document)
      → ((commit_pending sv link meanwhile key now d row).db ≡ d)
        ⊎ ((commit_pending sv link meanwhile key now d row).db
            ≡ (commit_publish link key (now + anon_expires_in) now (meanwhile d)).0)
  unfolding commit_pending refuse
  commit_pending-db link meanwhile key now d row =
      let w = commit_publish link key (now + anon_expires_in) now (meanwhile d) in
      ground (arith, commit_done-db w.0 w.1)

  commit_loaded-db :
      (link : TxLink) (meanwhile : Database → Database) (key : Str) (now : ℕ) (d : Database)
      (x : DbResult Document)
      → ((commit_loaded sv link meanwhile key now d x).db ≡ d)
        ⊎ ((commit_loaded sv link meanwhile key now d x).db
            ≡ (commit_publish link key (now + anon_expires_in) now (meanwhile d)).0)
  unfolding commit_loaded refuse
  commit_loaded-db link meanwhile key now d (failed not_found) = inl refl
  commit_loaded-db link meanwhile key now d (failed gone) = inl refl
  commit_loaded-db link meanwhile key now d (failed unavailable) = inl refl
  commit_loaded-db link meanwhile key now d (found row) =
      ground (arith, commit_pending-db link meanwhile key now d row)

  commit-db :
      (link : CommitLink) (meanwhile : Database → Database) (req : CommitRequest) (now : ℕ)
      (d : Database)
      → ((commit sv link meanwhile req now d).db ≡ d)
        ⊎ ((commit sv link meanwhile req now d).db
            ≡ (commit_publish link.tx req.idempotency_key
                (now + anon_expires_in)
                now
                (meanwhile d)).0)
  unfolding commit refuse
  commit-db link meanwhile req now d =
      let key = req.idempotency_key in
      ground (
        arith,
        commit_loaded-db link.tx meanwhile key now d
            (call link.loads (get_by_idempotency_key key d)),
      )

  -- Whatever it answers, a commit leaves the database as it was when it read it, or as a run of the
  -- step relation leaves it from where other transactions had brought it.
  pub commit-Runs :
      (link : CommitLink) (meanwhile : Database → Database) (req : CommitRequest) (now : ℕ)
      (d : Database)
      → Runs d (meanwhile d) (commit sv link meanwhile req now d).db
  unfolding commit_publish
  commit-Runs link meanwhile req now d = elim (commit-db link meanwhile req now d) [
    | inl e ↦ inl e
    | inr e ↦ inr (
        subst (Reach sv.platform (meanwhile d)) (sym e)
          (next here (publishes link.tx req.idempotency_key (now + anon_expires_in) now)))
  ]
