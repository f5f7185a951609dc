-- ===== src/Publish/UpdateCommit/Accepted.antt =====
-- What an accepted request of `UpdateCommit` stands for, from the bundle to the row.
use mdfly.Common.{Str, ℕ, ◌≡◌, none}
use mdfly.Publish.Service.{Service}
use mdfly.Publish.Update
use mdfly.Publish.UpdateCommit.Laws.{Landed}
use mdfly.Httpx.{ok}
use mdfly.Documents.Table.{found, Document, Database}
use mdfly.Api.{UpdateCommitRequest}
use mdfly.Documents.Ops.{get_by_slug}
use mdfly.Publish.Update.{
  manifest_from_bundle, manifest_hash_of, verify_edit_token, disp_apply, Disposition, disp_applied,
  disp_conflict, conflict_err,
}
use mdfly.Manifest.Build.{Manifest}

module _ (sv : Service) where
  -- The bundle's manifest has the hash that was answered, the token opens the live row of the target,
  -- and the manifest is live under the row's slug or was written over the row that the guard picked.
  abbrev Accepted : UpdateCommitRequest → Str → ℕ → Database → Database → Database → Str → Type 0
  Accepted req token now d before after hash =
      (m : Manifest) × (doc : Document) × (manifest_from_bundle req.bundle ≡ ok m)
      × (manifest_hash_of sv m ≡ ok hash)
      × (get_by_slug req.target_slug d ≡ found doc)
      × (Update.verify_edit_token sv doc token ≡ none)
      × Landed sv doc.slug req.parent_manifest_hash m hash now before after
