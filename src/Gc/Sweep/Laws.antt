-- ===== src/Gc/Sweep/Laws.antt =====
-- The garbage collector deletes no blob of a live document.
use mdfly.Common.{
  Bool-cases, Option-cases, find, any, All, Str, str_eq, str_eq_iff, ℕ, ◌≡◌, sym, ap, ◌∙◌, ◌⊎◌, inl,
  inr, true, false, List, [], ◌∷◌, map, arith,
}
use mathlib.Core.Option.{some-injective}
use mdfly.Documents.Table.{is_published, has_slug}
use mdfly.Documents.Steps.Reachable.{Reach-IsTable, Reach-KeepsRows}
use mdfly.Documents.Steps.{here}
use mdfly.Documents.Table.{found, is_published, Document, Database}
use mdfly.Gc.Sweep.{
  Service, Environment, expire_step, abandon_step, default_batch_size, Pass, cutoff,
  delete_candidate, delete_candidates, delete_blobs, start, sweep, validate_config,
}
use mdfly.Platform.{Platform}
use mdfly.Documents.Sweep.{blob_gc_due, BlobGcCandidate, list_blob_gc_candidates}
use mdfly.Documents.Ops.{get_by_slug}
use mdfly.Documents.Selection.{Slugged, candidates-Slugged}
use mdfly.Documents.Rows.{RowStep, KeepsRows}
use mdfly.Documents.Ops.Laws.{get_by_slug-found}
use mdfly.Documents.Invariant.{IsTable}
use mdfly.Purge.Backoff.{batch_size}
use mdfly.Gc.Sweep.Runs.{delete_candidates-Run, marked, marked-Run}

module _ (env : Environment) where
  -- A slug that no candidate has is not among the prefixes deleted.
  delete_candidate-spares :
      (now : ℕ) (c : BlobGcCandidate) (p : Pass) (s : Str)
      → str_eq s c.slug ≡ false
      → any (str_eq s) p.touched_prefixes ≡ false
      → any (str_eq s) (delete_candidate env now c p).touched_prefixes ≡ false
  unfolding delete_candidate
  delete_candidate-spares now c p s h k = ground arith

  delete_candidates-spares :
      (now : ℕ) (cs : List BlobGcCandidate) (p : Pass) (s : Str)
      → All (λ c. str_eq s c.slug ≡ false) cs
      → any (str_eq s) p.touched_prefixes ≡ false
      → any (str_eq s) (delete_candidates env now cs p).touched_prefixes ≡ false
  unfolding delete_candidates
  delete_candidates-spares now [] p s h k = k
  delete_candidates-spares now (c ∷ cs) p s h k =
      delete_candidates-spares now cs (delete_candidate env now c p) s h.1
        (delete_candidate-spares now c p s h.0 k)

All-of_map :
    {A B : Type 0} (P : B → Type 0) (f : A → B) {Q : A → Type 0}
    → ((a : A) → Q a → P (f a))
    → (xs : List A) → All Q xs
    → All P (map f xs)
All-of_map P f h [] a = tt
All-of_map P f h (x ∷ xs) a = (h x a.0, All-of_map P f h xs a.1)

due_not_live :
    (graced : ℕ) (r t : Document)
    → blob_gc_due graced r ≡ true
    → RowStep r t
    → is_published t.status ≡ false
due_not_live graced r t h s = ground (arith, s.status_leads)

-- A row that is due for the collector is not, nor will be, the live row of a slug.
due_elsewhere :
    (graced : ℕ) (d d' : Database) (s : Str) (r : Document) {live : Document}
    → KeepsRows d.documents d'.documents
    → get_by_slug s d' ≡ found live
    → Slugged d.documents r
    → blob_gc_due graced r ≡ true
    → str_eq s r.slug ≡ false
due_elsewhere graced d d' s r {live} keeps l at h = elim (Bool-cases (str_eq s r.slug)) [
  | inr f ↦ f
  | inl t ↦
      let (later, found_later, step) = keeps r.slug r at in
      let (found_live, same, status) = get_by_slug-found s d' l in
      let same_slug = (str_eq_iff s r.slug).0 t in
      let same_row =
        some-injective later live (
          sym found_later
          ∙ ap (λ x. find (has_slug x) d'.documents) (sym same_slug)
          ∙ found_live) in
      let dead = due_not_live graced r later h step in
      ground (arith, ap (λ x. x.status) same_row, status, dead)
]

candidates_elsewhere :
    (graced limit : ℕ) (d d' : Database) (s : Str) {live : Document}
    → IsTable d
    → KeepsRows d.documents d'.documents
    → get_by_slug s d' ≡ found live
    → All (λ c. str_eq s c.slug ≡ false) (list_blob_gc_candidates graced limit d)
unfolding list_blob_gc_candidates
candidates_elsewhere graced limit d d' s t keeps l =
    All-of_map (λ (c : BlobGcCandidate). str_eq s c.slug ≡ false) _
      (λ r h. due_elsewhere graced d d' s r keeps l h.0 h.1) _
      (candidates-Slugged (blob_gc_due graced) (λ r. r.updated_at) limit d.documents t.unique_slugs)

delete_blobs-cases :
    (env : Environment) (sv : Service) (now limit : ℕ) (p : Pass)
    → ((delete_blobs env sv now limit p).touched_prefixes ≡ p.touched_prefixes)
      ⊎ (delete_blobs env sv now limit p
          ≡ delete_candidates env now
              (list_blob_gc_candidates (cutoff env.clock sv.blob_delete_grace) limit p.db)
              p)
unfolding delete_blobs
delete_blobs-cases env sv now limit p = elim (Bool-cases env.lists) [
  | inl t ↦ inr (ground arith)
  | inr f ↦ inl (ground arith)
]

delete_blobs_spares :
    (pf : Platform) (env : Environment) (sv : Service) (now limit : ℕ) (p : Pass) (s : Str)
    {live : Document}
    → IsTable p.db
    → get_by_slug s (delete_blobs env sv now limit p).db ≡ found live
    → any (str_eq s) p.touched_prefixes ≡ false
    → any (str_eq s) (delete_blobs env sv now limit p).touched_prefixes ≡ false
delete_blobs_spares pf env sv now limit p s {live} t l h =
    elim (delete_blobs-cases env sv now limit p) [
      | inl e ↦ rw e h
      | inr e ↦
          let graced = cutoff env.clock sv.blob_delete_grace in
          let cs = list_blob_gc_candidates graced limit p.db in
          let run = delete_candidates-Run pf env p.db now cs p here in
          rw e (
            delete_candidates-spares env now cs p s
              (candidates_elsewhere graced limit p.db (delete_candidates env now cs p).db s t
                (Reach-KeepsRows pf t run) (rw e at l))
              h)
    ]

expire_step-prefixes :
    (env : Environment) (now limit : ℕ) (p : Pass)
    → (expire_step env now limit p).touched_prefixes ≡ p.touched_prefixes
unfolding expire_step
expire_step-prefixes env now limit p = ground arith

abandon_step-prefixes :
    (env : Environment) (sv : Service) (now limit : ℕ) (p : Pass)
    → (abandon_step env sv now limit p).touched_prefixes ≡ p.touched_prefixes
unfolding abandon_step
abandon_step-prefixes env sv now limit p = ground arith

marked-prefixes :
    (env : Environment) (sv : Service) (now limit : ℕ) (d : Database)
    → (marked env sv now limit d).touched_prefixes ≡ []
unfolding marked start
marked-prefixes env sv now limit d =
    abandon_step-prefixes env sv now limit (expire_step env now limit (start env d))
    ∙ expire_step-prefixes env now limit (start env d)

sweep-cases :
    (env : Environment) (sv : Service) (now : ℕ) (d : Database)
    → ((sweep env sv now d).touched_prefixes ≡ [])
      ⊎ (sweep env sv now d
          ≡ delete_blobs env sv now
              (batch_size sv.batch_size default_batch_size)
              (marked env sv now (batch_size sv.batch_size default_batch_size) d))
unfolding sweep start marked
sweep-cases env sv now d = elim (Option-cases (validate_config sv)) [
  | inl n ↦ inr (ground arith)
  | inr (e, h) ↦ inl (ground arith)
]

-- A pass of the garbage collector over a table that meets its constraints deletes the blobs of no
-- document that is live after it, whichever of its calls fail.
pub sweep_spares_live :
    (pf : Platform) (env : Environment) (sv : Service) (now : ℕ) (d : Database) (s : Str)
    {live : Document}
    → IsTable d
    → get_by_slug s (sweep env sv now d).db ≡ found live
    → any (str_eq s) (sweep env sv now d).touched_prefixes ≡ false
sweep_spares_live pf env sv now d s {live} t l = elim (sweep-cases env sv now d) [
  | inl e ↦ rw e
  | inr e ↦
      let limit = batch_size sv.batch_size default_batch_size in
      let p = marked env sv now limit d in
      rw e (
        delete_blobs_spares pf env sv now limit p s
          (Reach-IsTable pf t (marked-Run pf env sv now limit d)) (rw e at l)
          (ap (any (str_eq s)) (marked-prefixes env sv now limit d)))
]
