-- ===== src/Publish/UpdateCommit/Dispatch.antt =====
-- The switch of `UpdateCommit`: what an answer from each of its branches stands for.
use mdfly.Common.{Str, str_eq_iff, is_empty, ℕ, ◌≡◌, refl, sym, ap, ◌∙◌, inl, inr, arith}
use mdfly.Publish.Service.{Service, CommitResult}
use mdfly.Publish.UpdateCommit.Laws.{Landed, apply_update-Landed}
use mdfly.Httpx.{Result, ok, err, check_cases}
use mdfly.Documents.Table.{found, Document, Database}
use mdfly.Api.{UpdateCommitRequest}
use mdfly.Documents.Ops.{get_by_slug, manifest_hash_hex}
use mdfly.Publish.Update.{
  manifest_hash_of, disp_apply, Disposition, disp_applied, disp_conflict, classify_update,
  conflict_err,
}
use mdfly.Manifest.Build.{Manifest}
use mdfly.Publish.Blobs.{verify_blobs}
use mdfly.Publish.UpdateCommit.{UpdateLink, Meanwhile, apply_update, refuse, update_reply, dispatch}

module _ (sv : Service) where
  update_reply-ok :
      (x : Database × Result Document) {res : CommitResult}
      → (update_reply sv x).result ≡ ok res
      → (doc : Document) × (x.1 ≡ ok doc)
        × (res.manifest_hash ≡ manifest_hash_hex doc)
        × ((update_reply sv x).db ≡ x.0)
  unfolding update_reply refuse
  update_reply-ok (d, err e) {res} h = cc
  update_reply-ok (d, ok doc) {res} h = (doc, refl, ground arith, refl)

  dispatch_apply_steps :
      (link : UpdateLink) (mw : Meanwhile) (req : UpdateCommitRequest) (m : Manifest)
      (doc : Document) (now : ℕ) (d : Database) {res : CommitResult}
      → (dispatch sv disp_apply link mw req m doc now d).result ≡ ok res
      → dispatch sv disp_apply link mw req m doc now d
        ≡ update_reply sv (apply_update sv link mw doc.slug m req.parent_manifest_hash now d)
  unfolding dispatch refuse
  dispatch_apply_steps link mw req m doc now d {res} e =
      elim (check_cases (verify_blobs sv.platform doc.slug m.files_by_path)) [
        | inl (x, h) ↦ ground arith
        | inr h ↦ ground arith
      ]

  dispatch_apply-ok :
      (link : UpdateLink) (mw : Meanwhile) (req : UpdateCommitRequest) (m : Manifest)
      (doc : Document) (now : ℕ) (d : Database) {res : CommitResult}
      → (dispatch sv disp_apply link mw req m doc now d).result ≡ ok res
      → (manifest_hash_of sv m ≡ ok res.manifest_hash)
        × Landed sv doc.slug req.parent_manifest_hash m res.manifest_hash now
            (mw.before_write d)
            (dispatch sv disp_apply link mw req m doc now d).db
  dispatch_apply-ok link mw req m doc now d {res} e =
      let a = apply_update sv link mw doc.slug m req.parent_manifest_hash now d in
      let steps = dispatch_apply_steps link mw req m doc now d e in
      let (row, f, same, left) = update_reply-ok a (rw steps at e) in
      rw (steps, left, same)
        (apply_update-Landed sv link mw doc.slug m req.parent_manifest_hash now d f)

  classify_applied :
      (current parent next : Str)
      → classify_update current parent next ≡ disp_applied
      → current ≡ next
  unfolding classify_update is_empty
  classify_applied current parent next e = ground (arith, str_eq_iff current next)

  dispatch_applied-ok :
      (link : UpdateLink) (mw : Meanwhile) (req : UpdateCommitRequest) (m : Manifest)
      (doc : Document) (now : ℕ) (d : Database) {res : CommitResult}
      → (dispatch sv disp_applied link mw req m doc now d).result ≡ ok res
      → (manifest_hash_hex doc ≡ res.manifest_hash)
        × ((dispatch sv disp_applied link mw req m doc now d).db ≡ d)
  unfolding dispatch
  dispatch_applied-ok link mw req m doc now d {res} e = ground arith

  dispatch_conflict-err :
      (link : UpdateLink) (mw : Meanwhile) (req : UpdateCommitRequest) (m : Manifest)
      (doc : Document) (now : ℕ) (d : Database)
      → (dispatch sv disp_conflict link mw req m doc now d).result ≡ err conflict_err
  unfolding dispatch refuse
  dispatch_conflict-err link mw req m doc now d = refl

  pub dispatch-ok :
      (x : Disposition) (link : UpdateLink) (mw : Meanwhile) (req : UpdateCommitRequest)
      (m : Manifest) (doc : Document) (now : ℕ) (d : Database) (next : Str) {res : CommitResult}
      → get_by_slug doc.slug d ≡ found doc
      → manifest_hash_of sv m ≡ ok next
      → classify_update (manifest_hash_hex doc) req.parent_manifest_hash next ≡ x
      → (dispatch sv x link mw req m doc now d).result ≡ ok res
      → (manifest_hash_of sv m ≡ ok res.manifest_hash)
        × Landed sv doc.slug req.parent_manifest_hash m res.manifest_hash now
            (mw.before_write d)
            (dispatch sv x link mw req m doc now d).db
  dispatch-ok disp_applied link mw req m doc now d next {res} live hash c e =
      let (h, same) = dispatch_applied-ok link mw req m doc now d e in
      let moved = classify_applied (manifest_hash_hex doc) req.parent_manifest_hash next c in
      (hash ∙ ap ok (sym moved ∙ h), inl (doc, rw same live, h))
  dispatch-ok disp_apply link mw req m doc now d next {res} live hash c e =
      dispatch_apply-ok link mw req m doc now d e
  dispatch-ok disp_conflict link mw req m doc now d next {res} live hash c e =
      cc (dispatch_conflict-err link mw req m doc now d)
