-- ===== src/View/Pages.antt =====
-- view.go: `RenderRoot`, `RenderPath` and `loadBundle`.
pub mod Laws
use mdfly.Common.{if◌then◌else◌, Str, is_empty, none, some}
use mdfly.Documents.Table.{found, failed, DbError, Database}
use mdfly.Httpx.{Result, ok, err, not_found, gone, internal, ◌>>=◌}
use mdfly.Platform.{Platform}
use mdfly.View.Service.{Bundle, Renderers, render}
use mdfly.Documents.Ops.{get_manifest_by_slug}
use mdfly.Manifest.NestedKey.{nested_key}

module _ (pf : Platform) (rs : Renderers) where
  unfoldable pub load_bundle : Str → Database → Result Bundle
  unfolding get_manifest_by_slug
  load_bundle slug d = elim (get_manifest_by_slug pf slug d) [
    | found (doc, m) ↦ ok (record { manifest = m; updated_at = doc.updated_at })
    | failed DbError.not_found ↦ err (not_found "not found")
    | failed DbError.gone ↦ err (gone "gone")
    | failed _ ↦ err (internal "internal error")
  ]

  unfoldable pub render_root : Str → Database → Result Str
  unfolding is_empty load_bundle render
  render_root slug d =
      if is_empty slug
      then err (not_found "not found")
      else load_bundle slug d >>= λ b. render rs slug b b.manifest.root_path

  unfoldable pub render_path : Str → Str → Str → Database → Result Str
  unfolding is_empty nested_key load_bundle render
  render_path slug raw_path up d =
      if is_empty slug then err (not_found "not found") else elim (nested_key raw_path up) [
        | none ↦ err (not_found "not found")
        | some key ↦ load_bundle slug d >>= λ b. render rs slug b key
      ]
