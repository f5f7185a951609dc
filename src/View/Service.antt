-- ===== src/View/Service.antt =====
-- view.go: the pages of a bundle. The rendering of markdown and of a source file, the page template,
-- the addresses of the style sheet and the script, and the reading of a blob are parameters.
pub mod Laws
pub mod Shown
use mdfly.Common.{
  ltb, if◌then◌else◌, length, ltb_ℤ, Str, ℤ, pos, ℕ, Bool, true, false, Option, none, some, List,
  [], map,
}
use mdfly.Common.Dict.{Dict, lookup, keys}
use mdfly.Common.Paths.{base, dir_of}
use mdfly.FileTree.Classify.{file, dir, Kind, classify}
use mdfly.FileTree.Listing.{Entry, list_dir, index_file}
use mdfly.FileTree.Tree.{TreeNode, build_tree}
use mdfly.FileTree.Crumbs.{Crumb, breadcrumb}
use mdfly.Httpx.{Result, ok, err, not_found, internal, ◌>>=◌}
use mdfly.Manifest.Build.{Manifest, ManifestFile}
use mdfly.Raw.Classify.{is_binary}
use mdfly.View.Resolver.{
  is_markdown_key, is_image_key, blob_public_url, page_resolver, resolve_og_image,
}
use mdfly.Manifest.Keys.{ext_from_path, blob_key}

pub record Asset : Type 0 where
  pub name : Str
  pub url : Str
  pub size : ℤ

pub record Meta : Type 0 where
  pub title : Str
  pub excerpt : Str
  pub og_image_path : Str
  pub has_mermaid : Bool
  pub has_math : Bool

pub record PageData : Type 0 where
  pub title : Str
  pub excerpt : Str
  pub og_image_url : Str
  pub body : Str
  pub image : Option Asset
  pub download : Option Asset
  pub code_file : Bool
  pub listing : List Entry
  pub enrich_mermaid : Bool
  pub enrich_math : Bool
  pub slug : Str
  pub sidebar : Bool
  pub updated_at : ℕ
  pub tree : TreeNode
  pub breadcrumb : List Crumb
  pub css_url : Str
  pub js_url : Str

abbrev pub empty_page : PageData
empty_page = record {
  title = [];
  excerpt = [];
  og_image_url = [];
  body = [];
  image = none;
  download = none;
  code_file = false;
  listing = [];
  enrich_mermaid = false;
  enrich_math = false;
  slug = [];
  sidebar = false;
  updated_at = 0;
  tree = build_tree [] [];
  breadcrumb = [];
  css_url = [];
  js_url = [];
}

pub record Bundle : Type 0 where
  pub manifest : Manifest
  pub updated_at : ℕ

pub record Renderers : Type 0 where
  -- GetBlob, markdown.RenderRefsWithTimeout, markdown.HighlightFile, ssr.RenderPage; `none` is an error
  pub get_blob : Str → Option Str
  pub render_refs : Str → (Str → Option Str) → Option (Str × Meta)
  pub highlight_file : Str → Str → Option Str
  pub page_html : PageData → Option Str
  pub css_url : Str
  pub js_url : Str
  pub public_base : Str

abbrev pub preview_max_bytes : ℕ
preview_max_bytes = 1048576

unfoldable pub manifest_keys : Bundle → List Str
unfolding keys
manifest_keys b = keys b.manifest.files_by_path

unfoldable pub sizes_by_key : Bundle → Dict ℤ
sizes_by_key b = map (λ e. (e.0, e.1.size)) b.manifest.files_by_path

-- `b.FilesByPath[key]`, the zero value for a key that is not there.
unfoldable pub file_at : Bundle → Str → ManifestFile
unfolding lookup
file_at b key = elim (lookup key b.manifest.files_by_path) [
  | some f ↦ f
  | none ↦ record { hash = []; size = pos 0 }
]

module _ (rs : Renderers) (slug : Str) (b : Bundle) where
  unfoldable pub blob_name : Str → Str
  unfolding file_at blob_key ext_from_path
  blob_name key = blob_key slug (file_at b key).hash (ext_from_path key)

  unfoldable pub blob_url : Str → Str
  unfolding blob_name blob_public_url
  blob_url key = blob_public_url rs.public_base (blob_name key)

  unfoldable pub render_page : Str → PageData → Result Str
  unfolding manifest_keys build_tree breadcrumb
  render_page key page =
      let filled = record page {
        slug = slug;
        sidebar = ltb 1 (length b.manifest.files_by_path);
        updated_at = b.updated_at;
        tree = build_tree (manifest_keys b) key;
        breadcrumb = breadcrumb key;
        css_url = rs.css_url;
        js_url = rs.js_url;
      } in
      elim (rs.page_html filled) [ none ↦ err (internal "render error") | some html ↦ ok html ]

  unfoldable pub render_image : Str → Result Str
  unfolding base blob_url render_page
  render_image key =
      let asset : Asset = record { name = base key; url = blob_url key; size = pos 0 } in
      render_page key (record empty_page { title = base key; image = some asset })

  unfoldable pub render_download : Str → Result Str
  unfolding base blob_url file_at render_page
  render_download key =
      let asset : Asset = record {
        name = base key;
        url = blob_url key;
        size = (file_at b key).size;
      } in
      render_page key (record empty_page { title = base key; download = some asset })

  unfoldable pub render_source : Str → Str → Result Str
  unfolding is_binary base render_download render_page
  render_source key content =
      if is_binary content
      then render_download key
      else elim (rs.highlight_file (base key) content) [
        | none ↦ err (internal "render error")
        | some html ↦
            render_page key (record empty_page { title = base key; body = html; code_file = true })
      ]

  unfoldable pub render_text_preview : Str → Result Str
  unfolding file_at blob_name render_download render_source
  render_text_preview key =
      if ltb_ℤ (pos preview_max_bytes) (file_at b key).size
      then render_download key
      else elim (rs.get_blob (blob_name key)) [
        | none ↦ err (internal "internal error")
        | some content ↦ render_source key content
      ]

  -- The body, its metadata, and the resolver used.
  unfoldable pub render_blob : Str → Result (Str × Meta)
  unfolding blob_name page_resolver dir_of
  render_blob key = elim (rs.get_blob (blob_name key)) [
    | none ↦ err (internal "internal error")
    | some content ↦
        elim (rs.render_refs content (page_resolver rs.public_base slug b.manifest (dir_of key))) [
          | none ↦ err (internal "render error")
          | some r ↦ ok r
        ]
  ]

  -- The page of a rendered document at `key`, whose other fields are those of `page`.
  unfoldable pub with_document : Str → Str × Meta → PageData → PageData
  unfolding page_resolver dir_of resolve_og_image
  with_document key (rendered, meta) page = record page {
    title = meta.title;
    excerpt = meta.excerpt;
    og_image_url =
        resolve_og_image meta.og_image_path
          (page_resolver rs.public_base slug b.manifest (dir_of key));
    body = rendered;
    enrich_mermaid = meta.has_mermaid;
    enrich_math = meta.has_math;
  }

  unfoldable pub render_markdown : Str → Result Str
  unfolding render_blob with_document render_page
  render_markdown key = render_blob key >>= λ r. render_page key (with_document key r empty_page)

  unfoldable pub render_directory : Str → Result Str
  unfolding list_dir sizes_by_key index_file manifest_keys render_blob with_document render_page
  render_directory prefix =
      let page = record empty_page { listing = list_dir (sizes_by_key b) prefix } in
      elim (index_file (manifest_keys b) prefix) [
        | none ↦ render_page prefix page
        | some key ↦ render_blob key >>= λ r. render_page prefix (with_document key r page)
      ]

  unfoldable pub render_file : Str → Result Str
  unfolding is_markdown_key is_image_key render_markdown render_image render_text_preview
  render_file key =
      if is_markdown_key key
      then render_markdown key
      else if is_image_key key
      then render_image key
      else render_text_preview key

  unfoldable pub render : Str → Result Str
  unfolding classify manifest_keys render_file render_directory
  render key =
      let res = classify (manifest_keys b) key in
      elim res.kind [
        | file ↦ render_file res.key
        | dir ↦ render_directory res.key
        | Kind.not_found ↦ err (not_found "not found")
      ]
