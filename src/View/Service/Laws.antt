-- ===== src/View/Service/Laws.antt =====
-- Which answer a path has, and what its page shows.
use mdfly.Common.Paths.{dir_of}
use mdfly.Common.{ltb, length, Str, ◌≡◌, some}
use mdfly.Httpx.{Result, ok, err}
use mdfly.View.Service.{Bundle, Renderers, blob_name, manifest_keys, Meta, PageData}
use mdfly.View.Resolver.{page_resolver}
use mdfly.FileTree.Crumbs.{breadcrumb}
use mdfly.FileTree.Tree.{build_tree}

module _ (rs : Renderers) (slug : Str) (b : Bundle) where
  -- The page with what every page of the key has.
  abbrev filled : Str → PageData → PageData
  filled key page = record page {
    slug = slug;
    sidebar = ltb 1 (length b.manifest.files_by_path);
    updated_at = b.updated_at;
    tree = build_tree (manifest_keys b) key;
    breadcrumb = breadcrumb key;
    css_url = rs.css_url;
    js_url = rs.js_url;
  }

  -- What reading and rendering the blob of a key gives.
  abbrev IsDocument : Str → Result (Str × Meta) → Type 0
  IsDocument key (ok (html, meta)) =
      (content : Str) × ((rs.get_blob (blob_name rs slug b key) ≡ some content)
        × (rs.render_refs content (page_resolver rs.public_base slug b.manifest (dir_of key))
            ≡ some (html, meta)))
  IsDocument key (err e) = e.status ≡ 500
