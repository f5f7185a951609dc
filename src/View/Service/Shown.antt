-- ===== src/View/Service/Shown.antt =====
-- What the page of a file or of a folder shows.
use mdfly.Common.Paths.{base, dir_of}
use mdfly.Common.{Str, codes, ℤ, pos, ◌≡◌, ◌⊎◌, true, false, none, some, ◌++◌}
use mdfly.Httpx.{Result, ok, err, not_found}
use mdfly.FileTree.Classify.Laws.{is_listed, is_folder}
use mdfly.View.Service.{
  Bundle, Renderers, manifest_keys, file_at, Asset, Meta, PageData, sizes_by_key,
}
use mdfly.Raw.Classify.{is_binary}
use mdfly.FileTree.Listing.{index_file, list_dir}
use mdfly.View.Resolver.{is_markdown_key, is_image_key, page_resolver}
use mdfly.Common.Dict.{lookup}
use mdfly.FileTree.Crumbs.{breadcrumb}
use mdfly.FileTree.Tree.{build_tree}
use mdfly.FileTree.Listing.Laws.{shows}
use mdfly.Manifest.Build.{ManifestFile}
use mdfly.Manifest.Keys.{ext_from_path, blob_key}

module _ (rs : Renderers) (slug : Str) (b : Bundle) where
  -- The page of a key, with the tree and the breadcrumb of this key.
  abbrev pub IsPageOf : Str → PageData → Type 0
  IsPageOf key page =
      (page.slug ≡ slug)
      × ((page.updated_at ≡ b.updated_at)
          × ((page.tree ≡ build_tree (manifest_keys b) key) × (page.breadcrumb ≡ breadcrumb key)))

  -- Where a browser finds the blob of a file.
  abbrev pub address_of : Str → ManifestFile → Str
  address_of key f = rs.public_base ++ (codes "/" ++ blob_key slug f.hash (ext_from_path key))

  abbrev pub asset_of : Str → ManifestFile → ℤ → Asset
  asset_of key f n = record { name = base key; url = address_of key f; size = n }

  -- The blob of a file is read, and the document that it renders to is shown.
  abbrev pub ShowsDocument : Str → ManifestFile → PageData → Type 0
  ShowsDocument key f page =
      (content : Str) × ((meta : Meta) × ((rs.get_blob (blob_key slug f.hash (ext_from_path key))
            ≡ some content)
          × ((rs.render_refs content (page_resolver rs.public_base slug b.manifest (dir_of key))
                ≡ some (page.body, meta))
              × (page.title ≡ meta.title))))

  -- The blob of a file of text is read, and shown with its highlighting.
  abbrev pub ShowsSource : Str → ManifestFile → PageData → Type 0
  ShowsSource key f page =
      (content : Str) × ((rs.get_blob (blob_key slug f.hash (ext_from_path key)) ≡ some content)
        × ((is_binary content ≡ false)
            × ((rs.highlight_file (base key) content ≡ some page.body) × (page.code_file ≡ true))))

  -- What a page of a file shows.
  abbrev pub ShowsFile : Str → ManifestFile → PageData → Type 0
  ShowsFile key f page =
      ((is_markdown_key key ≡ true) × ShowsDocument key f page)
      ⊎ (((is_markdown_key key ≡ false)
            × ((is_image_key key ≡ true) × (page.image ≡ some (asset_of key f (pos 0)))))
          ⊎ ((is_markdown_key key ≡ false)
              × ((is_image_key key ≡ false)
                  × ((page.download ≡ some (asset_of key f f.size)) ⊎ ShowsSource key f page))))

  -- What a page of a folder shows: its listing, and its index document if it has one.
  abbrev pub ShowsFolder : Str → PageData → Type 0
  ShowsFolder key page =
      (page.listing ≡ list_dir (sizes_by_key b) key)
      × ((index_file (manifest_keys b) key ≡ none)
          ⊎ ((index : Str) × ((index_file (manifest_keys b) key ≡ some index)
                × ShowsDocument index (file_at b index) page)))

  -- A page of the key that shows what it should, or an error of the server.
  abbrev pub IsServed : Str → (PageData → Type 0) → Result Str → Type 0
  IsServed key shows (ok html) =
      (page : PageData) × ((rs.page_html page ≡ some html) × (IsPageOf key page × shows page))
  IsServed key shows (err e) = e.status ≡ 500

  -- A file, a folder that is no file, or neither.
  abbrev pub IsAnswered : Str → Result Str → Type 0
  IsAnswered key r =
      ((f : ManifestFile) × ((lookup key b.manifest.files_by_path ≡ some f)
          × IsServed key (ShowsFile key f) r))
      ⊎ (((is_listed (manifest_keys b) key ≡ false)
            × ((is_folder (manifest_keys b) key ≡ true) × IsServed key (ShowsFolder key) r))
          ⊎ ((is_listed (manifest_keys b) key ≡ false)
              × ((is_folder (manifest_keys b) key ≡ false) × (r ≡ err (not_found "not found")))))
