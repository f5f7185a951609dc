-- ===== src/View/Resolver/Laws.antt =====
-- A reference that is rewritten leads to something in the bundle.
use mdfly.Common.{Str, codes, ◌≡◌, ◌≢◌, ◌⊎◌, none, some, ◌++◌}
use mdfly.Common.Dict.{lookup, Dict}
use mdfly.Manifest.Build.{Manifest, ManifestFile}
use mdfly.View.Address.{slug_page_url, append_suffix}
use mdfly.Manifest.Keys.{ext_from_path, blob_key}

-- A folder of the bundle: the path of some file goes on behind the key and a slash.
abbrev pub IsFolder : Manifest → Str → Type 0
IsFolder m key =
    (rest : Str) × ((f : ManifestFile) × (lookup (key ++ (codes "/" ++ rest)) m.files_by_path
        ≡ some f))

-- A page of the bundle: a folder that is no file, or a markdown file.
abbrev pub IsPage : Manifest → Str → Type 0
IsPage m key =
    ((lookup key m.files_by_path ≡ none) × IsFolder m key)
    ⊎ ((f : ManifestFile) × ((lookup key m.files_by_path ≡ some f)
          × (ext_from_path key ≡ codes ".md")))

-- The address of a page of the bundle, or of the blob of one of its other files.
abbrev pub LandsOn : Str → Str → Manifest → Str → Str → Str → Type 0
LandsOn public_base slug m suffix key url =
    (IsPage m key × (url ≡ append_suffix (slug_page_url slug key) suffix))
    ⊎ ((f : ManifestFile) × ((lookup key m.files_by_path ≡ some f)
          × ((ext_from_path key ≢ codes ".md")
              × (url
                  ≡ append_suffix
                      (public_base ++ (codes "/" ++ blob_key slug f.hash (ext_from_path key)))
                      suffix))))
