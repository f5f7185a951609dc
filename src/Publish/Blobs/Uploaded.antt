-- ===== src/Publish/Blobs/Uploaded.antt =====
-- What the check of the blobs in a commit or an update establishes.
use mdfly.Common.{All, Str, ℤ, pos, negsuc, ◌≡◌, refl, ◌↔◌, true, false, none, some, [], ◌∷◌, arith}
use mdfly.Platform.{Object, absent, unreachable, present, Platform}
use mdfly.Blobs.{check_object, head_blob}
use mdfly.Publish.Blobs.{key_of, verify_blobs}
use mdfly.Common.Dict.{Dict}
use mdfly.Manifest.Build.{ManifestFile}

-- The object is there, and its length, where the store tells one, is the declared size.
abbrev pub IsStored : Object → ℤ → Type 0
IsStored absent size = false ≡ true
IsStored unreachable size = false ≡ true
IsStored (present none) size = Unit
IsStored (present (some n)) size = n ≡ size

IsStored→check : (o : Object) (size : ℤ) → IsStored o size → check_object o size ≡ none
unfolding check_object
IsStored→check o size h = ground arith

check→IsStored : (o : Object) (size : ℤ) → check_object o size ≡ none → IsStored o size
unfolding check_object
check→IsStored absent size e = cc
check→IsStored unreachable size e = cc
check→IsStored (present none) size e = tt
check→IsStored (present (some (pos n))) (pos m) e = ground arith
check→IsStored (present (some (pos n))) (negsuc m) e = ground arith
check→IsStored (present (some (negsuc n))) (pos m) e = ground arith
check→IsStored (present (some (negsuc n))) (negsuc m) e = ground arith

module _ (pf : Platform) (slug : Str) where
  abbrev pub FileStored : Str × ManifestFile → Type 0
  FileStored (path, f) = IsStored (pf.head_object (key_of slug path f)) f.size

  passes : (files : Dict ManifestFile) → verify_blobs pf slug files ≡ none → All FileStored files
  unfolding verify_blobs head_blob
  passes [] e = tt
  passes ((path, f) ∷ files) e =
      ground (arith, check→IsStored (pf.head_object (key_of slug path f)) f.size, passes files)

  stored : (files : Dict ManifestFile) → All FileStored files → verify_blobs pf slug files ≡ none
  unfolding verify_blobs head_blob
  stored [] h = refl
  stored ((path, f) ∷ files) h =
      ground
        (arith, IsStored→check (pf.head_object (key_of slug path f)) f.size h.0, stored files h.1)

  -- The check of the blobs passes exactly if, for every file of the manifest, the object at its blob
  -- key is there, with the declared size where the store tells its length.
  pub verify_blobs-FileStored :
      (files : Dict ManifestFile) → (verify_blobs pf slug files ≡ none) ↔ All FileStored files
  verify_blobs-FileStored files = (passes files, stored files)
