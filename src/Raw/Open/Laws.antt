-- ===== src/Raw/Open/Laws.antt =====
-- Which file a raw request opens, and what its answer allows.
use mdfly.Common.{
  leb, if◌then◌else◌, Bool-cases, Option-cases, length, take, take-all, Str, is_empty, trim,
  is_slash, ℕ, ◌≤◌, ◌<◌, ◌≡◌, refl, subst, ◌⊎◌, inl, inr, Bool, true, false, Option, none, some, [],
  arith,
}
use mdfly.Common.Dict.{lookup}
use mdfly.Httpx.{Result, ok, err, not_found, internal}
use mdfly.Manifest.Build.{Manifest, ManifestFile}
use mdfly.Raw.Open.{
  Stream, File, open_in, raw_key, peek, file_of, open_stream, attachment_disposition,
}
use mdfly.Manifest.Keys.{ext_from_path, blob_key}
use mdfly.Raw.Classify.{classify_raw}
use mdfly.Manifest.NestedKey.{nested_key}

<-weaken : (n m : ℕ) → n < m → n ≤ m
<-weaken n m h = omega arith

leb-≤ : (n m : ℕ) → leb n m ≡ true → n ≤ m
leb-≤ n m h = ground arith

leb-< : (n m : ℕ) → leb n m ≡ false → m < n
leb-< n m h = ground arith

-- The first bytes of a stream, at most 512; one that breaks before is not looked at.
abbrev pub IsHead : Stream → Str → Type 0
IsHead s head = (head ≡ take 512 s.bytes) × ((512 ≤ length s.bytes) ⊎ (s.breaks ≡ false))

peek-IsHead : (s : Stream) (head : Str) → peek s ≡ some head → IsHead s head
unfolding peek
peek-IsHead s head h = elim (Bool-cases (leb 512 (length s.bytes))) [
  | inl t ↦
      let first : some (take 512 s.bytes) ≡ some head = rw (t, peek) at h in
      (cc, inl (leb-≤ 512 (length s.bytes) t))
  | inr f ↦ elim (Bool-cases s.breaks) [
    | inl b ↦ let wrong : none ≡ some head = rw (f, b, peek) at h in cc
    | inr g ↦
        let whole : some s.bytes ≡ some head = rw (f, g, peek) at h in
        let all =
          take-all 512 s.bytes (<-weaken (length s.bytes) 512 (leb-< 512 (length s.bytes) f)) in
        (cc, inr g)
  ]
]

peek-none : (s : Stream) → peek s ≡ none → (s.breaks ≡ true) × (length s.bytes < 512)
unfolding peek
peek-none s h = elim (Bool-cases (leb 512 (length s.bytes))) [
  | inl t ↦ let wrong : some (take 512 s.bytes) ≡ none = rw (t, peek) at h in cc
  | inr f ↦ elim (Bool-cases s.breaks) [
    | inl b ↦ (b, leb-< 512 (length s.bytes) f)
    | inr g ↦ let wrong : some s.bytes ≡ none = rw (f, g, peek) at h in cc
  ]
]

module _ (get_blob_stream : Str → Option Stream) (format_media_type : Str → Str → Str) where
  -- The root of a request without a path, or the nested key of its path and `up`.
  abbrev pub IsKey : Manifest → Str → Str → Option Str → Type 0
  IsKey m raw_path up key =
      ((trim is_slash raw_path ≡ [])
        × (key ≡ (if is_empty m.root_path then none else some m.root_path)))
      ⊎ ((is_empty (trim is_slash raw_path) ≡ false) × (nested_key raw_path up ≡ key))

  -- What is downloaded has a disposition, with the last element of its key for a name.
  abbrev pub disposition_of : Str → Bool → Str
  disposition_of key attachment =
      if attachment then attachment_disposition get_blob_stream format_media_type key else []

  -- A file it of a key of the manifest: the whole stream of its blob, with the type that its first bytes
  -- tell, its hash and its size.
  abbrev pub IsOpened : Str → Manifest → Str → Str → File → Type 0
  IsOpened slug m raw_path up it =
      (key : Str) × ((f : ManifestFile) × ((s : Stream) × ((head : Str) × (IsKey m raw_path up
                (some key)
              × ((lookup key m.files_by_path ≡ some f)
                  × ((get_blob_stream (blob_key slug f.hash (ext_from_path key)) ≡ some s)
                      × (IsHead s head
                          × ((it.content ≡ s)
                              × ((it.content_type ≡ (classify_raw key head).0)
                                  × ((it.disposition ≡ disposition_of key (classify_raw key head).1)
                                      × ((it.etag ≡ f.hash) × (it.size ≡ f.size))))))))))))

  -- The request addresses no file of the manifest.
  abbrev pub IsUnknown : Manifest → Str → Str → Type 0
  IsUnknown m raw_path up =
      IsKey m raw_path up none
      ⊎ ((key : Str) × (IsKey m raw_path up (some key) × (lookup key m.files_by_path ≡ none)))

  -- The request addresses a file whose blob cannot be opened, or not be read from.
  abbrev pub IsUnread : Str → Manifest → Str → Str → Type 0
  IsUnread slug m raw_path up =
      (key : Str) × ((f : ManifestFile) × (IsKey m raw_path up (some key)
          × ((lookup key m.files_by_path ≡ some f)
              × ((get_blob_stream (blob_key slug f.hash (ext_from_path key)) ≡ none)
                  ⊎ ((s : Stream) × ((get_blob_stream (blob_key slug f.hash (ext_from_path key))
                          ≡ some s)
                        × ((s.breaks ≡ true) × (length s.bytes < 512))))))))

  abbrev pub IsAnswer : Str → Manifest → Str → Str → Result File → Type 0
  IsAnswer slug m raw_path up (ok it) = IsOpened slug m raw_path up it
  IsAnswer slug m raw_path up (err e) =
      ((e ≡ not_found "not found") × IsUnknown m raw_path up)
      ⊎ ((e ≡ internal "internal error") × IsUnread slug m raw_path up)

  raw_key-IsKey : (m : Manifest) (raw_path up : Str) → IsKey m raw_path up (raw_key m raw_path up)
  unfolding raw_key is_empty
  raw_key-IsKey m raw_path up = elim (Bool-cases (is_empty (trim is_slash raw_path))) [
    | inl t ↦ inl (ground arith, rw (t, raw_key) refl)
    | inr f ↦ inr (f, rw (f, raw_key) refl)
  ]

  key_of :
      (m : Manifest) (raw_path up : Str) (o : Option Str)
      → raw_key m raw_path up ≡ o
      → IsKey m raw_path up o
  key_of m raw_path up o e = subst (IsKey m raw_path up) e (raw_key-IsKey m raw_path up)

  -- A raw request opens the addressed file of the manifest, with the whole stream of its blob, the type
  -- and the disposition that its key and first bytes tell, its hash and its size; it answers 404 where it addresses no file of the
  -- manifest, and 500 where the blob of the file cannot be opened, or breaks within 512 bytes.
  pub open_in-IsAnswer :
      (slug : Str) (m : Manifest) (raw_path up : Str)
      → IsAnswer slug m raw_path up (open_in get_blob_stream format_media_type slug m raw_path up)
  unfolding open_in open_stream file_of
  open_in-IsAnswer slug m raw_path up = elim (Option-cases (raw_key m raw_path up)) [
    | inl n ↦ rw (n, open_in) (inl (refl, inl (key_of m raw_path up none n)))
    | inr (key, k) ↦ elim (Option-cases (lookup key m.files_by_path)) [
      | inl n ↦ rw (k, n, open_in) (inl (refl, inr (key, (key_of m raw_path up (some key) k, n))))
      | inr (f, l) ↦
          let stream = get_blob_stream (blob_key slug f.hash (ext_from_path key)) in
          elim (Option-cases stream) [
            | inl n ↦
                rw (k, l, n, open_in, open_stream)
                  (inr (refl, (key, (f, (key_of m raw_path up (some key) k, (l, inl n))))))
            | inr (s, g) ↦ elim (Option-cases (peek s)) [
              | inl n ↦
                  rw (k, l, g, n, open_in, open_stream)
                    (inr (
                      refl,
                      (
                        key,
                        (f, (key_of m raw_path up (some key) k, (l, inr (s, (g, peek-none s n))))),
                      ),
                    ))
              | inr (head, p) ↦
                  rw (k, l, g, p, open_in, open_stream)
                    (
                      key,
                      (
                        f,
                        (
                          s,
                          (
                            head,
                            (
                              key_of m raw_path up (some key) k,
                              (
                                l,
                                (g, (peek-IsHead s head p, (refl, (refl, (refl, (refl, refl)))))),
                              ),
                            ),
                          ),
                        ),
                      ),
                    )
            ]
          ]
    ]
  ]

  pub open_in-IsOpened :
      (slug : Str) (m : Manifest) (raw_path up : Str) {it : File}
      → open_in get_blob_stream format_media_type slug m raw_path up ≡ ok it
      → IsOpened slug m raw_path up it
  open_in-IsOpened slug m raw_path up h =
      subst (IsAnswer slug m raw_path up) h (open_in-IsAnswer slug m raw_path up)
