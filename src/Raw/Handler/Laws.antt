-- ===== src/Raw/Handler/Laws.antt =====
-- The headers of a raw answer.
use mdfly.Common.{
  Bool-cases, Str, codes, str_eq, is_empty, cut_prefix, has_prefix, ◌≡◌, refl, ◌∙◌, ◌⊎◌, inl, inr,
  true, false, Option, some, [], ◌∷◌,
}
use mdfly.Common.Dict.{Dict, lookup, insert, lookup-insert}
use mdfly.Httpx.{ok}
use mdfly.Manifest.Build.{Manifest}
use mdfly.Raw.Classify.Laws.{is_passive, classify_raw-passive}
use mdfly.Raw.Open.{Stream, File, open_in, attachment_disposition}
use mdfly.Raw.Handler.{
  Response, plain_error, not_modified, full, file_headers, if_none_match, format_int, quoted,
  write_raw_result,
}
use mdfly.Raw.Classify.{classify_raw}
use mdfly.Raw.Open.Laws.{open_in-IsOpened, disposition_of}
use mdfly.Common.Paths.{base}

-- The headers of an answer; an error has none of the file's.
abbrev pub headers_of : Response → Dict Str
headers_of (plain_error e) = []
headers_of (not_modified h) = h
headers_of (full h s) = h

-- A browser keeps the answer in a sandbox, takes its type as given, and either runs nothing in it or
-- offers it for download.
abbrev pub IsGuarded : File → Dict Str → Type 0
IsGuarded f h =
    (lookup (codes "Content-Security-Policy") h ≡ some (codes "sandbox"))
    × ((lookup (codes "X-Content-Type-Options") h ≡ some (codes "nosniff"))
        × ((lookup (codes "Content-Type") h ≡ some f.content_type)
            × ((is_passive f.content_type ≡ true)
                ⊎ ((lookup (codes "Content-Disposition") h ≡ some f.disposition)
                    × (has_prefix f.disposition (codes "attachment") ≡ true)))))

starts_named : (d : Str) → has_prefix d (codes "attachment") ≡ true → is_empty d ≡ false
unfolding has_prefix is_empty
starts_named [] h = cc
starts_named (c ∷ d) h = refl

module _ (f : File) where
  file_headers_lem :
      (lookup (codes "Content-Security-Policy") (file_headers f) ≡ some (codes "sandbox"))
      × ((lookup (codes "X-Content-Type-Options") (file_headers f) ≡ some (codes "nosniff"))
          × ((lookup (codes "Content-Type") (file_headers f) ≡ some f.content_type)
              × (is_empty f.disposition ≡ false
                  → lookup (codes "Content-Disposition") (file_headers f) ≡ some f.disposition)))
  unfolding file_headers lookup insert str_eq
  file_headers_lem = elim (Bool-cases (is_empty f.disposition)) [
    | inl t ↦ rw (t, file_headers) (refl, (refl, (refl, λ x. cc)))
    | inr g ↦ rw (g, file_headers) (refl, (refl, (refl, λ x. refl)))
  ]

  -- The length is one header more.
  IsGuarded-insert :
      (v : Str) (h : Dict Str) → IsGuarded f h → IsGuarded f (insert (codes "Content-Length") v h)
  unfolding str_eq
  IsGuarded-insert v h (csp, (sniff, (type, safe))) = (
    lookup-insert (codes "Content-Length") (codes "Content-Security-Policy") v h ∙ csp,
    (
      lookup-insert (codes "Content-Length") (codes "X-Content-Type-Options") v h ∙ sniff,
      (
        lookup-insert (codes "Content-Length") (codes "Content-Type") v h ∙ type,
        elim safe [
          | inl p ↦ inl p
          | inr (d, e) ↦
              inr (lookup-insert (codes "Content-Length") (codes "Content-Disposition") v h ∙ d, e)
        ],
      ),
    ),
  )

  attachment_named :
      has_prefix f.disposition (codes "attachment") ≡ true → is_empty f.disposition ≡ false
  attachment_named = starts_named f.disposition

  write_raw_result-IsGuarded :
      (condition : Str)
      → (is_passive f.content_type ≡ true) ⊎ (has_prefix f.disposition (codes "attachment") ≡ true)
      → IsGuarded f (headers_of (write_raw_result condition (ok f)))
  unfolding write_raw_result
  write_raw_result-IsGuarded condition safe =
      let (csp, (sniff, (type, offered))) = file_headers_lem in
      let headers : IsGuarded f (file_headers f) = (
        csp,
        (
          sniff,
          (type, elim safe [ inl p ↦ inl p | inr e ↦ inr (offered (attachment_named e), e) ]),
        ),
      ) in
      elim (Bool-cases (if_none_match condition (quoted f.etag))) [
        | inl t ↦ rw (t, write_raw_result) headers
        | inr g ↦
            rw (g, write_raw_result) (IsGuarded-insert (format_int f.size) (file_headers f) headers)
      ]

-- mime.FormatMediaType gives nothing, or a value that starts with the type it is given.
abbrev pub StartsWithType : (Str → Str → Str) → Type 0
StartsWithType format_media_type =
    (name : Str)
    → (format_media_type (codes "attachment") name ≡ [])
      ⊎ (has_prefix (format_media_type (codes "attachment") name) (codes "attachment") ≡ true)

module _ (get_blob_stream : Str → Option Stream) (format_media_type : Str → Str → Str) where
  attachment_disposition_lem :
      StartsWithType format_media_type
      → (key : Str)
      → has_prefix
          (attachment_disposition get_blob_stream format_media_type key)
          (codes "attachment")
        ≡ true
  unfolding attachment_disposition is_empty has_prefix cut_prefix
  attachment_disposition_lem documented key =
      let d = format_media_type (codes "attachment") (base key) in
      elim (Bool-cases (is_empty d)) [
        | inl t ↦ rw (t, attachment_disposition) refl
        | inr g ↦
            rw (g, attachment_disposition)
              (elim (documented (base key)) [ inl e ↦ let wrong = rw (e) at g in cc | inr h ↦ h ])
      ]

  file_safe :
      StartsWithType format_media_type
      → (key head : Str) (it : File) → it.content_type ≡ (classify_raw key head).0
      → it.disposition
        ≡ disposition_of get_blob_stream format_media_type key (classify_raw key head).1
      → (is_passive it.content_type ≡ true)
        ⊎ (has_prefix it.disposition (codes "attachment") ≡ true)
  file_safe documented key head it type disposition = elim (Bool-cases (classify_raw key head).1) [
    | inl t ↦ inr (rw (disposition, t) (attachment_disposition_lem documented key))
    | inr g ↦ inl (rw (type) (classify_raw-passive key head g))
  ]

  -- The answer to a raw request that opens a file: the headers put it in a sandbox and keep its type,
  -- and it is of a type that a browser runs nothing in, or is offered for download: its disposition
  -- starts with `attachment`. Of mime.FormatMediaType this takes that it gives nothing, or a value that
  -- starts with the type it is given.
  pub raw_answer-IsGuarded :
      StartsWithType format_media_type
      → (slug : Str) (m : Manifest) (raw_path up condition : Str) {opened : File}
      → open_in get_blob_stream format_media_type slug m raw_path up ≡ ok opened
      → IsGuarded opened (headers_of (write_raw_result condition (ok opened)))
  raw_answer-IsGuarded documented slug m raw_path up condition {opened} h =
      let (key, (f, (s, (head, (_, (_, (_, (_, (_, (type, (disposition, _))))))))))) =
        open_in-IsOpened get_blob_stream format_media_type slug m raw_path up h in
      write_raw_result-IsGuarded opened condition
        (file_safe documented key head opened type disposition)
