-- ===== src/Raw/Handler.antt =====
-- handlers/raw.go: what is written of a raw file; handlers/headers.go: `slugCacheControl`.
pub mod Laws
use mdfly.Common.{
  if◌then◌else◌, any, Str, codes, str_eq, is_empty, cut_prefix, trim, is_space, ℤ, pos, negsuc, ℕ,
  ◌+◌, Bool, true, false, none, some, [], ◌∷◌, ◌++◌,
}
use mdfly.Common.Decimal.{itoa}
use mdfly.Common.Dict.{Dict, insert}
use mdfly.Common.Split.{split}
use mdfly.Httpx.{HttpError, Result, ok, err}
use mdfly.Raw.Open.{File, Stream}
use mdfly.Blobs.{content_type}

abbrev pub raw_csp : Str
raw_csp = codes "sandbox"

abbrev pub content_type_options_no_sniff : Str
content_type_options_no_sniff = codes "nosniff"

abbrev pub robots_tag_slug : Str
robots_tag_slug = codes "noindex, nofollow"

abbrev pub slug_max_age_seconds : ℕ
slug_max_age_seconds = 300

abbrev pub slug_smax_age_seconds : ℕ
slug_smax_age_seconds = 86400

unfoldable pub slug_cache_control : Str
unfolding itoa
slug_cache_control =
    codes "public, max-age="
    ++ (itoa slug_max_age_seconds ++ (codes ", s-maxage=" ++ itoa slug_smax_age_seconds))

-- The status line and body of an error, a 304 with its headers, or a file with its headers.
pub data Response : Type 0 where
  plain_error : HttpError → Response
  not_modified : Dict Str → Response
  full : Dict Str → Stream → Response

-- `strings.TrimPrefix(s, "W/")`
unfoldable pub strong : Str → Str
unfolding cut_prefix
strong s = elim (cut_prefix s (codes "W/")) [ none ↦ s | some rest ↦ rest ]

unfoldable pub if_none_match : Str → Str → Bool
unfolding is_empty trim str_eq split strong
if_none_match header etag =
    if is_empty header
    then false
    else if str_eq (trim is_space header) (codes "*")
    then true
    else any (λ tok. str_eq (strong (trim is_space tok)) etag) (split b',' header)

unfoldable pub format_int : ℤ → Str
unfolding itoa
format_int (pos n) = itoa n
format_int (negsuc n) = b'-' ∷ itoa (n + 1)

abbrev pub quoted : Str → Str
quoted s = codes "\"" ++ (s ++ codes "\"")

unfoldable pub file_headers : File → Dict Str
unfolding insert slug_cache_control is_empty
file_headers f =
    let h = insert (codes "ETag") (quoted f.etag) (
      insert (codes "Content-Security-Policy") raw_csp (
        insert (codes "X-Content-Type-Options") content_type_options_no_sniff (
          insert (codes "X-Robots-Tag") robots_tag_slug (
            insert (codes "Cache-Control") slug_cache_control
              (insert (codes "Content-Type") f.content_type []))))) in
    if is_empty f.disposition then h else insert (codes "Content-Disposition") f.disposition h

-- `writeRawResult`; `condition` is the request's If-None-Match header.
unfoldable pub write_raw_result : Str → Result File → Response
unfolding file_headers if_none_match format_int insert
write_raw_result condition (err e) = plain_error e
write_raw_result condition (ok f) =
    let h = file_headers f in
    if if_none_match condition (quoted f.etag)
    then not_modified h
    else full (insert (codes "Content-Length") (format_int f.size) h) f.content
